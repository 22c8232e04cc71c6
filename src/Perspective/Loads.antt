-- ===== src/Perspective/Loads.antt =====
-- What `FactRegistry::load` of qxfx0-semantic/src/fact_model.rs accepts, and what it makes.
use qx_fx0rust.Base.{
  ltb, fail_if, ℕ, ◌≡◌, ◌↔◌, ◌≤◌, Bool, true, false, not, ◌||◌, List, [], ◌∷◌, All, ok, ◌>>◌, arith,
  guard_iff, both_iff,
}
use qx_fx0rust.Base.Text.{Text, text_eq, text_eq_comm, is_blank}
use qx_fx0rust.Base.Order.{text_ord}
use qx_fx0rust.Base.OrdMap.{insert, contains_key, contains_key-insert}
use qx_fx0rust.Base.Distinct.{contains, fresh, Distinct}
use qx_fx0rust.Perspective.Facts.{FactCondition, FactRecord, FactRegistry}
use qx_fx0rust.Perspective.Load.{
  fact_confidence_limit, validate_shape, check_concepts, load_records, load_bindings,
  condition_fact, check_conditions, check_dependencies,
}

abbrev pub fact_ids : List FactRecord → List Text
fact_ids [] = []
fact_ids (r ∷ records) = r.id ∷ fact_ids records

abbrev pub predicates : List (Text × Text) → List Text
predicates [] = []
predicates (b ∷ bindings) = b.0 ∷ predicates bindings

-- A record with an id, a provenance and a confidence, about known concepts by a typed relation.
pub record IsAdmissible (known : List Text) (relations : List Text) (r : FactRecord) : Type 0 where
  pub named : is_blank r.id ≡ false
  pub packed : is_blank r.source_pack ≡ false
  pub sourced : is_blank r.source_ref ≡ false
  pub rated : r.confidence_basis_points ≤ fact_confidence_limit
  pub subject : contains text_eq known r.subject ≡ true
  pub object : contains text_eq known r.object ≡ true
  pub related : contains text_eq relations r.relation ≡ true

-- The conditions of a record are about facts among the ids.
abbrev pub Depends : List Text → FactRecord → Type 0
Depends ids r = All (λ c. contains text_eq ids (condition_fact c) ≡ true) r.conditions

-- The registry that the records and the bindings make.
abbrev pub insert_records : FactRegistry → List FactRecord → FactRegistry
insert_records m [] = m
insert_records m (r ∷ records) = insert_records (insert r.id r m) records

abbrev pub insert_bindings : List (Text × Text) → List (Text × Text) → List (Text × Text)
insert_bindings m [] = m
insert_bindings m (b ∷ bindings) = insert_bindings (insert b.0 b.1 m) bindings

-- What a registry can be loaded from.
pub record IsLoadable (records : List FactRecord) (bindings : List (Text × Text))
    (known : List Text) (relations : List Text) : Type 0 where
  pub admissible : All (IsAdmissible known relations) records
  pub distinct : Distinct text_eq (fact_ids records)
  pub bound : All (λ b. contains text_eq (fact_ids records) b.1 ≡ true) bindings
  pub bound_once : Distinct text_eq (predicates bindings)
  pub depends : All (Depends (fact_ids records)) records

-- A map that has the keys in a list.
abbrev pub Keyed : {V : Type 0} → List Text → List (Text × V) → Type 0
Keyed seen m = (k : Text) → contains_key k m ≡ contains text_eq seen k

pub Keyed-insert :
    {V : Type 0} (seen : List Text) (m : List (Text × V)) (k : Text) (v : V)
    → Keyed seen m
    → Keyed (k ∷ seen) (insert k v m)
Keyed-insert seen m k v h j = ground (arith, contains_key-insert k j v m, text_eq_comm k j, h j)

three_guards :
    {E : Type 0} (a b c : Bool) (n limit : ℕ) (x y z : E)
    → ((fail_if a x >> (fail_if (b || c) y >> fail_if (ltb limit n) z)) ≡ ok tt)
      ↔ ((a ≡ false) × (b ≡ false) × (c ≡ false) × (n ≤ limit))
three_guards a b c n limit x y z = ground arith

validate_shape-admits :
    (r : FactRecord)
    → (validate_shape r ≡ ok tt) ↔ (
        (is_blank r.id ≡ false)
        × (is_blank r.source_pack ≡ false)
        × (is_blank r.source_ref ≡ false)
        × (r.confidence_basis_points ≤ fact_confidence_limit))
unfolding validate_shape
validate_shape-admits r =
    three_guards (is_blank r.id) (is_blank r.source_pack) (is_blank r.source_ref)
      r.confidence_basis_points fact_confidence_limit _ _ _

check_concepts-ok :
    (known : List Text) (id : Text) (concepts : List Text)
    → (check_concepts known id concepts ≡ ok tt)
      ↔ All (λ c. contains text_eq known c ≡ true) concepts
check_concepts-ok known id [] = ground arith
check_concepts-ok known id (c ∷ concepts) = ground (arith, check_concepts-ok known id concepts)

not-false : (b : Bool) → (not b ≡ false) ↔ (b ≡ true)
not-false b = ground arith

same-false : (a b : Bool) → a ≡ b → (a ≡ false) ↔ (b ≡ false)
same-false a b e = ground arith

-- The checks of a record, without the one that asks for its id in the registry.
checks-IsAdmissible :
    (known relations : List Text) (r : FactRecord)
    → ((validate_shape r ≡ ok tt)
        × (check_concepts known r.id (r.subject ∷ r.object ∷ []) ≡ ok tt)
        × (contains text_eq relations r.relation ≡ true))
      ↔ IsAdmissible known relations r
checks-IsAdmissible known relations r =
    let shape = validate_shape-admits r in
    let concepts = check_concepts-ok known r.id (r.subject ∷ r.object ∷ []) in
    (
      λ h.
          let s = shape.0 h.0 in
          let c = concepts.0 h.1 in
          record {
            named = s.0;
            packed = s.1;
            sourced = s.2;
            rated = s.3;
            subject = c.0;
            object = c.1.0;
            related = h.2;
          },
      λ a. (
        shape.1 (a.named, a.packed, a.sourced, a.rated),
        concepts.1 (a.subject, (a.object, tt)),
        a.related,
      ),
    )

pub load_records-ok :
    (known relations seen : List Text) (m : FactRegistry) (records : List FactRecord)
    (m' : FactRegistry)
    → Keyed seen m
    → (load_records known relations m records ≡ ok m') ↔ (
        (All (IsAdmissible known relations) records
          × (fresh text_eq seen (fact_ids records) ≡ true))
        × (m' ≡ insert_records m records))
unfolding load_records
load_records-ok known relations seen m [] m' h = ground arith
load_records-ok known relations seen m (r ∷ records) m' h =
    let rest =
      load_records-ok known relations (r.id ∷ seen) (insert r.id r m) records m'
        (Keyed-insert seen m r.id r h) in
    let related =
      guard_iff (contains text_eq relations r.relation ≡ true) _
        (not (contains text_eq relations r.relation)) _ _ m'
        (not-false (contains text_eq relations r.relation)) rest in
    let concepts =
      both_iff (check_concepts known r.id (r.subject ∷ r.object ∷ []) ≡ ok tt) _
        (check_concepts known r.id (r.subject ∷ r.object ∷ [])) _ m' (λ e. e, λ e. e) related in
    let once =
      guard_iff (contains text_eq seen r.id ≡ false) _ (contains_key r.id m) _ _ m'
        (same-false (contains_key r.id m) (contains text_eq seen r.id) (h r.id)) concepts in
    let whole =
      both_iff (validate_shape r ≡ ok tt) _ (validate_shape r) _ m' (λ e. e, λ e. e) once in
    let admits = checks-IsAdmissible known relations r in
    (
      λ e.
          let w = whole.0 e in
          let parts = w.1.1 in
          let tail = parts.1.1 in
          (
            ((admits.0 (w.0, parts.0, parts.1.0), tail.0.0), ground (arith, w.1.0, tail.0.1)),
            tail.1,
          ),
      λ e.
          let a = admits.1 e.0.0.0 in
          whole.1
            (a.0, (ground (arith, e.0.1), (a.1, (a.2, ((e.0.0.1, ground (arith, e.0.1)), e.1))))),
    )

pub load_bindings-ok :
    (registry : FactRegistry) (ids seen : List Text) (m bindings m' : List (Text × Text))
    → Keyed ids registry
    → Keyed seen m
    → (load_bindings registry m bindings ≡ ok m') ↔ (
        (All (λ b. contains text_eq ids b.1 ≡ true) bindings
          × (fresh text_eq seen (predicates bindings) ≡ true))
        × (m' ≡ insert_bindings m bindings))
unfolding load_bindings
load_bindings-ok registry ids seen m [] m' h k = ground arith
load_bindings-ok registry ids seen m (b ∷ bindings) m' h k = ground (
  arith,
  h b.1,
  k b.0,
  load_bindings-ok registry ids (b.0 ∷ seen) (insert b.0 b.1 m) bindings m' h
      (Keyed-insert seen m b.0 b.1 k),
)

check_conditions-ok :
    (registry : FactRegistry) (ids : List Text) (conditions : List FactCondition)
    → Keyed ids registry
    → (check_conditions registry conditions ≡ ok tt)
      ↔ All (λ c. contains text_eq ids (condition_fact c) ≡ true) conditions
unfolding check_conditions
check_conditions-ok registry ids [] h = ground arith
check_conditions-ok registry ids (c ∷ conditions) h =
    ground (arith, h (condition_fact c), check_conditions-ok registry ids conditions h)

pub check_dependencies-ok :
    (registry : FactRegistry) (ids : List Text) (records : FactRegistry)
    → Keyed ids registry
    → (check_dependencies registry records ≡ ok tt) ↔ All (λ r. Depends ids r.1) records
unfolding check_dependencies
check_dependencies-ok registry ids [] h = ground arith
check_dependencies-ok registry ids (r ∷ records) h =
    both_iff (Depends ids r.1) (All (λ r. Depends ids r.1) records)
      (check_conditions registry r.1.conditions) (check_dependencies registry records) tt
      (check_conditions-ok registry ids r.1.conditions h)
      (check_dependencies-ok registry ids records h)
