-- ===== src/Perspective/Loaded.antt =====
-- A registry that `FactRegistry::load` of qxfx0-semantic/src/fact_model.rs has loaded, and the
-- perspective that is made of its facts.
use qx_fx0rust.Base.{
  ℕ, ◌≡◌, refl, ◌∙◌, ◌↔◌, ◌≤◌, true, false, List, [], ◌∷◌, All, All-imp, ok, arith, step_iff,
  both_iff,
}
use qx_fx0rust.Base.Text.{Text, text_eq, text_eq_comm}
use qx_fx0rust.Base.Order.{text_ord}
use qx_fx0rust.Base.OrdMap.{IsSorted, insert, contains_key, All-insert}
use qx_fx0rust.Base.Distinct.{contains, fresh, fresh-Distinct, insert_all, contains-insert_all}
use qx_fx0rust.Perspective.{ClaimRole, PerspectiveState, validate_perspective}
use qx_fx0rust.Perspective.Integrate.{PerspectiveUpdate, integrate_curated_claims}
use qx_fx0rust.Perspective.Sound.{IsRated, integrate_curated_claims-IsKept}
use qx_fx0rust.Perspective.Facts.{FactRecord, FactRegistry}
use qx_fx0rust.Perspective.Load.{
  Loaded, LoadedRegistry, load_records, load_bindings, check_dependencies, load,
}
use qx_fx0rust.Perspective.Loads.{
  fact_ids, predicates, IsAdmissible, Depends, insert_records, insert_bindings, IsLoadable, Keyed,
  Keyed-insert, load_records-ok, load_bindings-ok, check_dependencies-ok,
}

Keyed-insert_records :
    (seen : List Text) (m : FactRegistry) (records : List FactRecord)
    → Keyed seen m
    → Keyed (insert_all text_eq seen (fact_ids records)) (insert_records m records)
Keyed-insert_records seen m [] h = h
Keyed-insert_records seen m (r ∷ records) h =
    Keyed-insert_records (r.id ∷ seen) (insert r.id r m) records (Keyed-insert seen m r.id r h)

nothing-Keyed : (V : Type 0) → Keyed {V = V} [] []
unfolding contains_key
nothing-Keyed V k = refl

-- The registry has the ids of the records for its keys.
records-Keyed : (records : List FactRecord) → Keyed (fact_ids records) (insert_records [] records)
records-Keyed records k =
    Keyed-insert_records [] [] records (nothing-Keyed FactRecord) k
    ∙ ground (arith, contains-insert_all text_eq [] (fact_ids records) k)

All-insert_records :
    (P : FactRecord → Type 0) (seen : List Text) (m : FactRegistry) (records : List FactRecord)
    → Keyed seen m
    → fresh text_eq seen (fact_ids records) ≡ true
    → All (λ e. P e.1) (insert_records m records) ↔ (All P records × All (λ e. P e.1) m)
All-insert_records P seen m [] h f = ground arith
All-insert_records P seen m (r ∷ records) h f =
    let new : contains_key r.id m ≡ false = ground (arith, h r.id) in
    let rest =
      All-insert_records P (r.id ∷ seen) (insert r.id r m) records (Keyed-insert seen m r.id r h)
        (ground arith) in
    let one = All-insert (λ e. P e.1) r.id r m new in
    (
      λ a. let p = rest.0 a in let q = one.0 p.1 in ((q.0, p.0), q.1),
      λ a. rest.1 (a.0.1, one.1 (a.0.0, a.1)),
    )

abbrev accepted : LoadedRegistry → Loaded LoadedRegistry
accepted r = ok r

made_iff : (made registry : LoadedRegistry) → (accepted made ≡ ok registry) ↔ (registry ≡ made)
made_iff made registry = ground arith

pub load-IsLoadable :
    (records : List FactRecord) (bindings : List (Text × Text)) (known relations : List Text)
    (registry : LoadedRegistry)
    → (load records bindings known relations ≡ ok registry) ↔ (
        IsLoadable records bindings known relations
        × (registry ≡ record {
          records = insert_records [] records;
          predicate_facts = insert_bindings [] bindings;
        }))
unfolding load
load-IsLoadable records bindings known relations registry =
    let ids = fact_ids records in
    let loaded = insert_records [] records in
    let bound = insert_bindings [] bindings in
    let keyed = records-Keyed records in
    let distinct = fresh-Distinct text_eq text_eq_comm ids in
    let once = fresh-Distinct text_eq text_eq_comm (predicates bindings) in
    let made : LoadedRegistry = record { records = loaded; predicate_facts = bound } in
    let depends =
      both_iff (All (λ e. Depends ids e.1) loaded) (registry ≡ made)
        (check_dependencies loaded loaded) (ok made) registry
        (check_dependencies-ok loaded ids loaded keyed) (made_iff made registry) in
    let bindings_in =
      step_iff
        (All (λ b. contains text_eq ids b.1 ≡ true) bindings
          × (fresh text_eq [] (predicates bindings) ≡ true))
        _ (load_bindings loaded [] bindings) _ bound registry
        (λ m. load_bindings-ok loaded ids [] [] bindings m keyed (nothing-Keyed Text)) depends in
    let whole =
      step_iff (All (IsAdmissible known relations) records × (fresh text_eq [] ids ≡ true)) _
        (load_records known relations [] records) _ loaded registry
        (λ m. load_records-ok known relations [] [] records m (nothing-Keyed FactRecord))
        bindings_in in
    let entries = All-insert_records (Depends ids) [] [] records (nothing-Keyed FactRecord) in
    (
      λ e.
          let w = whole.0 e in
          (
            record {
              admissible = w.0.0;
              distinct = distinct.0 w.0.1;
              bound = w.1.0.0;
              bound_once = once.0 w.1.0.1;
              depends = ((entries w.0.1).0 w.1.1.0).0;
            },
            w.1.1.1,
          ),
      λ h.
          let fresh_ids = distinct.1 h.0.distinct in
          whole.1 (
            (h.0.admissible, fresh_ids),
            ((h.0.bound, once.1 h.0.bound_once), ((entries fresh_ids).1 (h.0.depends, tt), h.1)),
          ),
    )

entries-IsRated :
    (m : FactRegistry) → All (λ e. e.1.confidence_basis_points ≤ 10000) m → All IsRated m
entries-IsRated [] h = tt
entries-IsRated (e ∷ m) h = (h.0, entries-IsRated m h.1)

-- The facts of a loaded registry have the confidence that the perspective asks of them.
load-IsRated :
    (records : List FactRecord) (bindings : List (Text × Text)) (known relations : List Text)
    (registry : LoadedRegistry)
    → load records bindings known relations ≡ ok registry
    → All IsRated registry.records
load-IsRated records bindings known relations registry e =
    let loaded = (load-IsLoadable records bindings known relations registry).0 e in
    let fresh_ids = (fresh-Distinct text_eq text_eq_comm (fact_ids records)).1 loaded.0.distinct in
    let rated =
      All-imp (IsAdmissible known relations) (λ r. r.confidence_basis_points ≤ 10000)
        (λ r a. a.rated) records loaded.0.admissible in
    rw loaded.1 (
      entries-IsRated (insert_records [] records) (
        (All-insert_records (λ r. r.confidence_basis_points ≤ 10000) [] [] records
            (nothing-Keyed FactRecord) fresh_ids).1
          (rated, tt)))

-- Where claims on the facts of a registry that was loaded are integrated into a valid perspective
-- with sorted opinions, the state that results is valid and its opinions are sorted.
pub load-integrate-IsKept :
    (records : List FactRecord) (bindings : List (Text × Text)) (known relations : List Text)
    (registry : LoadedRegistry) (s s' : PerspectiveState) (turn : ℕ)
    (claims : List (ClaimRole × Text)) (u : PerspectiveUpdate)
    → load records bindings known relations ≡ ok registry
    → IsSorted text_ord s.opinions
    → validate_perspective s ≡ []
    → integrate_curated_claims s turn claims registry.records ≡ ok (s', u)
    → (validate_perspective s' ≡ []) × IsSorted text_ord s'.opinions
load-integrate-IsKept records bindings known relations registry s s' turn claims u e =
    integrate_curated_claims-IsKept s s' turn claims registry.records u
      (load-IsRated records bindings known relations registry e)
