-- ===== src/Base/OrdMap.antt =====
-- `BTreeMap<K, V>`: an association list with strictly increasing keys, so that iteration is in
-- key order. The laws of `get` hold of any list; those of `remove` want the keys sorted.
use Prim.Native.Nat.{suc}
use mathlib.Core.Path.{◌≡◌, refl}
use mathlib.Core.Logic.{◌↔◌}
use mathlib.Core.Bool.{Bool, true, false, ◌||◌}
use mathlib.Core.Option.{Option, none, some}
use mathlib.Core.List.{List, [], ◌∷◌, ◌++◌}
use native.Mathlib.Omega.{arith}
use qx_fx0rust.Base.Tests.{if◌then◌else◌, is_some}
use qx_fx0rust.Base.Lists.{length, All}
use qx_fx0rust.Base.Order.{Ord}

module _ {ℓ κ} {K : Type ℓ} {V : Type κ} where
  -- The keys of the map are all above `k`.
  abbrev pub Above : Ord K → K → List (K × V) → Type 0
  Above o k [] = Unit {0}
  Above o k ((j, v) ∷ m) = (o.lt k j ≡ true) × Above o k m

  -- The representation invariant of the tree: strictly increasing keys.
  abbrev pub IsSorted : Ord K → List (K × V) → Type 0
  IsSorted o [] = Unit {0}
  IsSorted o ((k, v) ∷ m) = Above o k m × IsSorted o m

module _ {ℓ κ} {K : Type ℓ} {V : Type κ} ⦃o : Ord K⦄ where
  -- `get`
  unfoldable pub get : K → List (K × V) → Option V
  get k [] = none
  get k ((j, v) ∷ m) = if o.eq j k then some v else get k m

  -- `contains_key`
  unfoldable pub contains_key : K → List (K × V) → Bool
  contains_key k [] = false
  contains_key k ((j, v) ∷ m) = o.eq j k || contains_key k m

  -- `insert`
  unfoldable pub insert : K → V → List (K × V) → List (K × V)
  insert k v [] = (k, v) ∷ []
  insert k v ((j, w) ∷ m) =
      let rest = insert k v m in
      if o.lt k j then (k, v) ∷ (j, w) ∷ m else if o.eq j k then (k, v) ∷ m else (j, w) ∷ rest

  -- `remove`
  unfoldable pub remove : K → List (K × V) → List (K × V)
  remove k [] = []
  remove k ((j, w) ∷ m) = let rest = remove k m in if o.eq j k then m else (j, w) ∷ rest

  pub get-insert :
      (k j : K) (v : V) (m : List (K × V))
      → get j (insert k v m) ≡ (if o.eq k j then some v else get j m)
  unfolding get insert
  get-insert k j v [] = refl
  get-insert k j v ((i, w) ∷ m) =
      ground (arith, o.eq_iff k j, o.eq_iff i k, o.eq_iff i j, get-insert k j v m)

  pub contains_key-insert :
      (k j : K) (v : V) (m : List (K × V))
      → contains_key j (insert k v m) ≡ (o.eq k j || contains_key j m)
  unfolding contains_key insert
  contains_key-insert k j v [] = refl
  contains_key-insert k j v ((i, w) ∷ m) =
      ground (arith, o.eq_iff k j, o.eq_iff i k, o.eq_iff i j, contains_key-insert k j v m)

  -- What holds of the entries after a new key is put in.
  pub All-insert {μ} :
      (P : K × V → Type μ) (k : K) (v : V) (m : List (K × V))
      → contains_key k m ≡ false
      → All P (insert k v m) ↔ (P (k, v) × All P m)
  unfolding insert contains_key
  All-insert P k v [] h = ground arith
  All-insert P k v ((j, w) ∷ m) h = ground (arith, All-insert P k v m)

  pub contains_key-get : (k : K) (m : List (K × V)) → contains_key k m ≡ is_some (get k m)
  unfolding contains_key get
  contains_key-get k [] = refl
  contains_key-get k ((j, w) ∷ m) = ground (arith, contains_key-get k m)

  Above-trans : (k j : K) (m : List (K × V)) → o.lt k j ≡ true → Above o j m → Above o k m
  Above-trans k j [] h a = tt
  Above-trans k j ((i, w) ∷ m) h a = (o.lt_trans k j i h a.0, Above-trans k j m h a.1)

  Above-insert :
      (b k : K) (v : V) (m : List (K × V))
      → o.lt b k ≡ true
      → Above o b m
      → Above o b (insert k v m)
  unfolding insert
  Above-insert b k v [] h a = (h, tt)
  Above-insert b k v ((j, w) ∷ m) h a = ground (arith, Above-insert b k v m h a.1)

  pub insert-IsSorted :
      (k : K) (v : V) (m : List (K × V)) → IsSorted o m → IsSorted o (insert k v m)
  unfolding insert
  insert-IsSorted k v [] s = (tt, tt)
  insert-IsSorted k v ((j, w) ∷ m) s = ground (
    arith,
    o.eq_iff j k,
    o.eq_iff k j,
    o.lt_total k j,
    Above-trans k j m,
    Above-insert j k v m,
    insert-IsSorted k v m s.1,
  )

  pub Above-contains_key : (k : K) (m : List (K × V)) → Above o k m → contains_key k m ≡ false
  unfolding contains_key
  Above-contains_key k [] a = refl
  Above-contains_key k ((j, w) ∷ m) a =
      ground (arith, o.eq_iff j k, o.lt_irrefl k, Above-contains_key k m a.1)

  Above-get : (k : K) (m : List (K × V)) → Above o k m → get k m ≡ none
  unfolding get
  Above-get k [] a = refl
  Above-get k ((j, w) ∷ m) a = ground (arith, o.eq_iff j k, o.lt_irrefl k, Above-get k m a.1)

  pub length-insert-new :
      (k : K) (v : V) (m : List (K × V))
      → contains_key k m ≡ false
      → length (insert k v m) ≡ suc (length m)
  unfolding insert contains_key
  length-insert-new k v [] h = refl
  length-insert-new k v ((j, w) ∷ m) h = ground (arith, length-insert-new k v m)

  pub length-insert-old :
      (k : K) (v : V) (m : List (K × V))
      → IsSorted o m
      → contains_key k m ≡ true
      → length (insert k v m) ≡ length m
  unfolding insert contains_key
  length-insert-old k v [] s h = cc
  length-insert-old k v ((j, w) ∷ m) s h = ground (
    arith,
    o.eq_iff j k,
    o.eq_iff k j,
    o.lt_irrefl k,
    Above-trans k j m,
    Above-contains_key k m,
    length-insert-old k v m s.1,
  )

  pub length-remove :
      (k : K) (m : List (K × V)) → contains_key k m ≡ true → suc (length (remove k m)) ≡ length m
  unfolding remove contains_key
  length-remove k [] h = cc
  length-remove k ((j, w) ∷ m) h = ground (arith, length-remove k m)

  pub get-remove :
      (k j : K) (m : List (K × V))
      → IsSorted o m
      → get j (remove k m) ≡ (if o.eq k j then none else get j m)
  unfolding get remove
  get-remove k j [] s = ground arith
  get-remove k j ((i, w) ∷ m) s =
      ground
        (arith, o.eq_iff k j, o.eq_iff i k, o.eq_iff i j, Above-get i m s.0, get-remove k j m s.1)

  Above-remove : (b k : K) (m : List (K × V)) → Above o b m → Above o b (remove k m)
  unfolding remove
  Above-remove b k [] a = tt
  Above-remove b k ((j, w) ∷ m) a = ground (arith, Above-remove b k m a.1)

  pub remove-IsSorted : (k : K) (m : List (K × V)) → IsSorted o m → IsSorted o (remove k m)
  unfolding remove
  remove-IsSorted k [] s = tt
  remove-IsSorted k ((j, w) ∷ m) s = ground (arith, Above-remove j k m s.0, remove-IsSorted k m s.1)

-- `unwrap_or_default` on lists
abbrev pub or_default {ℓ} : {A : Type ℓ} → Option (List A) → List A
or_default none = []
or_default (some xs) = xs

module _ {ℓ κ} {K : Type ℓ} {V : Type κ} ⦃o : Ord K⦄ where
  -- `entry(k).or_default().push(v)`
  unfoldable pub entry_push : K → V → List (K × List V) → List (K × List V)
  entry_push k v m = insert k (or_default (get k m) ++ v ∷ []) m

  pub get-entry_push :
      (k j : K) (v : V) (m : List (K × List V))
      → get j (entry_push k v m)
        ≡ (if o.eq k j then some (or_default (get k m) ++ v ∷ []) else get j m)
  unfolding entry_push
  get-entry_push k j v m = get-insert k j (or_default (get k m) ++ v ∷ []) m

  pub entry_push-IsSorted :
      (k : K) (v : V) (m : List (K × List V)) → IsSorted o m → IsSorted o (entry_push k v m)
  unfolding entry_push
  entry_push-IsSorted k v m = insert-IsSorted k (or_default (get k m) ++ v ∷ []) m

  pub get-entry_push_same :
      (k : K) (v : V) (m : List (K × List V))
      → get k (entry_push k v m) ≡ some (or_default (get k m) ++ v ∷ [])
  get-entry_push_same k v m = ground (arith, get-entry_push k k v m, o.eq_iff k k)

  pub contains_key-entry_push :
      (k j : K) (v : V) (m : List (K × List V))
      → contains_key j (entry_push k v m) ≡ (o.eq k j || contains_key j m)
  unfolding entry_push
  contains_key-entry_push k j v m = contains_key-insert k j (or_default (get k m) ++ v ∷ []) m
