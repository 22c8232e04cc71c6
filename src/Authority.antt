-- ===== src/Authority.antt =====
-- The delegation map of qxfx0-governance/src/lib.rs: `AuthorityMap` with its cycle check and its
-- permission search.
pub mod Search
pub mod Cycles
pub mod Scan
pub mod Permissions
use qx_fx0rust.Base.{
  ℕ, zero, suc, ◌+◌, Bool, true, false, Option, none, some, if◌then◌else◌, List, [], ◌∷◌, ◌++◌, any,
  length, Result, ok, err,
}
use qx_fx0rust.Base.Text.{Text, text_eq}

-- `DelegationEntry`
pub record DelegationEntry : Type 0 where
  pub from : Text
  pub to : Text
  pub permissions : List Text
  pub turn : ℕ

-- `AuthorityMap`: its `delegations`, oldest first.
abbrev pub AuthorityMap : Type 0
AuthorityMap = List DelegationEntry

-- A `BTreeSet` of visited names is used by `insert` alone: whether the name is new. Here it is the
-- list of the names inserted.
abbrev pub is_visited : Text → List Text → Bool
is_visited node = any (λ v. text_eq v node)

-- A `Vec` as a stack has its top at the head of the list here.

-- The loop of `would_create_cycle` over the delegations: those from `node` push their target.
unfoldable pub push_targets : Text → AuthorityMap → List Text → List Text
push_targets node [] stack = stack
push_targets node (d ∷ ds) stack =
    push_targets node ds (if text_eq d.from node then d.to ∷ stack else stack)

-- The `while` loop of `would_create_cycle`; `none` means that the fuel ran out.
unfoldable pub cycle_loop : AuthorityMap → Text → ℕ → List Text → List Text → Option Bool
cycle_loop ds from zero stack visited = none
cycle_loop ds from (suc fuel) [] visited = some false
cycle_loop ds from (suc fuel) (node ∷ stack) visited =
    let again = cycle_loop ds from fuel stack visited in
    let deeper = cycle_loop ds from fuel (push_targets node ds stack) (node ∷ visited) in
    if is_visited node visited then again else if text_eq node from then some true else deeper

-- `would_create_cycle`. Each delegation is pushed once at most, and every round pops one name.
unfoldable pub would_create_cycle : AuthorityMap → Text → Text → Option Bool
unfolding cycle_loop
would_create_cycle ds from to = cycle_loop ds from (length ds + 2) (to ∷ []) []

-- The errors of `delegate`; the source formats them as messages. `out_of_fuel` is of the model.
pub data DelegateError : Type 0 where
  self_delegation : DelegateError
  escalation_prevented : Text → Text → DelegateError
  out_of_fuel : DelegateError

-- `delegate`
unfoldable pub delegate :
    AuthorityMap → Text → Text → List Text → ℕ → Result DelegateError AuthorityMap
delegate ds from to permissions turn =
    if text_eq from to then err self_delegation else elim (would_create_cycle ds from to) [
      | none ↦ err out_of_fuel
      | some true ↦ err (escalation_prevented from to)
      | some false ↦
          ok (ds ++ record { from = from; to = to; permissions = permissions; turn = turn } ∷ [])
    ]

-- The loop of `has_permission` over the delegations to `current`: it returns at the first that
-- names the permission, and otherwise pushes the delegators. `none` stands for `return true`.
unfoldable pub scan_delegators : Text → Text → AuthorityMap → List Text → Option (List Text)
scan_delegators permission current [] stack = some stack
scan_delegators permission current (d ∷ ds) stack =
    let skip = scan_delegators permission current ds stack in
    let push = scan_delegators permission current ds (d.from ∷ stack) in
    if text_eq d.to current
    then if any (λ q. text_eq q permission) d.permissions then none else push
    else skip

-- The `while` loop of `has_permission`; `none` means that the fuel ran out.
unfoldable pub permission_loop : AuthorityMap → Text → ℕ → List Text → List Text → Option Bool
permission_loop ds permission zero stack visited = none
permission_loop ds permission (suc fuel) [] visited = some false
permission_loop ds permission (suc fuel) (current ∷ stack) visited =
    let again = permission_loop ds permission fuel stack visited in
    let found : List Text → Option Bool =
      λ stack'. permission_loop ds permission fuel stack' (current ∷ visited) in
    if is_visited current visited
    then again
    else elim (scan_delegators permission current ds stack) [
      | none ↦ some true
      | some stack' ↦ found stack'
    ]

-- `has_permission`
unfoldable pub has_permission : AuthorityMap → Text → Text → Option Bool
unfolding permission_loop
has_permission ds principal permission =
    permission_loop ds permission (length ds + 2) (principal ∷ []) []
