-- ===== src/Examples/AuthorityExamples.antt =====
-- The delegation map at concrete names.
use qx_fx0rust.Base.{◌≡◌, refl, ◌⊎◌, inl, true, false, some, List, [], ◌∷◌}
use qx_fx0rust.Base.Text.{Text, codes, text_eq}
use qx_fx0rust.Authority.{
  AuthorityMap, would_create_cycle, cycle_loop, push_targets, delegate, has_permission,
  permission_loop, scan_delegators,
}
use qx_fx0rust.Authority.Search.{Delegates, would_create_cycle-decides}
use qx_fx0rust.Authority.Cycles.{entry, Request, delegate_all, delegate_all-IsAcyclic}
use qx_fx0rust.Authority.Scan.{Holds}
use qx_fx0rust.Authority.Permissions.{has_permission-decides}

abbrev root : Text
root = codes "r"

abbrev admin : Text
admin = codes "a"

abbrev user : Text
user = codes "u"

abbrev write : Text
write = codes "w"

abbrev chain : AuthorityMap
chain = entry root admin (write ∷ []) 1 ∷ entry admin user [] 2 ∷ []

closes : would_create_cycle chain user root ≡ some true
unfolding would_create_cycle cycle_loop push_targets text_eq
closes = refl

inherited : has_permission chain user write ≡ some true
unfolding has_permission permission_loop scan_delegators text_eq
inherited = refl

would_create_cycle-decides_example :
    ((would_create_cycle chain user root ≡ some true) × Delegates chain root user)
    ⊎ ((would_create_cycle chain user root ≡ some false) × (¬ Delegates chain root user))
would_create_cycle-decides_example = would_create_cycle-decides chain user root

abbrev requests : List Request
requests =
    record { from = root; to = admin; permissions = write ∷ []; turn = 1 }
    ∷ record { from = admin; to = root; permissions = []; turn = 2 }
    ∷ []

accepted_first : delegate_all [] requests ≡ entry root admin (write ∷ []) 1 ∷ []
unfolding delegate_all delegate would_create_cycle cycle_loop push_targets text_eq
accepted_first = refl

delegate_all-IsAcyclic_example : ¬ Delegates (delegate_all [] requests) admin root
unfolding delegate_all delegate would_create_cycle cycle_loop push_targets text_eq
delegate_all-IsAcyclic_example =
    delegate_all-IsAcyclic requests root admin
      (entry root admin (write ∷ []) 1, inl refl, refl, refl)

has_permission-decides_example :
    ((has_permission chain user write ≡ some true) × Holds chain user write)
    ⊎ ((has_permission chain user write ≡ some false) × (¬ Holds chain user write))
has_permission-decides_example = has_permission-decides chain user write
