-- ===== src/Authz/Tests.antt =====
-- Requests on the built-in roles.
use arcus_invest_backend.Base.{
  ◌≡◌, ◌≢◌, ◌↔◌, ◌⊎◌, ◌++◌, refl, true, false, none, some, List, [], ◌∷◌,
}
use arcus_invest_backend.Base.Text.{Text, codes, text_eq}
use arcus_invest_backend.Authz.Grants.{
  read, no_action, Grant, no_scope, other_scope, allows, grant_in,
}
use arcus_invest_backend.Authz.Cache.{RoleRow, active_matrix, can, read_scope}
use arcus_invest_backend.Authz.Routes.{
  action_for_method, strip_prefix, has_suffix, head_segment, admin_prefix, resource_for_path,
  require_permission,
}
use arcus_invest_backend.Authz.Laws.{
  refresh_all, super_admin_never_locked_out, read_scope_iff, require_permission_granted,
}

-- A table in which the super administrator has nothing.
abbrev corrupt : List RoleRow
corrupt = record { name = codes "super_admin"; permissions = [] } ∷ []

super_admin_never_locked_out_example :
    can (refresh_all (some corrupt ∷ none ∷ []) none) (codes "super_admin") (codes "users") read
    ≡ true
super_admin_never_locked_out_example = super_admin_never_locked_out (some corrupt ∷ none ∷ [])

abbrev one_approval : Text
one_approval = codes "/api/v1/admin/approvals/:id"

approvals_route : resource_for_path one_approval ≡ some (codes "approvals")
unfolding resource_for_path strip_prefix has_suffix head_segment text_eq
approvals_route = refl

read_scope_iff_example : (read_scope none (codes "admin") (codes "roles") ≡ no_scope) ↔ (
    (can none (codes "admin") (codes "roles") read ≡ false)
    ⊎ ((g : Grant) × (grant_in (active_matrix none) (codes "admin") (codes "roles") ≡ some g)
        × (g.scope ≡ other_scope [])))
read_scope_iff_example = read_scope_iff none (codes "admin") (codes "roles")

admin_reads : require_permission none (codes "admin") (codes "GET") one_approval ≡ true
unfolding require_permission action_for_method can active_matrix allows resource_for_path
    strip_prefix has_suffix head_segment text_eq
admin_reads = refl

require_permission_granted_example :
    (rest res : Text) × (g : Grant) × (one_approval ≡ admin_prefix ++ rest)
    × (resource_for_path one_approval ≡ some res)
    × (grant_in (active_matrix none) (codes "admin") res ≡ some g)
    × (allows (action_for_method (codes "GET")) g ≡ true)
    × (action_for_method (codes "GET") ≢ no_action)
require_permission_granted_example =
    require_permission_granted none (codes "admin") (codes "GET") one_approval admin_reads
