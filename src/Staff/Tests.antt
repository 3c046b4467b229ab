-- ===== src/Staff/Tests.antt =====
-- An administrator who writes a role and assigns it.
use arcus_invest_backend.Base.{◌≡◌, refl, true, false, none, some, [], ◌∷◌, All}
use arcus_invest_backend.Base.Text.{Text, codes, text_eq, trim_space, trim_left, is_space}
use arcus_invest_backend.Authz.Grants.{Action, allows}
use arcus_invest_backend.Authz.Cache.{PermissionRow, can, active_matrix, is_built_in_role}
use arcus_invest_backend.Staff.Roles.{create_role}
use arcus_invest_backend.Staff.Permissions.{
  Account, Staff, RoleRequest, is_slug, not_held_error, entry_error, check_permissions, not_held,
}
use arcus_invest_backend.Staff.RoleLaws.{RoleCall, raise, grants_not_amplified}
use arcus_invest_backend.Staff.PermissionLaws.{GrantsWithin}
use arcus_invest_backend.Staff.RoleLaws as RoleLaws
use arcus_invest_backend.Staff.Accounts.{
  AccountReply, role_assignable, role_has_privileged_access, active_error, role_error, change_error,
  admin_update_user,
}
use arcus_invest_backend.Staff.AccountLaws.{
  AccountCall, change, privileged_accounts, privileged_accounts_kept,
}
use arcus_invest_backend.Staff.AccountLaws as AccountLaws

abbrev unchanged : Text → Text
unchanged t = t

abbrev all_of : Text → PermissionRow
all_of res = record {
  resource = res;
  can_read = true;
  can_create = true;
  can_update = true;
  can_delete = true;
  scope = codes "all";
}

abbrev asking : Text → RoleRequest
asking res = record {
  name = codes "hosts";
  label = codes "Hosts";
  description = [];
  permissions = all_of res ∷ [];
}

abbrev clerk : Account
clerk = record {
  id = 2;
  email = codes "c@a";
  full_name = codes "C";
  role = codes "admissions";
  is_active = true;
}

abbrev boss : Account
boss = record {
  id = 1;
  email = codes "b@a";
  full_name = codes "B";
  role = codes "admin";
  is_active = true;
}

abbrev team : Staff
team = record { roles = []; users = boss ∷ clerk ∷ []; cache = none }

abbrev hosts_raised : RoleCall
hosts_raised = raise true 9 (some (asking (codes "events")))

-- The roles resource is not the administrator's to grant.
roles_refused :
    (create_role unchanged true 9 (codes "admin") (some (asking (codes "roles"))) team).0
    ≡ not_held Action.read (codes "roles")
unfolding create_role is_slug check_permissions entry_error not_held_error can active_matrix text_eq
    trim_space trim_left is_space
roles_refused = refl

grants_not_amplified_example :
    All
      (GrantsWithin (λ res act. can none (codes "admin") res act))
      (RoleLaws.answer unchanged (codes "admin") hosts_raised team).1.roles
grants_not_amplified_example =
    grants_not_amplified unchanged (codes "admin") hosts_raised team
      (λ res act. can none (codes "admin") res act) (λ res act h. h) tt

abbrev promote : AccountCall
promote = change 1 (some 2) (some (record { is_active = none; role = some (codes "admin") }))

promotion_refused :
    (AccountLaws.answer unchanged (codes "admin") promote team).0 ≡ AccountReply.super_admin_only
unfolding AccountLaws.answer admin_update_user change_error active_error role_error role_assignable
    is_built_in_role text_eq role_has_privileged_access can active_matrix allows
promotion_refused = refl

not_super : text_eq (codes "admin") (codes "super_admin") ≡ false
unfolding text_eq
not_super = refl

privileged_accounts_kept_example :
    privileged_accounts none (AccountLaws.answer unchanged (codes "admin") promote team).1.users
    ≡ privileged_accounts none (boss ∷ clerk ∷ [])
privileged_accounts_kept_example =
    privileged_accounts_kept unchanged (codes "admin") promote team not_super (refl, (refl, tt))
