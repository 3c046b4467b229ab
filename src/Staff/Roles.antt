-- ===== src/Staff/Roles.antt =====
-- `CreateRole`, `UpdateRole` and `DeleteRole`. The lower-casing of texts is an argument, `none`
-- stands for a path that is no id and for a body that cannot be bound, and a flag says whether the
-- reload of the permissions finds the database.
use arcus_invest_backend.Base.{
  ℕ, Bool, true, false, ◌&&◌, not, Option, none, some, List, [], ◌∷◌, map, ◌==◌, find, any,
  update_where, if◌then◌else◌,
}
use arcus_invest_backend.Base.Text.{Text, text_eq, is_empty, trim_space}
use arcus_invest_backend.Base.Tables.{delete_where}
use arcus_invest_backend.Authz.Cache.{PermissionRow, refresh_cache}
use arcus_invest_backend.Staff.Permissions.{
  Account, Checked, CustomRole, RoleChange, RoleReply, RoleRequest, Staff, bad_name,
  built_in_grants_fixed, built_in_kept, check_permissions, checked, deleted, invalid_body,
  invalid_id, is_slug, name_taken, no_label, not_found, refused, role_row, save_failed,
  still_assigned, stored,
}

-- `authz.RefreshCache`
abbrev pub reload : Bool → Staff → Staff
reload found s = record s {
  cache = refresh_cache (if found then some (map role_row s.roles) else none) s.cache;
}

abbrev pub role_is : ℕ → CustomRole → Bool
role_is n r = r.id == n

abbrev pub is_named : Text → CustomRole → Bool
is_named name r = text_eq r.name name

abbrev pub insert_role : Bool → CustomRole → Staff → RoleReply × Staff
insert_role found r s =
    if any (role_is r.id) s.roles
    then (save_failed, s)
    else (stored r, reload found (record s { roles = r ∷ s.roles }))

abbrev pub new_role : ℕ → RoleRequest → List PermissionRow → CustomRole
new_role id r ps = record {
  id = id;
  name = r.name;
  label = r.label;
  description = r.description;
  is_built_in = false;
  permissions = ps;
}

abbrev pub create_checked : Bool → ℕ → RoleRequest → Checked → Staff → RoleReply × Staff
create_checked found id r (refused e) s = (e, s)
create_checked found id r (checked ps) s = insert_role found (new_role id r ps) s

abbrev pub trimmed : (Text → Text) → RoleRequest → RoleRequest
trimmed lower r = record r {
  name = lower (trim_space r.name);
  label = trim_space r.label;
  description = trim_space r.description;
}

abbrev pub create_trimmed : Bool → ℕ → Text → RoleRequest → Staff → RoleReply × Staff
create_trimmed found id caller r s =
    if not (is_slug r.name)
    then (bad_name, s)
    else (if is_empty r.label
        then (no_label, s)
        else (if any (is_named r.name) s.roles
            then (name_taken, s)
            else create_checked found id r (check_permissions s.cache caller [] r.permissions) s))

-- `CreateRole`, with the caller's role and the identifier of the row.
unfoldable pub create_role :
    (Text → Text) → Bool → ℕ → Text → Option RoleRequest → Staff → RoleReply × Staff
create_role lower found id caller none s = (invalid_body, s)
create_role lower found id caller (some r) s = create_trimmed found id caller (trimmed lower r) s

abbrev pub or_kept : Text → Option Text → Text
or_kept old none = old
or_kept old (some t) = trim_space t

abbrev rows_or : List PermissionRow → Option (List PermissionRow) → List PermissionRow
rows_or old none = old
rows_or old (some ps) = ps

abbrev pub change_role : RoleChange → Option (List PermissionRow) → CustomRole → CustomRole
change_role r ps role = record role {
  label = or_kept role.label r.label;
  description = or_kept role.description r.description;
  permissions = rows_or role.permissions ps;
}

abbrev pub write_role :
    Bool → ℕ → RoleChange → Option (List PermissionRow) → CustomRole → Staff → RoleReply × Staff
write_role found n r ps role s = (
  stored (change_role r ps role),
  reload found (record s { roles = update_where (role_is n) (change_role r ps) s.roles }),
)

abbrev pub write_checked : Bool → ℕ → RoleChange → Checked → CustomRole → Staff → RoleReply × Staff
write_checked found n r (refused e) role s = (e, s)
write_checked found n r (checked ps) role s = write_role found n r (some ps) role s

abbrev pub update_grants :
    Bool
    → ℕ
    → Text
    → RoleChange
    → Option (List PermissionRow)
    → CustomRole
    → Staff
    → RoleReply × Staff
update_grants found n caller r none role s = write_role found n r none role s
update_grants found n caller r (some ps) role s =
    write_checked found n r (check_permissions s.cache caller [] ps) role s

abbrev pub is_given {ℓ} : {A : Type ℓ} → Option A → Bool
is_given none = false
is_given (some a) = true

abbrev pub empties : Option Text → Bool
empties none = false
empties (some t) = is_empty (trim_space t)

abbrev pub update_body :
    Bool → ℕ → Text → Option RoleChange → CustomRole → Staff → RoleReply × Staff
update_body found n caller none role s = (invalid_body, s)
update_body found n caller (some r) role s =
    if role.is_built_in && is_given r.permissions
    then (built_in_grants_fixed, s)
    else (if empties r.label
        then (no_label, s)
        else update_grants found n caller r r.permissions role s)

-- The row of a path.
abbrev pub with_role :
    Option ℕ → (ℕ → CustomRole → Staff → RoleReply × Staff) → Staff → RoleReply × Staff
with_role none act s = (invalid_id, s)
with_role (some n) act s = elim (find (role_is n) s.roles) [
  | none ↦ (not_found, s)
  | some r ↦ act n r s
]

-- `UpdateRole`
unfoldable pub update_role : Bool → Text → Option ℕ → Option RoleChange → Staff → RoleReply × Staff
update_role found caller path body s =
    with_role path (λ n role. update_body found n caller body role) s

abbrev pub holds : Text → Account → Bool
holds name u = text_eq u.role name

abbrev pub drop_role : Bool → ℕ → CustomRole → Staff → RoleReply × Staff
drop_role found n role s =
    if role.is_built_in
    then (built_in_kept, s)
    else (if any (holds role.name) s.users then (still_assigned, s) else (
      deleted,
      reload found (record s { roles = delete_where (λ r. r.id) (role_is n) s.roles }),
    ))

-- `DeleteRole`
unfoldable pub delete_role : Bool → Option ℕ → Staff → RoleReply × Staff
delete_role found path s = with_role path (drop_role found) s
