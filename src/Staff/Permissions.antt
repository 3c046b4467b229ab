-- ===== src/Staff/Permissions.antt =====
-- The tables of roles and accounts (internal/models/role_models.go), and the checks of the permissions that a role is to have (internal/handlers/handlers.go).
use arcus_invest_backend.Base.{
  ℕ, leb, Bool, ◌&&◌, ◌||◌, not, Option, none, some, List, [], ◌∷◌, ◌==◌, any, if◌then◌else◌,
}
use arcus_invest_backend.Base.Text.{Text, codes, text_eq, is_empty}
use arcus_invest_backend.Authz.Grants.{Action, read, create, update, delete}
use arcus_invest_backend.Authz.Cache.{PermissionRow, RoleRow, Cache, can}

pub record CustomRole : Type 0 where
  pub id : ℕ
  pub name : Text
  pub label : Text
  pub description : Text
  pub is_built_in : Bool
  pub permissions : List PermissionRow

pub record Account : Type 0 where
  pub id : ℕ
  pub email : Text
  pub full_name : Text
  pub role : Text
  pub is_active : Bool

-- The two tables, and the cached permissions.
pub record Staff : Type 0 where
  pub roles : List CustomRole
  pub users : List Account
  pub cache : Cache

pub record RoleRequest : Type 0 where
  pub name : Text
  pub label : Text
  pub description : Text
  pub permissions : List PermissionRow

pub record RoleChange : Type 0 where
  pub label : Option Text
  pub description : Option Text
  pub permissions : Option (List PermissionRow)

pub data RoleReply : Type 0 where
  invalid_id not_found invalid_body bad_name no_label name_taken : RoleReply
  bad_resource duplicate_resource bad_scope scope_needed : Text → RoleReply
  not_held : Action → Text → RoleReply
  built_in_grants_fixed built_in_kept still_assigned save_failed deleted : RoleReply
  stored : CustomRole → RoleReply

abbrev pub all_resources : List Text
all_resources =
    codes "opportunities"
    ∷ codes "accounts"
    ∷ codes "contracts"
    ∷ codes "payments"
    ∷ codes "quotes"
    ∷ codes "enrollments"
    ∷ codes "students"
    ∷ codes "events"
    ∷ codes "products"
    ∷ codes "users"
    ∷ codes "audit"
    ∷ codes "email"
    ∷ codes "metrics"
    ∷ codes "roles"
    ∷ codes "gallery"
    ∷ codes "notifications"
    ∷ codes "approvals"
    ∷ codes "expenses"
    ∷ codes "counter_sales"
    ∷ codes "purchase_orders"
    ∷ []

abbrev pub is_member : Text → List Text → Bool
is_member t ts = any (λ x. text_eq x t) ts

abbrev pub slug_char : ℕ → Bool
slug_char c = (leb 97 c && leb c 122) || ((leb 48 c && leb c 57) || (c == 95))

-- `^[a-z0-9_]+$`
unfoldable pub is_slug : Text → Bool
is_slug t = not (is_empty t) && not (any (λ c. not (slug_char c)) t)

abbrev pub known_scope : Text → Bool
known_scope t = is_member t (codes "none" ∷ codes "own" ∷ codes "all" ∷ [])

abbrev pub has_any_action : PermissionRow → Bool
has_any_action p = p.can_read || (p.can_create || (p.can_update || p.can_delete))

-- An action that the entry grants and the caller does not hold, in the order of the checks.
unfoldable pub not_held_error : Cache → Text → PermissionRow → Option RoleReply
not_held_error c caller p =
    if p.can_read && not (can c caller p.resource read)
    then some (not_held read p.resource)
    else (if p.can_create && not (can c caller p.resource create)
        then some (not_held create p.resource)
        else (if p.can_update && not (can c caller p.resource update)
            then some (not_held update p.resource)
            else (if p.can_delete && not (can c caller p.resource delete)
                then some (not_held delete p.resource)
                else none)))

unfoldable pub entry_error : Cache → Text → List Text → PermissionRow → Option RoleReply
entry_error c caller seen p =
    if not (is_member p.resource all_resources)
    then some (bad_resource p.resource)
    else (if is_member p.resource seen
        then some (duplicate_resource p.resource)
        else (if not (known_scope p.scope)
            then some (bad_scope p.resource)
            else (if has_any_action p && text_eq p.scope (codes "none")
                then some (scope_needed p.resource)
                else not_held_error c caller p)))

-- An entry without an action is stored with the scope "none".
abbrev pub stored_entry : PermissionRow → PermissionRow
stored_entry p = if has_any_action p then p else record p { scope = codes "none" }

pub data Checked : Type 0 where
  refused : RoleReply → Checked
  checked : List PermissionRow → Checked

abbrev pub add_entry : PermissionRow → Checked → Checked
add_entry p (refused e) = refused e
add_entry p (checked ps) = checked (stored_entry p ∷ ps)

-- The loop over the entries, with the resources seen so far.
unfoldable pub check_permissions : Cache → Text → List Text → List PermissionRow → Checked
check_permissions c caller seen [] = checked []
check_permissions c caller seen (p ∷ ps) =
    let rest = check_permissions c caller (p.resource ∷ seen) ps in
    elim (entry_error c caller seen p) [ some e ↦ refused e | none ↦ add_entry p rest ]

abbrev pub role_row : CustomRole → RoleRow
role_row r = record { name = r.name; permissions = r.permissions }
