-- ===== src/Staff/Accounts.antt =====
-- `CreateUser` and `AdminUpdateUser`. The password is checked and then left out, as is its hash.
use arcus_invest_backend.Base.{
  ℕ, Bool, true, false, ◌&&◌, ◌||◌, not, Option, none, some, List, ◌∷◌, ◌==◌, find, any,
  update_where, if◌then◌else◌,
}
use arcus_invest_backend.Base.Text.{Text, codes, text_eq, is_empty, trim_space}
use arcus_invest_backend.Authz.Grants.{create, update, delete}
use arcus_invest_backend.Authz.Cache.{Cache, can, is_built_in_role}
use arcus_invest_backend.Sessions.Reset.{validate_password}
use arcus_invest_backend.Staff.Roles.{is_named}
use arcus_invest_backend.Staff.Permissions.{CustomRole, Account, Staff}

abbrev role_super_admin : Text
role_super_admin = codes "super_admin"

-- `roleAssignable`
unfoldable pub role_assignable : Text → List CustomRole → Bool
role_assignable name roles = any (is_named name) roles || is_built_in_role name

abbrev pub writes : Cache → Text → Text → Bool
writes c role res = can c role res create || (can c role res update || can c role res delete)

-- `roleHasPrivilegedAccess`
unfoldable pub role_has_privileged_access : Cache → Text → Bool
role_has_privileged_access c role = writes c role (codes "users") || writes c role (codes "roles")

pub record AccountRequest : Type 0 where
  pub email : Text
  pub full_name : Text
  pub password : Text
  pub role : Text

pub record AccountChange : Type 0 where
  pub is_active : Option Bool
  pub role : Option Text

pub data AccountReply : Type 0 where
  invalid_id not_found invalid_body bad_email no_name weak_password no_student bad_role :
      AccountReply
  super_admin_only email_taken save_failed own_account own_role nothing_to_update : AccountReply
  account_stored : Account → AccountReply

abbrev pub is_super : Text → Bool
is_super caller = text_eq caller role_super_admin

abbrev pub user_is : ℕ → Account → Bool
user_is n u = u.id == n

abbrev has_email : Text → Account → Bool
has_email e u = text_eq u.email e

abbrev or_admissions : Text → Text
or_admissions role = if is_empty role then codes "admissions" else role

abbrev pub clean : (Text → Text) → AccountRequest → AccountRequest
clean lower r = record r {
  email = lower (trim_space r.email);
  full_name = trim_space r.full_name;
  role = or_admissions r.role;
}

abbrev is_email : Text → Bool
is_email e = not (is_empty e) && any (λ c. c == 64) e

abbrev new_account : ℕ → AccountRequest → Account
new_account id r = record {
  id = id;
  email = r.email;
  full_name = r.full_name;
  role = r.role;
  is_active = true;
}

unfoldable pub create_error : Text → AccountRequest → Staff → Option AccountReply
create_error caller r s =
    if not (is_email r.email)
    then some bad_email
    else (if is_empty r.full_name
        then some no_name
        else (if not (validate_password r.password)
            then some weak_password
            else (if text_eq r.role (codes "student")
                then some no_student
                else (if not (role_assignable r.role s.roles)
                    then some bad_role
                    else (if role_has_privileged_access s.cache r.role && not (is_super caller)
                        then some super_admin_only
                        else (if any (has_email r.email) s.users
                            then some email_taken
                            else none))))))

abbrev pub insert_account : Account → Staff → AccountReply × Staff
insert_account u s =
    if any (user_is u.id) s.users
    then (save_failed, s)
    else (account_stored u, record s { users = u ∷ s.users })

abbrev pub create_clean : ℕ → Text → AccountRequest → Staff → AccountReply × Staff
create_clean id caller r s = elim (create_error caller r s) [
  | some e ↦ (e, s)
  | none ↦ insert_account (new_account id r) s
]

-- `CreateUser`, with the caller's role and the identifier of the row.
unfoldable pub create_user :
    (Text → Text) → ℕ → Text → Option AccountRequest → Staff → AccountReply × Staff
create_user lower id caller none s = (invalid_body, s)
create_user lower id caller (some r) s = create_clean id caller (clean lower r) s

unfoldable pub active_error : Bool → Text → Cache → Account → Option Bool → Option AccountReply
active_error self caller c target none = none
active_error self caller c target (some on) =
    if self && not on
    then some own_account
    else (if not on && (role_has_privileged_access c target.role && not (is_super caller))
        then some super_admin_only
        else none)

unfoldable pub role_error : Bool → Text → Staff → Account → Option Text → Option AccountReply
role_error self caller s target none = none
role_error self caller s target (some role) =
    if not (role_assignable role s.roles)
    then some bad_role
    else (if self && not (text_eq role target.role)
        then some own_role
        else (if (role_has_privileged_access s.cache role
                || role_has_privileged_access s.cache target.role)
              && not (is_super caller)
            then some super_admin_only
            else none))

abbrev is_idle : AccountChange → Bool
is_idle r = elim r.is_active [
  | some b ↦ false
  | none ↦ elim r.role [ some t ↦ false | none ↦ true ]
]

abbrev flag_or : Bool → Option Bool → Bool
flag_or old none = old
flag_or old (some b) = b

abbrev pub role_or : Text → Option Text → Text
role_or old none = old
role_or old (some t) = t

abbrev pub change_account : AccountChange → Account → Account
change_account r u = record u {
  is_active = flag_or u.is_active r.is_active;
  role = role_or u.role r.role;
}

unfoldable pub change_error : Bool → Text → AccountChange → Account → Staff → Option AccountReply
change_error self caller r target s = elim (active_error self caller s.cache target r.is_active) [
  | some e ↦ some e
  | none ↦ elim (role_error self caller s target r.role) [
    | some e ↦ some e
    | none ↦ if is_idle r then some nothing_to_update else none
  ]
]

abbrev pub change_row : ℕ → Text → ℕ → AccountChange → Account → Staff → AccountReply × Staff
change_row me caller n r target s = elim (change_error (me == target.id) caller r target s) [
  | some e ↦ (e, s)
  | none ↦ (
    account_stored (change_account r target),
    record s { users = update_where (user_is n) (change_account r) s.users },
  )
]

abbrev pub change_body :
    ℕ → Text → ℕ → Option AccountChange → Account → Staff → AccountReply × Staff
change_body me caller n none target s = (invalid_body, s)
change_body me caller n (some r) target s = change_row me caller n r target s

-- `AdminUpdateUser`, with the identifier and the role of the caller.
unfoldable pub admin_update_user :
    ℕ → Text → Option ℕ → Option AccountChange → Staff → AccountReply × Staff
admin_update_user me caller none body s = (invalid_id, s)
admin_update_user me caller (some n) body s = elim (find (user_is n) s.users) [
  | none ↦ (not_found, s)
  | some u ↦ change_body me caller n body u s
]
