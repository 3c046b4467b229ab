-- ===== src/Staff/AccountLaws.antt =====
-- Who may change the accounts that manage users or roles.
use arcus_invest_backend.Base.{
  ℕ, ◌==◌, ◌≡◌, refl, sym, subst, inl, inr, Bool, false, Option, none, some, List, [], ◌∷◌, ◌++◌,
  ◌∙◌, arith, find, any, update_where, Bool-cases, Option-cases, if◌then◌else◌, ==_iff,
}
use arcus_invest_backend.Base.Text.{Text, codes}
use arcus_invest_backend.Authz.Grants.{Action, create, update, delete}
use arcus_invest_backend.Base.Tables.{DistinctKeys, absent-update}
use arcus_invest_backend.Authz.Cache.{Cache, can}
use arcus_invest_backend.Staff.Permissions.{Account, Staff}
use arcus_invest_backend.Staff.Accounts.{
  AccountRequest, AccountChange, AccountReply, role_has_privileged_access, is_super, user_is, clean,
  create_error, insert_account, create_clean, create_user, active_error, role_error, role_or,
  change_account, change_error, change_row, change_body, admin_update_user,
}

-- What a role may do that manages users or roles.
abbrev managing : List (Text × Action)
managing =
    (codes "users", create)
    ∷ (codes "users", update)
    ∷ (codes "users", delete)
    ∷ (codes "roles", create)
    ∷ (codes "roles", update)
    ∷ (codes "roles", delete)
    ∷ []

abbrev pub manages : Cache → Text → Bool
manages c role = any (λ right. can c role right.0 right.1) managing

privileged_access_lem :
    (c : Cache) (role : Text) → role_has_privileged_access c role ≡ manages c role
unfolding role_has_privileged_access
privileged_access_lem c role = ground arith

-- The identifier and the role of an account whose role manages users or roles.
abbrev privileged_entry : Cache → Account → List (ℕ × Text)
privileged_entry c u = if manages c u.role then (u.id, u.role) ∷ [] else []

abbrev pub privileged_accounts : Cache → List Account → List (ℕ × Text)
privileged_accounts c [] = []
privileged_accounts c (u ∷ us) = privileged_entry c u ++ privileged_accounts c us

update-privileged :
    (c : Cache) (n : ℕ) (f : Account → Account) (us : List Account) {t : Account}
    → DistinctKeys (λ u. u.id) us
    → find (user_is n) us ≡ some t
    → privileged_entry c (f t) ≡ privileged_entry c t
    → privileged_accounts c (update_where (user_is n) f us) ≡ privileged_accounts c us
update-privileged c n f [] d h same = refl
update-privileged c n f (u ∷ us) {t} d h same = elim (Bool-cases (u.id == n)) [
  | inl e ↦
      rw (e, absent-update (λ x. x.id) n f us (rw ((==_iff u.id n).0 e) at d.0), entry (rw e at h))
        refl
  | inr e ↦ rw (e, update-privileged c n f us d.1 (rw e at h) same) refl
]
  where
    row : {x : Account} → ◌≡◌ {A = Option Account} (some x) (some t) → x ≡ t
    row k = ground arith

    entry :
        ◌≡◌ {A = Option Account} (some u) (some t) → privileged_entry c (f u) ≡ privileged_entry c u
    entry k = subst (λ x. privileged_entry c (f x) ≡ privileged_entry c x) (sym (row k)) same

-- A role that a caller below super administrator is let to assign, or to take away.
role_error-none :
    (self : Bool) (caller : Text) (s : Staff) (target : Account) (role : Text)
    → is_super caller ≡ false
    → role_error self caller s target (some role) ≡ none
    → (manages s.cache role ≡ false) × (manages s.cache target.role ≡ false)
unfolding role_error
role_error-none self caller s target role low h = (
  sym (privileged_access_lem s.cache role) ∙ ground arith,
  sym (privileged_access_lem s.cache target.role) ∙ ground arith,
)

change_error-none :
    (self : Bool) (caller : Text) (r : AccountChange) (target : Account) (s : Staff)
    → change_error self caller r target s ≡ none
    → role_error self caller s target r.role ≡ none
unfolding change_error
change_error-none self caller r target s =
    elim (Option-cases (active_error self caller s.cache target r.is_active)) [
      | inr (x, e) ↦ rw (e, change_error) (λ h. absurd (ground arith))
      | inl e ↦ elim (Option-cases (role_error self caller s target r.role)) [
        | inr (x, k) ↦ rw (e, k, change_error) (λ h. absurd (ground arith))
        | inl k ↦ λ h. k
      ]
    ]

change-same :
    (self : Bool) (caller : Text) (r : AccountChange) (target : Account) (s : Staff)
    → is_super caller ≡ false
    → role_error self caller s target r.role ≡ none
    → privileged_entry s.cache (change_account r target) ≡ privileged_entry s.cache target
change-same self caller r target s low = go r.role
  where
    go :
        (o : Option Text)
        → role_error self caller s target o ≡ none
        → privileged_entry s.cache (record target { role = role_or target.role o })
          ≡ privileged_entry s.cache target
    go none h = refl
    go (some role) h =
        let (new, old) = role_error-none self caller s target role low h in rw (new, old) refl

create_error-none :
    (caller : Text) (r : AccountRequest) (s : Staff)
    → is_super caller ≡ false
    → create_error caller r s ≡ none
    → manages s.cache r.role ≡ false
unfolding create_error
create_error-none caller r s low h = sym (privileged_access_lem s.cache r.role) ∙ ground arith

create-privileged :
    (id : ℕ) (caller : Text) (r : AccountRequest) (s : Staff)
    → is_super caller ≡ false
    → privileged_accounts s.cache (create_clean id caller r s).1.users
      ≡ privileged_accounts s.cache s.users
create-privileged id caller r s low = elim (Option-cases (create_error caller r s)) [
  | inr (x, e) ↦ rw (e, create_clean) refl
  | inl e ↦ elim (Bool-cases (any (user_is id) s.users)) [
    | inl k ↦ rw (e, create_clean) (rw (k, insert_account) refl)
    | inr k ↦
        rw (e, create_clean) (rw (k, insert_account) (rw (create_error-none caller r s low e) refl))
  ]
]

change-privileged :
    (me : ℕ) (caller : Text) (n : ℕ) (body : Option AccountChange) (target : Account) (s : Staff)
    → is_super caller ≡ false
    → DistinctKeys (λ u. u.id) s.users
    → find (user_is n) s.users ≡ some target
    → privileged_accounts s.cache (change_body me caller n body target s).1.users
      ≡ privileged_accounts s.cache s.users
change-privileged me caller n none target s low d found = refl
change-privileged me caller n (some r) target s low d found =
    elim (Option-cases (change_error (me == target.id) caller r target s)) [
      | inr (x, e) ↦ rw (e, change_body, change_row) refl
      | inl e ↦
          rw (e, change_body, change_row)
            (update-privileged s.cache n (change_account r) s.users d found (
              change-same (me == target.id) caller r target s low
                (change_error-none (me == target.id) caller r target s e)))
    ]

-- The requests that write accounts.
pub data AccountCall : Type 0 where
  open_account : (id : ℕ) (body : Option AccountRequest) → AccountCall
  change : (me : ℕ) (path : Option ℕ) (body : Option AccountChange) → AccountCall

unfoldable pub answer : (Text → Text) → Text → AccountCall → Staff → AccountReply × Staff
answer lower caller (open_account id body) s = create_user lower id caller body s
answer lower caller (change me path body) s = admin_update_user me caller path body s

-- Where the accounts have distinct identifiers: a caller who is no super administrator, by any
-- request to create or to change an account, adds no account whose role may create, update or delete
-- users or roles, takes no such account away, and leaves the role of each as it was. The requests that
-- delete an account are not covered.
pub privileged_accounts_kept :
    (lower : Text → Text) (caller : Text) (call : AccountCall) (s : Staff)
    → is_super caller ≡ false
    → DistinctKeys (λ u. u.id) s.users
    → privileged_accounts s.cache (answer lower caller call s).1.users
      ≡ privileged_accounts s.cache s.users
unfolding answer create_user admin_update_user
privileged_accounts_kept lower caller (open_account id none) s low d = refl
privileged_accounts_kept lower caller (open_account id (some r)) s low d =
    create-privileged id caller (clean lower r) s low
privileged_accounts_kept lower caller (change me none body) s low d = refl
privileged_accounts_kept lower caller (change me (some n) body) s low d =
    elim (Option-cases (find (user_is n) s.users)) [
      | inl e ↦ rw (e, admin_update_user) refl
      | inr (u, e) ↦ rw (e, admin_update_user) (change-privileged me caller n body u s low d e)
    ]
