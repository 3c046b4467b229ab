-- ===== src/Sessions/Reset.antt =====
-- Password resets: internal/services/password_reset.go, with `RevokeAllSessions` and
-- `ValidatePassword` of internal/services/auth.go. SHA-256, bcrypt and the lower-casing of texts are
-- parameters; a password is the list of its bytes.
use arcus_invest_backend.Base.{
  ℕ, suc, ◌+◌, ◌==◌, ltb, Bool, true, false, ◌&&◌, ◌||◌, not, Option, none, some, [], ◌∷◌, length,
  find, any, update_where, is_some, if◌then◌else◌,
}
use arcus_invest_backend.Base.Text.{Text, text_eq, trim_space}
use arcus_invest_backend.Sessions.Refresh.{
  User, PasswordResetToken, Store, Fresh, user_is, revoke_all_refresh_tokens,
}

abbrev pub password_reset_ttl : ℕ
password_reset_ttl = 3600

abbrev pub min_password_length : ℕ
min_password_length = 10

-- `ValidatePassword`: whether the password is accepted.
unfoldable pub validate_password : Text → Bool
validate_password p = if ltb (length p) min_password_length then false else true

abbrev pub next_version : User → User
next_version u = record u { token_version = suc u.token_version }

-- `RevokeAllSessions`
unfoldable pub revoke_all_sessions : ℕ → Store → Store
revoke_all_sessions n s = record s { users = update_where (user_is n) next_version s.users }

abbrev pub outstanding : ℕ → PasswordResetToken → Bool
outstanding n t = (t.user_id == n) && not (is_some t.used_at)

abbrev pub redeemable : ℕ → PasswordResetToken → Bool
redeemable n t = (t.id == n) && not (is_some t.used_at)

abbrev pub redeem_at : ℕ → PasswordResetToken → PasswordResetToken
redeem_at now t = record t { used_at = some now }

abbrev pub set_password : Text → User → User
set_password h u = record u { password_hash = h }

-- The transaction of `ConsumePasswordReset`, `none` where the token was redeemed in the meantime.
unfoldable pub redeem : ℕ → ℕ → ℕ → Text → Store → Option Store
redeem now token user hash s =
    if any (redeemable token) s.resets
    then some (
        revoke_all_sessions user (
          revoke_all_refresh_tokens now user (record s {
            resets = update_where (redeemable token) (redeem_at now) s.resets;
            users = update_where (user_is user) (set_password hash) s.users;
          })))
    else none

pub data ResetReply : Type 0 where
  weak_password reset_rejected reset_failed : ResetReply
  reset : User → ResetReply

module _ (hash_token : Text → Text) (to_lower : Text → Text) (bcrypt : Text → Option Text) where
  abbrev pub new_reset : ℕ → ℕ → ℕ → Text → PasswordResetToken
  new_reset now id user raw = record {
    id = id;
    user_id = user;
    token_hash = hash_token raw;
    expires_at = now + password_reset_ttl;
    used_at = none;
  }

  abbrev pub reset_clashes : ℕ → Text → PasswordResetToken → Bool
  reset_clashes n raw t = (t.id == n) || text_eq t.token_hash (hash_token raw)

  abbrev pub supersede : ℕ → ℕ → Store → Store
  supersede now n s = record s { resets = update_where (outstanding n) (redeem_at now) s.resets }

  -- The steps that follow the superseding, from the random value on.
  abbrev pub add_reset : ℕ → Fresh → User → Store → Option (Text × User) × Store
  add_reset now fresh u s = elim fresh.raw [
    | none ↦ (none, s)
    | some raw ↦
        if any (reset_clashes fresh.id raw) s.resets
        then (none, s)
        else (some (raw, u), record s { resets = new_reset now fresh.id u.id raw ∷ s.resets })
  ]

  -- `CreatePasswordReset`: the raw token and its user, where one was created.
  unfoldable pub create_password_reset : ℕ → Fresh → Text → Store → Option (Text × User) × Store
  create_password_reset now fresh email s =
      elim (find (λ u. text_eq u.email (to_lower (trim_space email))) s.users) [
        | none ↦ (none, s)
        | some u ↦ if u.is_active then add_reset now fresh u (supersede now u.id s) else (none, s)
      ]

  abbrev pub reset_by_hash : Text → PasswordResetToken → Bool
  reset_by_hash raw t = text_eq t.token_hash (hash_token raw)

  -- The token that the reads of `ConsumePasswordReset` accept.
  unfoldable pub usable_reset : ℕ → Text → Store → Option PasswordResetToken
  usable_reset now [] s = none
  usable_reset now (c ∷ raw) s = elim (find (reset_by_hash (c ∷ raw)) s.resets) [
    | none ↦ none
    | some t ↦ if is_some t.used_at || ltb t.expires_at now then none else some t
  ]

  -- The user whose password the token may set.
  unfoldable pub active_user : ℕ → Store → Option User
  active_user n s = elim (find (user_is n) s.users) [
    | none ↦ none
    | some u ↦ if u.is_active then some u else none
  ]

  abbrev pub redeemed : User → Store → Option Store → ResetReply × Store
  redeemed u s none = (reset_rejected, s)
  redeemed u s (some t) = (reset u, t)

  abbrev pub reset_with : ℕ → Text → Store → PasswordResetToken → User → ResetReply × Store
  reset_with now password s t u = elim (bcrypt password) [
    | none ↦ (reset_failed, s)
    | some hash ↦ redeemed u s (redeem now t.id u.id hash s)
  ]

  -- `ConsumePasswordReset`
  unfoldable pub consume_password_reset : ℕ → Text → Text → Store → ResetReply × Store
  consume_password_reset now raw password s =
      if validate_password password
      then elim (usable_reset now raw s) [
        | none ↦ (reset_rejected, s)
        | some t ↦ elim (active_user t.user_id s) [
          | none ↦ (reset_rejected, s)
          | some u ↦ reset_with now password s t u
        ]
      ]
      else (weak_password, s)
