-- ===== src/Sessions/Refresh.antt =====
-- Refresh tokens: internal/services/refresh.go. Addresses and user agents are left out; the random
-- values and the new identifiers are given, and SHA-256 is a parameter.
use arcus_invest_backend.Base.{
  ℕ, ◌+◌, ◌==◌, ltb, Bool, ◌&&◌, ◌||◌, not, Option, none, some, List, [], ◌∷◌, find, any,
  update_where, is_some, if◌then◌else◌,
}
use arcus_invest_backend.Base.Text.{Text, text_eq}

pub record User : Type 0 where
  pub id : ℕ
  pub email : Text
  pub is_active : Bool
  pub password_hash : Text
  pub token_version : ℕ

pub record RefreshToken : Type 0 where
  pub id : ℕ
  pub user_id : ℕ
  pub token_hash : Text
  pub family_id : ℕ
  pub expires_at : ℕ
  pub used_at : Option ℕ
  pub revoked_at : Option ℕ

pub record PasswordResetToken : Type 0 where
  pub id : ℕ
  pub user_id : ℕ
  pub token_hash : Text
  pub expires_at : ℕ
  pub used_at : Option ℕ

pub record Store : Type 0 where
  pub users : List User
  pub tokens : List RefreshToken
  pub resets : List PasswordResetToken

-- What a new token is made of: its identifier, and its random value where there is one.
pub record Fresh : Type 0 where
  pub id : ℕ
  pub raw : Option Text

pub data RefreshError : Type 0 where
  rejected raced failed : RefreshError

pub data Rotated : Type 0 where
  refused : RefreshError → Rotated
  rotated : User → Text → Rotated

-- What the reads of `RotateRefreshToken` find.
pub data Look : Type 0 where
  unusable : Look
  replayed : RefreshToken → Look
  live : RefreshToken → Look

abbrev pub user_is : ℕ → User → Bool
user_is n u = u.id == n

abbrev pub in_family : ℕ → RefreshToken → Bool
in_family f t = (t.family_id == f) && not (is_some t.revoked_at)

abbrev pub of_user : ℕ → RefreshToken → Bool
of_user n t = (t.user_id == n) && not (is_some t.revoked_at)

abbrev pub revoke_at : ℕ → RefreshToken → RefreshToken
revoke_at now t = record t { revoked_at = some now }

-- `RevokeRefreshFamily`
unfoldable pub revoke_refresh_family : ℕ → ℕ → Store → Store
revoke_refresh_family now f s = record s {
  tokens = update_where (in_family f) (revoke_at now) s.tokens;
}

-- `RevokeAllRefreshTokens`
unfoldable pub revoke_all_refresh_tokens : ℕ → ℕ → Store → Store
revoke_all_refresh_tokens now n s = record s {
  tokens = update_where (of_user n) (revoke_at now) s.tokens;
}

-- The rows that the claim of a token selects.
abbrev pub is_claimable : ℕ → RefreshToken → Bool
is_claimable n t = (t.id == n) && (not (is_some t.used_at) && not (is_some t.revoked_at))

abbrev pub use_at : ℕ → RefreshToken → RefreshToken
use_at now t = record t { used_at = some now }

-- The conditional update of `RotateRefreshToken`, `none` where it touches no row.
unfoldable pub claim : ℕ → ℕ → Store → Option Store
claim now n s =
    if any (is_claimable n) s.tokens
    then some (record s { tokens = update_where (is_claimable n) (use_at now) s.tokens })
    else none

module _ (hash_token : Text → Text) (refresh_token_ttl : ℕ) where
  abbrev pub clashes : ℕ → Text → RefreshToken → Bool
  clashes n raw t = (t.id == n) || text_eq t.token_hash (hash_token raw)

  abbrev pub new_token : ℕ → ℕ → ℕ → ℕ → Text → RefreshToken
  new_token now id user family raw = record {
    id = id;
    user_id = user;
    token_hash = hash_token raw;
    family_id = family;
    expires_at = now + refresh_token_ttl;
    used_at = none;
    revoked_at = none;
  }

  -- `appendToFamily`, which fails without a random value and on a row that is there already.
  unfoldable pub append_to_family : ℕ → ℕ → ℕ → Fresh → Store → Option (Text × Store)
  append_to_family now user family fresh s = elim fresh.raw [
    | none ↦ none
    | some raw ↦
        if any (clashes fresh.id raw) s.tokens
        then none
        else some (raw, record s { tokens = new_token now fresh.id user family raw ∷ s.tokens })
  ]

  -- `IssueRefreshToken`, with the new family's identifier.
  unfoldable pub issue_refresh_token : ℕ → ℕ → ℕ → Fresh → Store → Option (Text × Store)
  issue_refresh_token now user family fresh s = append_to_family now user family fresh s

  abbrev pub by_hash : Text → RefreshToken → Bool
  by_hash raw t = text_eq t.token_hash (hash_token raw)

  unfoldable pub look : ℕ → Text → Store → Look
  look now [] s = unusable
  look now (c ∷ raw) s = elim (find (by_hash (c ∷ raw)) s.tokens) [
    | none ↦ unusable
    | some t ↦
        if is_some t.revoked_at || ltb t.expires_at now
        then unusable
        else (if is_some t.used_at then replayed t else live t)
  ]

  abbrev pub answer : User → Store → Option (Text × Store) → Rotated × Store
  answer u s none = (refused failed, s)
  answer u s (some (raw, t)) = (rotated u raw, t)

  -- The rest of `RotateRefreshToken` once the row is claimed.
  unfoldable pub succeed : ℕ → Fresh → RefreshToken → Store → Rotated × Store
  succeed now fresh row s = elim (find (user_is row.user_id) s.users) [
    | none ↦ (refused rejected, s)
    | some u ↦
        if u.is_active
        then answer u s (append_to_family now row.user_id row.family_id fresh s)
        else (refused rejected, revoke_refresh_family now row.family_id s)
  ]

  -- `RotateRefreshToken` after its reads, in a store that others may have written to since.
  unfoldable pub spend : ℕ → Fresh → RefreshToken → Store → Rotated × Store
  spend now fresh row s = elim (claim now row.id s) [
    | none ↦ (refused raced, s)
    | some t ↦ succeed now fresh row t
  ]

  -- `RotateRefreshToken` with nothing in between.
  unfoldable pub rotate_refresh_token : ℕ → Fresh → Text → Store → Rotated × Store
  rotate_refresh_token now fresh raw s = elim (look now raw s) [
    | unusable ↦ (refused rejected, s)
    | replayed t ↦ (refused rejected, revoke_refresh_family now t.family_id s)
    | live t ↦ spend now fresh t s
  ]

  -- `FamilyForToken`
  unfoldable pub family_for_token : Text → Store → Option ℕ
  family_for_token [] s = none
  family_for_token (c ∷ raw) s = elim (find (by_hash (c ∷ raw)) s.tokens) [
    | none ↦ none
    | some t ↦ some t.family_id
  ]
