-- ===== src/Sessions/Chains.antt =====
-- What the rotation of internal/services/refresh.go guarantees, whatever happens in between.
use arcus_invest_backend.Base.{
  ℕ, ◌≡◌, refl, ap, inl, inr, true, false, Option, none, some, List, [], ◌∷◌, arith, any, find,
  is_some, ltb, update_where,
}
use arcus_invest_backend.Base.Text.{Text}
use arcus_invest_backend.Sessions.Refresh.{
  User, RefreshToken, Store, Fresh, Look, unusable, replayed, live, rejected, raced, Rotated,
  refused, rotated, in_family, of_user, revoke_at, revoke_refresh_family, revoke_all_refresh_tokens,
  by_hash, claim, append_to_family, issue_refresh_token, look, spend, rotate_refresh_token,
}
use arcus_invest_backend.Sessions.Shut.{
  IsShut, claimed, claim-cases, claimed-IsShut, revoke-IsShut, append-cases, appended-IsShut,
  succeed-IsShut, spend-IsShut,
}

module _ (hash_token : Text → Text) (ttl : ℕ) where
  -- What else may happen to the tokens: each call of the package, and the rest of a rotation whose
  -- reads are over.
  pub data SessionStep : Type 0 where
    issue : (now user family : ℕ) (fresh : Fresh) → SessionStep
    rotate : (now : ℕ) (fresh : Fresh) (raw : Text) → SessionStep
    resume : (now : ℕ) (fresh : Fresh) (row : RefreshToken) → SessionStep
    revoke_family : (now family : ℕ) → SessionStep
    revoke_user : (now user : ℕ) → SessionStep

  abbrev pub issued : Store → Option (Text × Store) → Store
  issued s none = s
  issued s (some (raw, t)) = t

  pub take_step : SessionStep → Store → Store
  take_step (issue now user family fresh) s =
      issued s (issue_refresh_token hash_token ttl now user family fresh s)
  take_step (rotate now fresh raw) s = (rotate_refresh_token hash_token ttl now fresh raw s).1
  take_step (resume now fresh row) s = (spend hash_token ttl now fresh row s).1
  take_step (revoke_family now family) s = revoke_refresh_family now family s
  take_step (revoke_user now user) s = revoke_all_refresh_tokens now user s

  pub take_steps : List SessionStep → Store → Store
  take_steps [] s = s
  take_steps (x ∷ xs) s = take_steps xs (take_step x s)

  issue-IsShut :
      (n now user family : ℕ) (fresh : Fresh) (s : Store)
      → IsShut n s
      → IsShut n (issued s (append_to_family hash_token ttl now user family fresh s))
  issue-IsShut n now user family fresh s i =
      elim (append-cases hash_token ttl now user family fresh s) [
        | inl a ↦ rw a i
        | inr (raw, c, a) ↦
            rw a (appended-IsShut hash_token ttl n now user family fresh.id raw s c i)
      ]

  rotate-IsShut :
      (n now : ℕ) (fresh : Fresh) (raw : Text) (s : Store)
      → IsShut n s
      → IsShut n (rotate_refresh_token hash_token ttl now fresh raw s).1
  unfolding rotate_refresh_token revoke_refresh_family
  rotate-IsShut n now fresh raw s i = go (look hash_token ttl now raw s)
    where
      go :
          (l : Look)
          → IsShut n
              (elim l as (λ x. Rotated × Store) [
                | unusable ↦ (refused rejected, s)
                | replayed t ↦ (refused rejected, revoke_refresh_family now t.family_id s)
                | live t ↦ spend hash_token ttl now fresh t s
              ]).1
      go unusable = i
      go (replayed t) = revoke-IsShut now n (in_family t.family_id) s i
      go (live t) = spend-IsShut hash_token ttl n now fresh t s i

  step-IsShut : (n : ℕ) (x : SessionStep) (s : Store) → IsShut n s → IsShut n (take_step x s)
  unfolding take_step issue_refresh_token revoke_refresh_family revoke_all_refresh_tokens
  step-IsShut n (issue now user family fresh) s i = issue-IsShut n now user family fresh s i
  step-IsShut n (rotate now fresh raw) s i = rotate-IsShut n now fresh raw s i
  step-IsShut n (resume now fresh row) s i = spend-IsShut hash_token ttl n now fresh row s i
  step-IsShut n (revoke_family now family) s i = revoke-IsShut now n (in_family family) s i
  step-IsShut n (revoke_user now user) s i = revoke-IsShut now n (of_user user) s i

  steps-IsShut :
      (n : ℕ) (xs : List SessionStep) (s : Store) → IsShut n s → IsShut n (take_steps xs s)
  unfolding take_steps
  steps-IsShut n [] s i = i
  steps-IsShut n (x ∷ xs) s i = steps-IsShut n xs (take_step x s) (step-IsShut n x s i)

  shut-claim : (now n : ℕ) (s : Store) → IsShut n s → claim now n s ≡ none
  unfolding claim
  shut-claim now n s i = rw (i.shut, claim) refl

  spend-raced :
      (now : ℕ) (fresh : Fresh) (row : RefreshToken) (s : Store)
      → IsShut row.id s
      → spend hash_token ttl now fresh row s ≡ (refused raced, s)
  unfolding spend
  spend-raced now fresh row s i = rw (shut-claim now row.id s i, spend) refl

  rotated-IsShut :
      (now : ℕ) (fresh : Fresh) (row : RefreshToken) (s : Store) {u : User} {raw : Text}
      → (spend hash_token ttl now fresh row s).0 ≡ rotated u raw
      → IsShut row.id (spend hash_token ttl now fresh row s).1
  unfolding spend
  rotated-IsShut now fresh row s h = elim (claim-cases now row.id s) [
    | inl e ↦ ground arith
    | inr (g, e) ↦
        rw (e, spend)
          (succeed-IsShut hash_token ttl row.id now fresh row (claimed now row.id s)
            (claimed-IsShut now row.id s g))
  ]

  -- When a rotation has given a token its successor, another request that read the same token
  -- before gets none, whatever sign-ins, rotations and revocations ran in between.
  pub one_successor :
      (now : ℕ) (fresh : Fresh) (row : RefreshToken) (s : Store) {u : User} {raw : Text}
      → (spend hash_token ttl now fresh row s).0 ≡ rotated u raw
      → (xs : List SessionStep) (later : ℕ) (other : Fresh)
      → (spend hash_token ttl later other row
          (take_steps xs (spend hash_token ttl now fresh row s).1)).0
        ≡ refused raced
  one_successor now fresh row s h xs later other =
      ap (λ x. x.0)
        (spend-raced later other row (take_steps xs (spend hash_token ttl now fresh row s).1) (
          steps-IsShut row.id xs (spend hash_token ttl now fresh row s).1
            (rotated-IsShut now fresh row s h)))

  -- No token of a family is left that is not revoked.
  abbrev pub IsDead : ℕ → Store → Type 0
  IsDead f s = any (in_family f) s.tokens ≡ false

  revoked-IsDead :
      (now f : ℕ) (ts : List RefreshToken)
      → any (in_family f) (update_where (in_family f) (revoke_at now) ts) ≡ false
  revoked-IsDead now f [] = refl
  revoked-IsDead now f (t ∷ ts) = ground (arith, revoked-IsDead now f ts)

  look-replayed :
      (now c : ℕ) (raw : Text) (s : Store) {t : RefreshToken}
      → find (by_hash hash_token ttl (c ∷ raw)) s.tokens ≡ some t
      → t.revoked_at ≡ none
      → ltb t.expires_at now ≡ false
      → is_some t.used_at ≡ true
      → look hash_token ttl now (c ∷ raw) s ≡ replayed t
  unfolding look
  look-replayed now c raw s found unrevoked timely used =
      rw (found, unrevoked, timely, used, look) refl

  -- Where the row of a presented token is not revoked, has not expired and carries the time at which
  -- it was spent, the token is refused, and no token of its family is left that is not revoked.
  pub replay_ends_family :
      (now c : ℕ) (fresh : Fresh) (raw : Text) (s : Store) {t : RefreshToken}
      → find (by_hash hash_token ttl (c ∷ raw)) s.tokens ≡ some t
      → t.revoked_at ≡ none
      → ltb t.expires_at now ≡ false
      → is_some t.used_at ≡ true
      → ((rotate_refresh_token hash_token ttl now fresh (c ∷ raw) s).0 ≡ refused rejected)
        × IsDead t.family_id (rotate_refresh_token hash_token ttl now fresh (c ∷ raw) s).1
  unfolding rotate_refresh_token revoke_refresh_family
  replay_ends_family now c fresh raw s {t} found unrevoked timely used =
      let h = look-replayed now c raw s found unrevoked timely used in
      (
        rw (h, rotate_refresh_token) refl,
        rw (h, rotate_refresh_token) (revoked-IsDead now t.family_id s.tokens),
      )
