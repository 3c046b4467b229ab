-- ===== src/Sessions/Shut.antt =====
-- Tokens of internal/services/refresh.go that can no longer be claimed, and what keeps them so.
use arcus_invest_backend.Base.{
  ℕ, ◌==◌, ◌≡◌, refl, ◌∙◌, ◌⊎◌, inl, inr, Bool, true, false, none, some, List, [], ◌∷◌, arith, find,
  any, update_where, any-update_where, Bool-cases, Option-cases,
}
use arcus_invest_backend.Base.Text.{Text}
use arcus_invest_backend.Sessions.Refresh.{
  RefreshToken, Store, Fresh, user_is, in_family, revoke_at, revoke_refresh_family, is_claimable,
  use_at, claim, clashes, new_token, append_to_family, succeed, spend,
}

abbrev pub has_id : ℕ → RefreshToken → Bool
has_id n t = t.id == n

-- A token that is there and can no longer be claimed.
pub record IsShut (n : ℕ) (s : Store) : Type 0 where
  pub known : any (has_id n) s.tokens ≡ true
  pub shut : any (is_claimable n) s.tokens ≡ false

update-shut :
    (n : ℕ) (p : RefreshToken → Bool) (f : RefreshToken → RefreshToken) (ts : List RefreshToken)
    → ((t : RefreshToken) → is_claimable n t ≡ false → is_claimable n (f t) ≡ false)
    → any (is_claimable n) ts ≡ false
    → any (is_claimable n) (update_where p f ts) ≡ false
update-shut n p f [] keep h = refl
update-shut n p f (t ∷ ts) keep h = ground (arith, keep t, update-shut n p f ts keep)

claimed-shut :
    (now n : ℕ) (ts : List RefreshToken)
    → any (is_claimable n) (update_where (is_claimable n) (use_at now) ts) ≡ false
claimed-shut now n [] = refl
claimed-shut now n (t ∷ ts) = ground (arith, claimed-shut now n ts)

claimable-known :
    (n : ℕ) (ts : List RefreshToken) → any (is_claimable n) ts ≡ true → any (has_id n) ts ≡ true
claimable-known n [] h = h
claimable-known n (t ∷ ts) h = ground (arith, claimable-known n ts)

abbrev pub claimed : ℕ → ℕ → Store → Store
claimed now n s = record s { tokens = update_where (is_claimable n) (use_at now) s.tokens }

pub claim-cases :
    (now n : ℕ) (s : Store)
    → (claim now n s ≡ none)
      ⊎ ((any (is_claimable n) s.tokens ≡ true) × (claim now n s ≡ some (claimed now n s)))
unfolding claim
claim-cases now n s = ground arith

pub claimed-IsShut :
    (now n : ℕ) (s : Store) → any (is_claimable n) s.tokens ≡ true → IsShut n (claimed now n s)
claimed-IsShut now n s h = record {
  known =
      any-update_where (has_id n) (is_claimable n) (use_at now) s.tokens (λ t. refl)
      ∙ claimable-known n s.tokens h;
  shut = claimed-shut now n s.tokens;
}

pub claimed_other-IsShut : (now k n : ℕ) (s : Store) → IsShut n s → IsShut n (claimed now k s)
claimed_other-IsShut now k n s h = record {
  known = any-update_where (has_id n) (is_claimable k) (use_at now) s.tokens (λ t. refl) ∙ h.known;
  shut = update-shut n (is_claimable k) (use_at now) s.tokens (λ t e. ground arith) h.shut;
}

pub revoke-IsShut :
    (now n : ℕ) (p : RefreshToken → Bool) (s : Store)
    → IsShut n s
    → IsShut n (record s { tokens = update_where p (revoke_at now) s.tokens })
revoke-IsShut now n p s h = record {
  known = any-update_where (has_id n) p (revoke_at now) s.tokens (λ t. refl) ∙ h.known;
  shut = update-shut n p (revoke_at now) s.tokens (λ t e. ground arith) h.shut;
}

module _ (hash_token : Text → Text) (ttl : ℕ) where
  no_clash :
      (k n : ℕ) (raw : Text) (ts : List RefreshToken)
      → any (clashes hash_token ttl k raw) ts ≡ false
      → any (has_id n) ts ≡ true
      → (k == n) ≡ false
  no_clash k n raw [] h g = ground arith
  no_clash k n raw (t ∷ ts) h g = ground (arith, no_clash k n raw ts)

  pub append-cases :
      (now user family : ℕ) (fresh : Fresh) (s : Store)
      → (append_to_family hash_token ttl now user family fresh s ≡ none)
        ⊎ ((raw : Text) × (any (clashes hash_token ttl fresh.id raw) s.tokens ≡ false)
            × (append_to_family hash_token ttl now user family fresh s
                ≡ some (
                  raw,
                  record s {
                    tokens = new_token hash_token ttl now fresh.id user family raw ∷ s.tokens;
                  },
                )))
  unfolding append_to_family
  append-cases now user family fresh s = elim (Option-cases fresh.raw) [
    | inl e ↦ ground arith
    | inr (raw, e) ↦ elim (Bool-cases (any (clashes hash_token ttl fresh.id raw) s.tokens)) [
      | inl c ↦ inl (rw e (rw c refl))
      | inr c ↦ inr (raw, c, rw e (rw c refl))
    ]
  ]

  pub appended-IsShut :
      (n now user family k : ℕ) (raw : Text) (s : Store)
      → any (clashes hash_token ttl k raw) s.tokens ≡ false
      → IsShut n s
      → IsShut n (record s { tokens = new_token hash_token ttl now k user family raw ∷ s.tokens })
  appended-IsShut n now user family k raw s h i =
      let other = no_clash k n raw s.tokens h i.known in
      record { known = ground (arith, other, i.known); shut = ground (arith, other, i.shut) }

  pub succeed-IsShut :
      (n now : ℕ) (fresh : Fresh) (row : RefreshToken) (s : Store)
      → IsShut n s
      → IsShut n (succeed hash_token ttl now fresh row s).1
  unfolding succeed revoke_refresh_family
  succeed-IsShut n now fresh row s i = elim (Option-cases (find (user_is row.user_id) s.users)) [
    | inl e ↦ rw (e, succeed) i
    | inr (u, e) ↦ elim (Bool-cases u.is_active) [
      | inr b ↦ rw (e, succeed) (rw b (revoke-IsShut now n (in_family row.family_id) s i))
      | inl b ↦ elim (append-cases now row.user_id row.family_id fresh s) [
        | inl a ↦ rw (e, succeed) (rw b (rw a i))
        | inr (raw, c, a) ↦
            rw (e, succeed)
              (rw b (rw a (appended-IsShut n now row.user_id row.family_id fresh.id raw s c i)))
      ]
    ]
  ]

  pub spend-IsShut :
      (n now : ℕ) (fresh : Fresh) (row : RefreshToken) (s : Store)
      → IsShut n s
      → IsShut n (spend hash_token ttl now fresh row s).1
  unfolding spend
  spend-IsShut n now fresh row s i = elim (claim-cases now row.id s) [
    | inl e ↦ rw (e, spend) i
    | inr (h, e) ↦
        rw (e, spend)
          (succeed-IsShut n now fresh row (claimed now row.id s)
            (claimed_other-IsShut now row.id n s i))
  ]
