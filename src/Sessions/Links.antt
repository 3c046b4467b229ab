-- ===== src/Sessions/Links.antt =====
-- The links that `CreatePasswordReset` of internal/services/password_reset.go leaves outstanding.
use arcus_invest_backend.Base.{
  ℕ, ==_refl, ◌≡◌, refl, subst, sym, inl, inr, Bool, true, false, Option, none, some, List, [], ◌∷◌,
  arith, find, any, count, update_where, Bool-cases, Option-cases, if◌then◌else◌,
}
use arcus_invest_backend.Base.Text.{Text, text_eq, trim_space}
use arcus_invest_backend.Sessions.Refresh.{User, PasswordResetToken, Store, Fresh}
use arcus_invest_backend.Sessions.Reset.{
  outstanding, redeem_at, supersede, reset_clashes, add_reset, create_password_reset,
}

superseded_none :
    (now n : ℕ) (ts : List PasswordResetToken)
    → count (outstanding n) (update_where (outstanding n) (redeem_at now) ts) ≡ 0
superseded_none now n [] = refl
superseded_none now n (t ∷ ts) = ground (arith, superseded_none now n ts)

module _ (hash_token : Text → Text) (to_lower : Text → Text) (bcrypt : Text → Option Text) where
  owner_lem :
      {raw code : Text} {v u : User}
      → ◌≡◌ {A = Option (Text × User)} (some (raw, v)) (some (code, u))
      → v ≡ u
  owner_lem h = ground arith

  added-one :
      (now : ℕ) (fresh : Fresh) (v : User) (s : Store) {raw : Text} {u : User}
      → count (outstanding v.id) s.resets ≡ 0
      → (add_reset hash_token to_lower bcrypt now fresh v s).0 ≡ some (raw, u)
      → count (outstanding u.id) (add_reset hash_token to_lower bcrypt now fresh v s).1.resets ≡ 1
  added-one now fresh v s {raw} {u} zero_left h = elim (Option-cases fresh.raw) [
    | inl e ↦ ground arith
    | inr (code, e) ↦
        elim (Bool-cases (any (reset_clashes hash_token to_lower bcrypt fresh.id code) s.resets)) [
          | inl c ↦ ground arith
          | inr c ↦
              let same = owner_lem (rw c at (rw (e, add_reset) at h)) in
              subst
                (λ w.
                  count (outstanding w.id)
                    (add_reset hash_token to_lower bcrypt now fresh v s).1.resets
                  ≡ 1)
                same (rw (e, add_reset) (rw c (ground (arith, zero_left, ==_refl v.id))))
        ]
  ]

  picked :
      (b : Bool) (m : Option (Text × User) × Store) (s : Store) {x : Text × User}
      → (if b then m else (none, s)).0 ≡ some x
      → ((if b then m else (none, s)) ≡ m) × (m.0 ≡ some x)
  picked true m s h = (refl, h)
  picked false m s h = absurd (ground arith)

  -- Where a reset is created, exactly one link of its user is unused afterwards.
  pub one_live_link :
      (now : ℕ) (fresh : Fresh) (email : Text) (s : Store) {raw : Text} {u : User}
      → (create_password_reset hash_token to_lower bcrypt now fresh email s).0 ≡ some (raw, u)
      → count
          (outstanding u.id)
          (create_password_reset hash_token to_lower bcrypt now fresh email s).1.resets
        ≡ 1
  unfolding create_password_reset
  one_live_link now fresh email s {raw} {u} h =
      elim (Option-cases (find (λ w. text_eq w.email (to_lower (trim_space email))) s.users)) [
        | inl e ↦ ground arith
        | inr (v, e) ↦
            let t = supersede hash_token to_lower bcrypt now v.id s in
            let p =
              picked v.is_active (add_reset hash_token to_lower bcrypt now fresh v t) s
                (rw (e, create_password_reset) at h) in
            rw (e, create_password_reset)
              (subst (λ m. count (outstanding u.id) m.1.resets ≡ 1) (sym p.0)
                (added-one now fresh v t {raw = raw} {u = u} (superseded_none now v.id s.resets)
                  p.1))
      ]
