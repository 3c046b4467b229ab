-- ===== src/Sessions/ResetLaws.antt =====
-- What a redeemed link of internal/services/password_reset.go leaves behind.
use arcus_invest_backend.Base.{
  ℕ, ==_iff, ltb, ◌≡◌, refl, subst, sym, ap, ◌∙◌, ◌⊎◌, inl, inr, Bool, true, false, ◌||◌, Option,
  none, some, List, [], ◌∷◌, arith, find, any, update_where, find-update_where, find_sound, is_some,
  if◌then◌else◌, Bool-cases, Option-cases,
}
use arcus_invest_backend.Base.Text.{Text}
use arcus_invest_backend.Sessions.Refresh.{
  User, RefreshToken, PasswordResetToken, Store, user_is, of_user, revoke_at,
  revoke_all_refresh_tokens,
}
use arcus_invest_backend.Sessions.Reset.{
  validate_password, next_version, revoke_all_sessions, redeemable, redeem_at, set_password, redeem,
  reset, reset_by_hash, usable_reset, active_user, reset_with, consume_password_reset,
}

revoked_all :
    (now n : ℕ) (ts : List RefreshToken)
    → any (of_user n) (update_where (of_user n) (revoke_at now) ts) ≡ false
revoked_all now n [] = refl
revoked_all now n (t ∷ ts) = ground (arith, revoked_all now n ts)

-- The store after a redemption.
abbrev after : ℕ → ℕ → ℕ → Text → Store → Store
after now token user hash s = revoke_all_sessions user (
    revoke_all_refresh_tokens now user (record s {
      resets = update_where (redeemable token) (redeem_at now) s.resets;
      users = update_where (user_is user) (set_password hash) s.users;
    }))

redeem-cases :
    (now token user : ℕ) (hash : Text) (s : Store)
    → (redeem now token user hash s ≡ none)
      ⊎ (redeem now token user hash s ≡ some (after now token user hash s))
unfolding redeem
redeem-cases now token user hash s = elim (Bool-cases (any (redeemable token) s.resets)) [
  | inl e ↦ inr (rw e refl)
  | inr e ↦ inl (rw e refl)
]

-- Both updates of the users, on the row that is found.
found_user :
    (n : ℕ) (hash : Text) (us : List User) {u : User}
    → find (user_is n) us ≡ some u
    → find
        (user_is n)
        (update_where (user_is n) next_version (update_where (user_is n) (set_password hash) us))
      ≡ some (next_version (set_password hash u))
found_user n hash us {u} h =
    let e = find_sound (user_is n) us {x = u} h in
    let one =
      find-update_where (user_is n) (user_is n) (set_password hash) us {x = u} (λ y d. refl) h in
    let changed = update_where (user_is n) (set_password hash) us in
    let two =
      find-update_where (user_is n) (user_is n) next_version changed {x = set_password hash u}
        (λ y d. refl) (rw e at one) in
    rw e at two

kept {ℓ} : {A : Type ℓ} (b : Bool) {x y : A} → (if b then some x else none) ≡ some y → x ≡ y
kept b h = ground arith

passed {ℓ} :
    {A : Type ℓ} (b : Bool) {x y : A}
    → (if b then none else some x) ≡ some y
    → (b ≡ false) × (x ≡ y)
passed b h = ground arith

found_itself :
    (n : ℕ) (us : List User) {u : User}
    → find (user_is n) us ≡ some u
    → find (user_is u.id) us ≡ some u
found_itself n us {u} h =
    subst (λ k. find (user_is k) us ≡ some u)
      (sym ((==_iff u.id n).0 (find_sound (user_is n) us {x = u} h))) h

redeemed_used :
    (now n : ℕ) (t : PasswordResetToken)
    → n ≡ t.id
    → is_some (if redeemable n t then redeem_at now t else t).used_at ≡ true
redeemed_used now n t h = ground (arith, ==_iff t.id n)

module _ (hash_token : Text → Text) (to_lower : Text → Text) (bcrypt : Text → Option Text) where
  -- What has to be found for a password to be set, and the store that is left.
  record Accepted (now : ℕ) (raw password : Text) (s : Store) (u : User) : Type 0 where
    token : PasswordResetToken
    hash : Text
    found : usable_reset hash_token to_lower bcrypt now raw s ≡ some token
    owner : active_user hash_token to_lower bcrypt token.user_id s ≡ some u
    hashed : bcrypt password ≡ some hash
    done :
        (consume_password_reset hash_token to_lower bcrypt now raw password s).1
        ≡ after now token.id u.id hash s

  reset_lem : {v w : User} → reset v ≡ reset w → v ≡ w
  reset_lem h = ground arith

  runs :
      (now : ℕ) (raw password hash : Text) (s : Store) (t : PasswordResetToken) (w : User)
      → validate_password password ≡ true
      → usable_reset hash_token to_lower bcrypt now raw s ≡ some t
      → active_user hash_token to_lower bcrypt t.user_id s ≡ some w
      → bcrypt password ≡ some hash
      → redeem now t.id w.id hash s ≡ some (after now t.id w.id hash s)
      → consume_password_reset hash_token to_lower bcrypt now raw password s
        ≡ (reset w, after now t.id w.id hash s)
  unfolding consume_password_reset
  runs now raw password hash s t w v e f g k =
      rw (v, consume_password_reset) (rw e (rw f (rw (g, reset_with) (rw k refl))))

  accepted :
      (now : ℕ) (raw password : Text) (s : Store) {u : User}
      → (consume_password_reset hash_token to_lower bcrypt now raw password s).0 ≡ reset u
      → Accepted now raw password s u
  unfolding consume_password_reset
  accepted now raw password s {u} h = elim (Bool-cases (validate_password password)) [
    | inr v ↦ ground arith
    | inl v ↦ elim (Option-cases (usable_reset hash_token to_lower bcrypt now raw s)) [
      | inl e ↦ ground arith
      | inr (t, e) ↦ elim (Option-cases (active_user hash_token to_lower bcrypt t.user_id s)) [
        | inl f ↦ ground arith
        | inr (w, f) ↦ elim (Option-cases (bcrypt password)) [
          | inl g ↦ ground arith
          | inr (hash, g) ↦ elim (redeem-cases now t.id w.id hash s) [
            | inl k ↦ ground arith
            | inr k ↦
                let run = runs now raw password hash s t w v e f g k in
                subst (λ x. Accepted now raw password s x) (reset_lem (sym (ap (λ x. x.0) run) ∙ h))
                  (record {
                    token = t;
                    hash = hash;
                    found = e;
                    owner = f;
                    hashed = g;
                    done = ap (λ x. x.1) run;
                  })
          ]
        ]
      ]
    ]
  ]

  owner_found :
      (n : ℕ) (s : Store) {u : User}
      → active_user hash_token to_lower bcrypt n s ≡ some u
      → find (user_is u.id) s.users ≡ some u
  unfolding active_user
  owner_found n s {u} h = elim (Option-cases (find (user_is n) s.users)) [
    | inl e ↦ ground arith
    | inr (v, e) ↦ found_itself n s.users (
        subst (λ x. find (user_is n) s.users ≡ some x) (kept v.is_active (rw (e, active_user) at h))
          e)
  ]

  spent_link :
      (now later user : ℕ) (raw hash : Text) (s : Store) {t : PasswordResetToken}
      → usable_reset hash_token to_lower bcrypt now raw s ≡ some t
      → usable_reset hash_token to_lower bcrypt later raw (after now t.id user hash s) ≡ none
  unfolding usable_reset revoke_all_sessions revoke_all_refresh_tokens
  spent_link now later user [] hash s h = refl
  spent_link now later user (c ∷ raw) hash s {t} h =
      elim (Option-cases (find (reset_by_hash hash_token to_lower bcrypt (c ∷ raw)) s.resets)) [
        | inl e ↦ ground arith
        | inr (v, e) ↦
            let found =
              find-update_where (reset_by_hash hash_token to_lower bcrypt (c ∷ raw))
                (redeemable t.id) (redeem_at now) s.resets {x = v} (λ y d. refl) e in
            let ok =
              passed (is_some v.used_at || ltb v.expires_at now) (rw (e, usable_reset) at h) in
            let used = redeemed_used now t.id v (ap (λ x. x.id) (sym ok.1)) in
            rw (found, usable_reset) (rw used refl)
      ]

  -- A reset that succeeds sets the hash of the new password, moves the token version on, leaves no
  -- refresh token of the user that is not revoked, and makes its link useless from then on.
  pub reset_ends_sessions :
      (now : ℕ) (raw password : Text) (s : Store) {u : User}
      → (consume_password_reset hash_token to_lower bcrypt now raw password s).0 ≡ reset u
      → (later : ℕ)
      → (t : Store) × (hash : Text) × ((consume_password_reset hash_token to_lower bcrypt now raw
            password s).1
          ≡ t)
        × (bcrypt password ≡ some hash)
        × (find (user_is u.id) t.users ≡ some (next_version (set_password hash u)))
        × (any (of_user u.id) t.tokens ≡ false)
        × (usable_reset hash_token to_lower bcrypt later raw t ≡ none)
  unfolding revoke_all_sessions revoke_all_refresh_tokens
  reset_ends_sessions now raw password s {u} h later =
      let a = accepted now raw password s h in
      (
        after now a.token.id u.id a.hash s,
        a.hash,
        a.done,
        a.hashed,
        found_user u.id a.hash s.users (owner_found a.token.user_id s a.owner),
        revoked_all now u.id s.tokens,
        spent_link now later u.id raw a.hash s a.found,
      )
