-- ===== src/Base/Lists.antt =====
-- Lists measured by native numbers, tables as lists of rows, and predicates on every row.
use Prim.Native.Nat.{ℕ, suc, ◌+◌}
use mathlib.Core.Path.{◌≡◌, refl, subst}
use mathlib.Core.Logic.{inl, inr}
use mathlib.Core.Bool.{Bool, true, false, ◌||◌}
use mathlib.Core.List.{List, [], ◌∷◌}
use mathlib.Core.Option.{Option, none, some}
use native.Mathlib.Omega.{arith}
use arcus_invest_backend.Base.Tests.{Bool-cases, if◌then◌else◌}

module _ {ℓ} {A : Type ℓ} where
  abbrev pub length : List A → ℕ
  length [] = 0
  length (x ∷ xs) = suc (length xs)

  -- The first row that passes the test.
  abbrev pub find : (A → Bool) → List A → Option A
  find p [] = none
  find p (x ∷ xs) = if p x then some x else find p xs

  abbrev pub any : (A → Bool) → List A → Bool
  any p [] = false
  any p (x ∷ xs) = p x || any p xs

  -- How many rows pass the test.
  abbrev pub count : (A → Bool) → List A → ℕ
  count p [] = 0
  count p (x ∷ xs) = (if p x then 1 else 0) + count p xs

  -- `UPDATE … WHERE p`
  abbrev pub update_where : (A → Bool) → (A → A) → List A → List A
  update_where p f [] = []
  update_where p f (x ∷ xs) = (if p x then f x else x) ∷ update_where p f xs

  -- A property of every row.
  abbrev pub All {κ} : (A → Type κ) → List A → Type κ
  All P [] = Unit
  All P (x ∷ xs) = P x × All P xs

module _ {ℓ} {A : Type ℓ} where
  pub All-map {κ μ} :
      {P : A → Type κ} {Q : A → Type μ} (xs : List A) → ((x : A) → P x → Q x) → All P xs → All Q xs
  All-map [] f h = tt
  All-map (x ∷ xs) f h = (f x h.0, All-map xs f h.1)

  pub All-zip {κ μ} :
      (P : A → Type κ) (Q : A → Type μ) (xs : List A)
      → All P xs
      → All Q xs
      → All (λ x. P x × Q x) xs
  All-zip P Q [] g h = tt
  All-zip P Q (x ∷ xs) g h = ((g.0, h.0), All-zip P Q xs g.1 h.1)

  found_lem : {x y : A} → ◌≡◌ {A = Option A} (some x) (some y) → x ≡ y
  found_lem h = ground arith

  pub find_sound : (p : A → Bool) (xs : List A) {x : A} → find p xs ≡ some x → p x ≡ true
  find_sound p [] h = ground arith
  find_sound p (y ∷ xs) {x} h = ground (arith, find_sound p xs {x = x})

  -- What holds of every row holds of the row that was found.
  pub find-All {κ} :
      (P : A → Type κ) (p : A → Bool) (xs : List A) {x : A} → find p xs ≡ some x → All P xs → P x
  find-All P p [] h a = ground arith
  find-All P p (y ∷ xs) {x} h a = elim (Bool-cases (p y)) [
    | inl e ↦ subst P (found_lem (rw e at h)) a.0
    | inr e ↦ find-All P p xs (rw e at h) a.1
  ]

  -- `UPDATE … WHERE` keeps a property that the update keeps on the rows it selects.
  pub update_where-All {κ} :
      (P : A → Type κ) (p : A → Bool) (f : A → A) (xs : List A)
      → ((x : A) → p x ≡ true → P x → P (f x))
      → All P xs
      → All P (update_where p f xs)
  update_where-All P p f [] keep h = tt
  update_where-All P p f (x ∷ xs) keep h = (
    elim (Bool-cases (p x)) [ inl e ↦ rw e (keep x e h.0) | inr e ↦ rw e h.0 ],
    update_where-All P p f xs keep h.1,
  )

  -- A test that the update leaves alone finds as often as before.
  pub count-update_where :
      (q p : A → Bool) (f : A → A) (xs : List A)
      → ((x : A) → q (f x) ≡ q x)
      → count q (update_where p f xs) ≡ count q xs
  count-update_where q p f [] same = refl
  count-update_where q p f (x ∷ xs) same = ground (arith, same x, count-update_where q p f xs same)

  pub any-update_where :
      (q p : A → Bool) (f : A → A) (xs : List A)
      → ((x : A) → q (f x) ≡ q x)
      → any q (update_where p f xs) ≡ any q xs
  any-update_where q p f [] same = refl
  any-update_where q p f (x ∷ xs) same = ground (arith, same x, any-update_where q p f xs same)

  -- The same, where a second property of every row, as it was, helps.
  pub update_where-All_with {κ μ} :
      (P : A → Type κ) (Q : A → Type μ) (p : A → Bool) (f : A → A) (xs : List A)
      → ((x : A) → p x ≡ true → Q x → P x → P (f x))
      → All Q xs
      → All P xs
      → All P (update_where p f xs)
  update_where-All_with P Q p f [] keep g h = tt
  update_where-All_with P Q p f (x ∷ xs) keep g h = (
    elim (Bool-cases (p x)) [ inl e ↦ rw e (keep x e g.0 h.0) | inr e ↦ rw e h.0 ],
    update_where-All_with P Q p f xs keep g.1 h.1,
  )

  -- An update that leaves a test alone acts on the row that the test finds.
  pub find-update_where :
      (q p : A → Bool) (f : A → A) (xs : List A) {x : A}
      → ((y : A) → p y ≡ true → q (f y) ≡ q y)
      → find q xs ≡ some x
      → find q (update_where p f xs) ≡ some (if p x then f x else x)
  find-update_where q p f [] same h = ground arith
  find-update_where q p f (y ∷ xs) {x} same h =
      ground (arith, same y, find-update_where q p f xs {x = x} same)
