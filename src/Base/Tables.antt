-- ===== src/Base/Tables.antt =====
-- Tables with a primary key: lists of rows whose keys are distinct.
use Prim.Native.Nat.{ℕ}
use mathlib.Core.Path.{◌≡◌, refl, subst, sym, ◌∙◌}
use mathlib.Core.Logic.{inl, inr}
use mathlib.Core.Bool.{Bool, true, false}
use mathlib.Core.List.{List, [], ◌∷◌}
use mathlib.Core.Option.{Option, some}
use native.Mathlib.Omega.{arith}
use arcus_invest_backend.Base.Tests.{◌==◌, ==_iff, ==_refl, Bool-cases, if◌then◌else◌}
use arcus_invest_backend.Base.Lists.{
  find, any, update_where, All, All-map, All-zip, any-update_where,
}

module _ {ℓ} {A : Type ℓ} (key : A → ℕ) where
  abbrev pub has_key : ℕ → A → Bool
  has_key n x = key x == n

  abbrev pub DistinctKeys : List A → Type 0
  DistinctKeys [] = Unit
  DistinctKeys (x ∷ xs) = (any (has_key (key x)) xs ≡ false) × DistinctKeys xs

  pub absent-update :
      (n : ℕ) (f : A → A) (xs : List A)
      → any (has_key n) xs ≡ false
      → update_where (has_key n) f xs ≡ xs
  absent-update n f [] h = refl
  absent-update n f (x ∷ xs) h = ground (arith, absent-update n f xs)

  -- An update by key changes the row that is found and no other.
  pub found-update {κ} :
      (P : A → Type κ) (n : ℕ) (f : A → A) (xs : List A) {r : A}
      → DistinctKeys xs
      → find (has_key n) xs ≡ some r
      → P (f r)
      → All P xs
      → All P (update_where (has_key n) f xs)
  found-update P n f [] d h p a = tt
  found-update P n f (x ∷ xs) {r} d h p a = elim (Bool-cases (key x == n)) [
    | inl e ↦ rw e (
      subst (λ y. P (f y)) (sym (row (rw e at h))) p,
      rw (absent-update n f xs (rw ((==_iff (key x) n).0 e) at d.0)) a.1,
    )
    | inr e ↦ rw e (a.0, found-update P n f xs d.1 (rw e at h) p a.1)
  ]
    where
      row : {y : A} → ◌≡◌ {A = Option A} (some y) (some r) → y ≡ r
      row h = ground arith

  -- The same, from one property of every row to another.
  pub found-change {κ μ} :
      (P : A → Type κ) (Q : A → Type μ) (n : ℕ) (f : A → A) (xs : List A) {r : A}
      → DistinctKeys xs
      → find (has_key n) xs ≡ some r
      → Q (f r)
      → ((x : A) → has_key n x ≡ false → P x → Q x)
      → All P xs
      → All Q (update_where (has_key n) f xs)
  found-change P Q n f [] d h q keep a = tt
  found-change P Q n f (x ∷ xs) {r} d h q keep a = elim (Bool-cases (key x == n)) [
    | inl e ↦
        let absent = rw ((==_iff (key x) n).0 e) at d.0 in
        rw e (
          subst (λ y. Q (f y)) (sym (row (rw e at h))) q,
          rw (absent-update n f xs absent) (others xs absent a.1),
        )
    | inr e ↦ rw e (keep x e a.0, found-change P Q n f xs d.1 (rw e at h) q keep a.1)
  ]
    where
      row : {y : A} → ◌≡◌ {A = Option A} (some y) (some r) → y ≡ r
      row h = ground arith

      others : (xs : List A) → any (has_key n) xs ≡ false → All P xs → All Q xs
      others [] h a = tt
      others (x ∷ xs) h a = (keep x (ground arith) a.0, others xs (ground arith) a.1)

  same_key : (b : Bool) (f : A → A) (x : A) → key (f x) ≡ key x → key (if b then f x else x) ≡ key x
  same_key true f x e = e
  same_key false f x e = refl

  same_test : (n : ℕ) (f : A → A) (x : A) → key (f x) ≡ key x → has_key n (f x) ≡ has_key n x
  same_test n f x e = rw e refl

  pub update-DistinctKeys :
      (p : A → Bool) (f : A → A) (xs : List A)
      → ((x : A) → key (f x) ≡ key x)
      → DistinctKeys xs
      → DistinctKeys (update_where p f xs)
  update-DistinctKeys p f [] same d = tt
  update-DistinctKeys p f (x ∷ xs) same d = (
    rw (same_key (p x) f x (same x))
        (any-update_where (has_key (key x)) p f xs (λ y. same_test (key x) f y (same y)) ∙ d.0),
    update-DistinctKeys p f xs same d.1,
  )

  -- `DELETE … WHERE`
  abbrev pub delete_where : (A → Bool) → List A → List A
  delete_where p [] = []
  delete_where p (x ∷ xs) = if p x then delete_where p xs else x ∷ delete_where p xs

  pub delete-All {κ} :
      (P : A → Type κ) (p : A → Bool) (xs : List A) → All P xs → All P (delete_where p xs)
  delete-All P p [] a = tt
  delete-All P p (x ∷ xs) a = elim (Bool-cases (p x)) [
    | inl e ↦ rw e (delete-All P p xs a.1)
    | inr e ↦ rw e (a.0, delete-All P p xs a.1)
  ]

  delete-any : (p q : A → Bool) (xs : List A) → any q xs ≡ false → any q (delete_where p xs) ≡ false
  delete-any p q [] h = refl
  delete-any p q (x ∷ xs) h = ground (arith, delete-any p q xs)

  pub delete-DistinctKeys :
      (p : A → Bool) (xs : List A) → DistinctKeys xs → DistinctKeys (delete_where p xs)
  delete-DistinctKeys p [] d = tt
  delete-DistinctKeys p (x ∷ xs) d = elim (Bool-cases (p x)) [
    | inl e ↦ rw e (delete-DistinctKeys p xs d.1)
    | inr e ↦ rw e (delete-any p (has_key (key x)) xs d.0, delete-DistinctKeys p xs d.1)
  ]

  each_differs :
      (n : ℕ) (xs : List A) → any (has_key n) xs ≡ false → All (λ x. has_key n x ≡ false) xs
  each_differs n [] h = tt
  each_differs n (x ∷ xs) h = (ground arith, each_differs n xs (ground arith))

  found_later :
      (x y : A) (xs : List A)
      → has_key (key x) y ≡ false
      → find (has_key (key y)) xs ≡ some y
      → find (has_key (key y)) (x ∷ xs) ≡ some y
  found_later x y xs h e = ground (arith, ==_iff (key x) (key y), ==_iff (key y) (key x))

  -- Where the keys are distinct, every row is found by its key.
  pub found_each :
      (xs : List A)
      → DistinctKeys xs
      → All (λ x. ◌≡◌ {A = Option A} (find (has_key (key x)) xs) (some x)) xs
  found_each [] d = tt
  found_each (x ∷ xs) d = (
    rw (==_refl (key x)) refl,
    All-map xs (λ y h. found_later x y xs h.0 h.1)
        (All-zip (λ y. has_key (key x) y ≡ false)
          (λ y. ◌≡◌ {A = Option A} (find (has_key (key y)) xs) (some y)) xs
          (each_differs (key x) xs d.0) (found_each xs d.1)),
  )
