-- ===== src/LandedCost/Reference.antt =====
-- The largest-remainder method on plain numbers: the floor shares, and one more for the first
-- `left` of a list of indices.
use native.Mathlib.Nat.{div-add-mod, mod-lt}
use native.Mathlib.Decide.{dec_le}
use arcus_invest_backend.Base.{
  ℕ, zero, suc, ◌+◌, ◌-◌, ◌*◌, ◌/◌, ◌%◌, ◌≤◌, ◌<◌, ◌==◌, ◌≡◌, refl, ap, List, [], ◌∷◌, arith,
  length, All, if◌then◌else◌, count,
}

abbrev pub sum : List ℕ → ℕ
sum [] = 0
sum (x ∷ xs) = x + sum xs

abbrev pub floors : ℕ → ℕ → List ℕ → List ℕ
floors t W [] = []
floors t W (w ∷ ws) = (t * w / W) ∷ floors t W ws

abbrev pub bump : ℕ → List ℕ → List ℕ
bump i [] = []
bump zero (x ∷ xs) = suc x ∷ xs
bump (suc i) (x ∷ xs) = x ∷ bump i xs

abbrev pub give : ℕ → List ℕ → List ℕ → List ℕ
give zero is xs = xs
give (suc l) [] xs = xs
give (suc l) (i ∷ is) xs = give l is (bump i xs)

-- The shares hold most of the charge: less than one unit a line is left.
remainders : ℕ → ℕ → List ℕ → ℕ
remainders t W [] = 0
remainders t W (w ∷ ws) = t * w % W + remainders t W ws

floors-remainders :
    (t W : ℕ) (ws : List ℕ) → t * sum ws ≡ W * sum (floors t W ws) + remainders t W ws
unfolding remainders
floors-remainders t W [] = omega arith
floors-remainders t W (w ∷ ws) = omega (arith, div-add-mod (t * w) W, floors-remainders t W ws)

remainders-lt : (t W : ℕ) (ws : List ℕ) → 0 < W → remainders t W ws + length ws ≤ length ws * W
unfolding remainders
remainders-lt t W [] h = omega arith
remainders-lt t W (w ∷ ws) h = omega (arith, mod-lt (t * w) h, remainders-lt t W ws h)

gap : (W d n : ℕ) → 0 < W → W * d + n ≤ n * W → d ≤ n
gap W d n w h = elim (dec_le d n) [
  | yes p ↦ p
  | no p ↦
      let e : d ≡ n + 1 + (d - n - 1) = omega arith in
      absurd (omega (arith, ap (λ (z : ℕ). W * z) e))
]

bounded : (t S W R n : ℕ) → 0 < W → t * W ≡ W * S + R → R + n ≤ n * W → (S ≤ t) × (t - S ≤ n)
bounded t S W R n h e r =
    let below : S ≤ t = grind arith in
    let split : t ≡ S + (t - S) = omega arith in
    (below, gap W (t - S) n h (omega (arith, ap (λ (z : ℕ). W * z) split)))

pub left-le-length :
    (t : ℕ) (ws : List ℕ)
    → 0 < sum ws
    → (sum (floors t (sum ws) ws) ≤ t) × (t - sum (floors t (sum ws) ws) ≤ length ws)
left-le-length t ws h =
    bounded t (sum (floors t (sum ws) ws)) (sum ws) (remainders t (sum ws) ws) (length ws) h
      (floors-remainders t (sum ws) ws) (remainders-lt t (sum ws) ws h)

pub length-bump : (i : ℕ) (xs : List ℕ) → length (bump i xs) ≡ length xs
length-bump i [] = refl
length-bump zero (x ∷ xs) = refl
length-bump (suc i) (x ∷ xs) = omega (arith, length-bump i xs)

sum-bump : (i : ℕ) (xs : List ℕ) → i < length xs → sum (bump i xs) ≡ suc (sum xs)
sum-bump i [] h = elim h [ ]
sum-bump zero (x ∷ xs) h = omega arith
sum-bump (suc i) (x ∷ xs) h = omega (arith, sum-bump i xs)

-- Handing out `l` units to as many indices in range adds `l` to the sum.
pub sum-give :
    (l : ℕ) (is xs : List ℕ)
    → l ≤ length is
    → All (λ i. i < length xs) is
    → sum (give l is xs) ≡ sum xs + l
sum-give zero is xs h a = omega arith
sum-give (suc l) [] xs h a = absurd (omega arith)
sum-give (suc l) (i ∷ is) xs h a =
    omega (
      arith,
      sum-bump i xs a.0,
      sum-give l is (bump i xs) (omega arith) (rw (length-bump i xs) a.1),
    )

pub length-give : (l : ℕ) (is xs : List ℕ) → length (give l is xs) ≡ length xs
length-give zero is xs = refl
length-give (suc l) [] xs = refl
length-give (suc l) (i ∷ is) xs = omega (arith, length-give l is (bump i xs), length-bump i xs)

-- The entry at an index, 0 past the end.
abbrev pub at : List ℕ → ℕ → ℕ
at [] k = 0
at (x ∷ xs) zero = x
at (x ∷ xs) (suc k) = at xs k

abbrev pub occurs : ℕ → List ℕ → ℕ
occurs k is = count (λ i. i == k) is

at-bump :
    (i k : ℕ) (xs : List ℕ)
    → at xs k ≤ at (bump i xs) k × (at (bump i xs) k ≤ at xs k + (if i == k then 1 else 0))
at-bump i k [] = ground arith
at-bump zero zero (x ∷ xs) = ground arith
at-bump zero (suc k) (x ∷ xs) = ground arith
at-bump (suc i) zero (x ∷ xs) = ground arith
at-bump (suc i) (suc k) (x ∷ xs) = ground (arith, at-bump i k xs)

-- An entry grows by no more than its index occurs.
pub at-give :
    (l k : ℕ) (is xs : List ℕ)
    → (at xs k ≤ at (give l is xs) k) × (at (give l is xs) k ≤ at xs k + occurs k is)
at-give zero k is xs = omega arith
at-give (suc l) k [] xs = omega arith
at-give (suc l) k (i ∷ is) xs = omega (arith, at-bump i k xs, at-give l k is (bump i xs))
