-- ===== src/LandedCost/Receipt.antt =====
-- `basisWeights` and `ApportionReceipt`. A kwacha figure is held in millionths of a kwacha, so a
-- ngwee is 10000 of them, and `toNgwee` rounds half away from zero as `math.Round` does. The source
-- computes both conversions in float64, which holds whole numbers exactly up to 2 ^ 53, and cuts the
-- result of `toNgwee` to int64. Here both are exact up to the cut, so they stand for amounts below
-- 2 ^ 53 ngwee whose millionths are not at the edge of a rounding.
use arcus_invest_backend.Base.{
  ℕ, ◌+◌, ◌-◌, ◌*◌, ◌/◌, ltb, ◌≤◌, ◌<◌, ◌≡◌, refl, ℤ, pos, negsuc, neg_ℤ, List, [], ◌∷◌, arith, All,
  if◌then◌else◌,
}
use native.Mathlib.Nat.{mul-le-mul_left}
use arcus_invest_backend.Base.Int.{◌+ℤ◌, ◌*ℤ◌}
use arcus_invest_backend.Base.Text.{Text, codes, text_eq}
use arcus_invest_backend.Base.Words.{half_word}
use arcus_invest_backend.LandedCost.Spread.{Result, ok, err, unknown_basis, apportion_ngwee}
use arcus_invest_backend.LandedCost.Reference.{sum}
use arcus_invest_backend.LandedCost.Refine.{embed}
use arcus_invest_backend.LandedCost.Shares.{counted, sum-ones}
use arcus_invest_backend.LandedCost.Exact.{apportion_exact}

abbrev pub basis_value : Text
basis_value = codes "value"

abbrev pub basis_quantity : Text
basis_quantity = codes "quantity"

abbrev pub basis_weight : Text
basis_weight = codes "weight"

-- `int64` of a whole float64, with what amd64 makes of one that is out of range.
unfoldable pub cut64 : ℤ → ℤ
cut64 (pos n) = if ltb n half_word then pos n else negsuc (half_word - 1)
cut64 (negsuc n) = if ltb n half_word then negsuc n else negsuc (half_word - 1)

unfoldable pub to_ngwee : ℤ → ℤ
to_ngwee (pos m) = cut64 (pos ((m + 5000) / 10000))
to_ngwee (negsuc m) = cut64 (neg_ℤ (pos ((m + 1 + 5000) / 10000)))

unfoldable pub from_ngwee : ℤ → ℤ
from_ngwee n = n *ℤ pos 10000

pub record LineBasisWeight : Type 0 where
  pub value_ngwee : ℤ
  pub quantity : ℤ
  pub weight_grams : ℤ

-- The `switch` on the basis, for one line.
unfoldable pub basis_weight_of : Text → LineBasisWeight → Result ℤ
basis_weight_of basis l =
    if text_eq basis basis_value
    then ok l.value_ngwee
    else (if text_eq basis basis_quantity
        then ok l.quantity
        else (if text_eq basis basis_weight then ok l.weight_grams else err unknown_basis))

abbrev pub add_weight : Result ℤ → Result (List ℤ) → Result (List ℤ)
add_weight (err e) rest = err e
add_weight (ok w) (err e) = err e
add_weight (ok w) (ok ws) = ok (w ∷ ws)

unfoldable pub basis_weights : Text → List LineBasisWeight → Result (List ℤ)
basis_weights basis [] = ok []
basis_weights basis (l ∷ ls) = add_weight (basis_weight_of basis l) (basis_weights basis ls)

abbrev pub each_from_ngwee : List ℤ → List ℤ
each_from_ngwee [] = []
each_from_ngwee (n ∷ ns) = from_ngwee n ∷ each_from_ngwee ns

abbrev pub shares_of : Result (List ℤ) → Result (List ℤ)
shares_of (err e) = err e
shares_of (ok ns) = ok (each_from_ngwee ns)

abbrev pub apportion_weights : ℤ → Result (List ℤ) → Result (List ℤ)
apportion_weights components (err e) = err e
apportion_weights components (ok ws) = shares_of (apportion_ngwee (to_ngwee components) ws)

unfoldable pub apportion_receipt : Text → ℤ → List LineBasisWeight → Result (List ℤ)
apportion_receipt basis components lines = apportion_weights components (basis_weights basis lines)

abbrev pub sum_shares : List ℤ → ℤ
sum_shares [] = pos 0
sum_shares (n ∷ ns) = n +ℤ sum_shares ns

sum_shares-embed : (out : List ℕ) → sum_shares (each_from_ngwee (embed out)) ≡ pos (sum out * 10000)
unfolding from_ngwee ◌*ℤ◌ ◌+ℤ◌
sum_shares-embed [] = refl
sum_shares-embed (n ∷ out) = ground (arith, sum_shares-embed out)

-- An amount of kwacha without a fraction of a ngwee.
abbrev pub IsWholeNgwee : ℤ → Type 0
IsWholeNgwee amount = (n : ℕ) × (amount ≡ pos (n * 10000))

each_from_ngwee-IsWholeNgwee : (out : List ℕ) → All IsWholeNgwee (each_from_ngwee (embed out))
unfolding from_ngwee ◌*ℤ◌
each_from_ngwee-IsWholeNgwee [] = tt
each_from_ngwee-IsWholeNgwee (n ∷ out) = ((n, ground arith), each_from_ngwee-IsWholeNgwee out)

to_ngwee-pos :
    (m : ℕ) → (m + 5000) / 10000 < half_word → to_ngwee (pos m) ≡ pos ((m + 5000) / 10000)
unfolding to_ngwee cut64
to_ngwee-pos m h = ground arith

counted_some : (w : ℕ) (ws : List ℕ) → 1 ≤ sum (counted (w ∷ ws))
counted_some w ws = ground (arith, sum-ones (w ∷ ws))

in_range : (n w : ℕ) (ws : List ℕ) → n * sum (counted (w ∷ ws)) < half_word → n < half_word
in_range n w ws h = omega (arith, mul-le-mul_left n (counted_some w ws), h)

-- Where the weights on the basis are not negative and the charge times the weights that count stays
-- in int64: the receipt is apportioned, each share is a whole number of ngwee, and the shares add up
-- to the whole number of ngwee that the components round to, half a ngwee upwards.
pub receipt_exact :
    (basis : Text) (components w : ℕ) (ws : List ℕ) (lines : List LineBasisWeight)
    → basis_weights basis lines ≡ ok (embed (w ∷ ws))
    → (components + 5000) / 10000 * sum (counted (w ∷ ws)) < half_word
    → (shares : List ℤ) × (ngwee : ℕ) × (apportion_receipt basis (pos components) lines ≡ ok shares)
      × All IsWholeNgwee shares
      × (sum_shares shares ≡ pos (ngwee * 10000))
      × (ngwee * 10000 ≤ components + 5000)
      × (components < ngwee * 10000 + 5000)
unfolding apportion_receipt
receipt_exact basis components w ws lines weights h =
    let whole = to_ngwee-pos components (in_range ((components + 5000) / 10000) w ws h) in
    let (out, done, shared) = apportion_exact ((components + 5000) / 10000) w ws h in
    let exact = shared.exact in
    (
      each_from_ngwee (embed out),
      (components + 5000) / 10000,
      rw (weights, whole, done),
      each_from_ngwee-IsWholeNgwee out,
      rw (sum_shares-embed out, exact),
      omega arith,
      omega arith,
    )
