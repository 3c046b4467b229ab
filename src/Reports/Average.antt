-- ===== src/Reports/Average.antt =====
-- The weighted average cost of a product, against what its units came in for.
use native.Mathlib.Nat.{mul_comm, mul-add, mul-le-mul_left, le-div_iff_mul-le, div-le_of_le-mul}
use arcus_invest_backend.Base.{
  ℕ, ◌+◌, ◌*◌, ◌/◌, ◌≤◌, ◌<◌, ◌≡◌, refl, ◌∙◌, inl, inr, ℤ, pos, negsuc, ◌+ℤ◌, ltb_ℤ, Bool, true,
  false, ◌&&◌, Option, none, some, List, [], ◌∷◌, arith, All, int_laws, if◌then◌else◌, Bool-cases,
}
use arcus_invest_backend.Base.Int.{◌*ℤ◌}
use arcus_invest_backend.Stock.Ledger.{StockMovement}
use arcus_invest_backend.Reports.Costing.{
  prices, priced_quantity, priced_value, weighted_average_cost,
}

-- A unit cost from `low` to `high`, where the movement prices the product.
abbrev CostsWithin : ℕ → ℕ → ℕ → StockMovement → Type 0
CostsWithin p low high m =
    prices p m ≡ true → (c : ℕ) × (m.unit_cost ≡ pos c) × (low ≤ c) × (c ≤ high)

-- The quantity and the value that the priced rows add up to, both from zero up.
record IsBounded (p low high : ℕ) (ms : List StockMovement) : Type 0 where
  units : ℕ
  worth : ℕ
  units_same : priced_quantity p ms ≡ pos units
  worth_same : priced_value p ms ≡ pos worth
  above : low * units ≤ worth
  below : worth ≤ high * units

units_of : (q : ℤ) → ltb_ℤ (pos 0) q ≡ true → (a : ℕ) × (q ≡ pos a)
units_of (pos a) h = (a, refl)
units_of (negsuc a) h = absurd (ground arith)

times_pos : (a c : ℕ) → pos a *ℤ pos c ≡ pos (a * c)
unfolding ◌*ℤ◌
times_pos a c = ground arith

plus_pos : (a b : ℕ) → pos a +ℤ pos b ≡ pos (a + b)
plus_pos a b = omega int_laws

low_lem : (low a c u w : ℕ) → low ≤ c → low * u ≤ w → low * (a + u) ≤ a * c + w
low_lem low a c u w h k =
    rw (mul-add low a u, mul_comm low a) (omega (arith, mul-le-mul_left a h, k))

high_lem : (high a c u w : ℕ) → c ≤ high → w ≤ high * u → a * c + w ≤ high * (a + u)
high_lem high a c u w h k =
    rw (mul-add high a u, mul_comm high a) (omega (arith, mul-le-mul_left a h, k))

div_low : (low u w : ℕ) → 0 < u → low * u ≤ w → low ≤ w / u
div_low low u w p h = (le-div_iff_mul-le p).1 h

div_high : (high u w : ℕ) → 0 < u → w ≤ high * u → w / u ≤ high
div_high high u w p h = div-le_of_le-mul u (rw (mul_comm u high) h)

cons-IsBounded :
    (p low high : ℕ) (m : StockMovement) (ms : List StockMovement)
    → prices p m ≡ true
    → CostsWithin p low high m
    → IsBounded p low high ms
    → IsBounded p low high (m ∷ ms)
unfolding priced_quantity priced_value
cons-IsBounded p low high m ms priced within b =
    let (c, cost, least, most) = within priced in
    let (a, count) = units_of m.quantity (ground arith) in
    record {
      units = a + b.units;
      worth = a * c + b.worth;
      units_same = rw (priced, count, b.units_same) (plus_pos a b.units);
      worth_same = rw (priced, count, cost, b.worth_same, times_pos a c) (plus_pos (a * c) b.worth);
      above = low_lem low a c b.units b.worth least b.above;
      below = high_lem high a c b.units b.worth most b.below;
    }

ledger-IsBounded :
    (p low high : ℕ) (ms : List StockMovement)
    → All (CostsWithin p low high) ms
    → IsBounded p low high ms
unfolding priced_quantity priced_value
ledger-IsBounded p low high [] h = record {
  units = 0;
  worth = 0;
  units_same = refl;
  worth_same = refl;
  above = omega arith;
  below = omega arith;
}
ledger-IsBounded p low high (m ∷ ms) h = elim (Bool-cases (prices p m)) [
  | inl e ↦ cons-IsBounded p low high m ms e h.0 (ledger-IsBounded p low high ms h.1)
  | inr e ↦
      let b = ledger-IsBounded p low high ms h.1 in
      record {
        units = b.units;
        worth = b.worth;
        units_same = rw e b.units_same;
        worth_same = rw e b.worth_same;
        above = b.above;
        below = b.below;
      }
]

both : (a b : Bool) → (a && b) ≡ true → (a ≡ true) × (b ≡ true)
both a b h = (ground arith, ground arith)

picked :
    {b : Bool} {x c : ℤ}
    → ◌≡◌ {A = Option ℤ} (if b then some x else none) (some c)
    → (b ≡ true) × (c ≡ x)
picked {b = true} {x} {c} h = (refl, ground arith)
picked {b = false} h = absurd (ground arith)

-- Where every movement that prices a product came in at a unit cost from `low` to `high`, the
-- weighted average cost that a deal is charged for it lies from `low` to `high`.
pub average_between :
    (p low high : ℕ) (ms : List StockMovement) (cost : ℤ)
    → All (CostsWithin p low high) ms
    → weighted_average_cost p ms ≡ some cost
    → (c : ℕ) × (cost ≡ pos c) × (low ≤ c) × (c ≤ high)
unfolding weighted_average_cost
average_between p low high ms cost within h =
    let b = ledger-IsBounded p low high ms within in
    let (tests, same) = picked h in
    let (some_units, some_worth) =
      both (ltb_ℤ (pos 0) (priced_quantity p ms)) (ltb_ℤ (pos 0) (priced_value p ms)) tests in
    let enough : 0 < b.units = positive (priced_quantity p ms) b.units b.units_same some_units in
    (
      b.worth / b.units,
      same ∙ rw (b.units_same, b.worth_same) refl,
      div_low low b.units b.worth enough b.above,
      div_high high b.units b.worth enough b.below,
    )
  where
    positive : (q : ℤ) (n : ℕ) → q ≡ pos n → ltb_ℤ (pos 0) q ≡ true → 0 < n
    positive q n e h = ground arith
