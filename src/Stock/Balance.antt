-- ===== src/Stock/Balance.antt =====
-- The balances that movements leave, and the two queries that read them.
use arcus_invest_backend.Base.{
  ℕ, ◌==◌, ◌≡◌, refl, ◌⊎◌, inl, inr, ℤ, pos, ◌+ℤ◌, ◌≤ℤ◌, List, [], ◌∷◌, arith, if◌then◌else◌,
  ==_iff, +ℤ_parts, int_laws,
}
use arcus_invest_backend.Stock.Ledger.{
  StockMovement, Shelf, Recorded, recorded, not_recorded, stock_on_hand, add_level, stock_levels,
  level_of, record_movement,
}

-- No product is held in a quantity below zero.
abbrev pub NonNegative : List StockMovement → Type 0
NonNegative ms = (p : ℕ) → pos 0 ≤ℤ stock_on_hand p ms

abbrev pub shelf_after : Recorded → Shelf → Shelf
shelf_after (recorded t) s = t
shelf_after (not_recorded e) s = s

record_movement-cases :
    (m : StockMovement) (s : Shelf)
    → (shelf_after (record_movement m s) s ≡ s)
      ⊎ ((record_movement m s ≡ recorded (record s { movements = m ∷ s.movements }))
          × (pos 0 ≤ℤ stock_on_hand m.product_id s.movements +ℤ m.quantity))
unfolding record_movement
record_movement-cases m s = ground arith

add_movement-NonNegative :
    (m : StockMovement) (ms : List StockMovement)
    → pos 0 ≤ℤ stock_on_hand m.product_id ms +ℤ m.quantity
    → NonNegative ms
    → NonNegative (m ∷ ms)
unfolding stock_on_hand
add_movement-NonNegative m ms enough h p = ground (
  arith,
  h p,
  +ℤ_parts (stock_on_hand m.product_id ms) m.quantity,
  +ℤ_parts m.quantity (stock_on_hand p ms),
  ==_iff m.product_id p,
)

-- Whatever movement is asked for, recorded or refused, no balance falls below zero.
pub record_movement-NonNegative :
    (m : StockMovement) (s : Shelf)
    → NonNegative s.movements
    → NonNegative (shelf_after (record_movement m s) s).movements
record_movement-NonNegative m s h = elim (record_movement-cases m s) [
  | inl same ↦ rw same h
  | inr (done, enough) ↦ rw done (add_movement-NonNegative m s.movements enough h)
]

+ℤ_zero : (a : ℤ) → a +ℤ pos 0 ≡ a
+ℤ_zero a = omega int_laws

level_of-add_level :
    (p k : ℕ) (q : ℤ) (ls : List (ℕ × ℤ))
    → level_of p (add_level k q ls) ≡ (if k == p then q +ℤ level_of p ls else level_of p ls)
unfolding level_of add_level
level_of-add_level p k q [] = ground (arith, +ℤ_zero q)
level_of-add_level p k q ((j, n) ∷ ls) = ground (arith, level_of-add_level p k q ls)

-- The one query over all products and the query for one product read the same balance.
pub stock_levels-on_hand :
    (p : ℕ) (ms : List StockMovement) → level_of p (stock_levels ms) ≡ stock_on_hand p ms
unfolding stock_levels stock_on_hand level_of
stock_levels-on_hand p [] = refl
stock_levels-on_hand p (m ∷ ms) = ground (
  arith,
  level_of-add_level p m.product_id m.quantity (stock_levels ms),
  stock_levels-on_hand p ms,
)
