-- ===== src/Stock/Ledger.antt =====
-- Stock movements and the balances that are computed from them. A quantity is an integer, and the
-- ledger lists its newest movement first.
use arcus_invest_backend.Base.{
  ℕ, ℤ, pos, negsuc, ◌+ℤ◌, ltb_ℤ, eqb_ℤ, Bool, true, false, ◌&&◌, not, Option, List, [], ◌∷◌, ◌==◌,
  any, if◌then◌else◌,
}
use arcus_invest_backend.Base.Text.{Text, is_empty}

-- The kinds of movement; any other text is no kind.
pub data StockKind : Type 0 where
  opening receipt sale return_in adjustment write_off : StockKind
  other_kind : Text → StockKind

pub record StockMovement : Type 0 where
  pub product_id : ℕ
  pub kind : StockKind
  pub quantity : ℤ
  pub reason : Text
  pub unit_cost : ℤ
  pub opportunity_id : Option ℕ
  pub expense_id : Option ℕ
  pub counter_sale_id : Option ℕ
  pub occurred_at : ℕ
  pub actor_id : Option ℕ

pub record Shelf : Type 0 where
  pub products : List ℕ
  pub movements : List StockMovement

unfoldable pub stock_direction : StockKind → ℤ
stock_direction StockKind.opening = pos 1
stock_direction StockKind.receipt = pos 1
stock_direction StockKind.return_in = pos 1
stock_direction StockKind.sale = negsuc 0
stock_direction StockKind.write_off = negsuc 0
stock_direction StockKind.adjustment = pos 0
stock_direction (StockKind.other_kind t) = pos 0

abbrev pub is_adjustment : StockKind → Bool
is_adjustment StockKind.adjustment = true
is_adjustment _ = false

-- The kinds that need a reason.
abbrev pub needs_reason : StockKind → Bool
needs_reason StockKind.adjustment = true
needs_reason StockKind.write_off = true
needs_reason _ = false

-- The complaints of `ValidateMovement`, in its order; `valid` is the empty text.
pub data MovementCheck : Type 0 where
  valid zero_units unknown_kind must_add must_remove missing_reason : MovementCheck

unfoldable pub validate_movement : StockMovement → MovementCheck
validate_movement m =
    let want = stock_direction m.kind in
    if eqb_ℤ m.quantity (pos 0)
    then zero_units
    else (if eqb_ℤ want (pos 0) && not (is_adjustment m.kind)
        then unknown_kind
        else (if ltb_ℤ (pos 0) want && ltb_ℤ m.quantity (pos 0)
            then must_add
            else (if ltb_ℤ want (pos 0) && ltb_ℤ (pos 0) m.quantity
                then must_remove
                else (if needs_reason m.kind && is_empty m.reason then missing_reason else valid))))

-- `SELECT SUM(quantity) … WHERE product_id = ?`, where no rows count as 0.
unfoldable pub stock_on_hand : ℕ → List StockMovement → ℤ
stock_on_hand p [] = pos 0
stock_on_hand p (m ∷ ms) =
    let rest = stock_on_hand p ms in if m.product_id == p then m.quantity +ℤ rest else rest

-- The rows of `GROUP BY product_id` with their totals.
unfoldable pub add_level : ℕ → ℤ → List (ℕ × ℤ) → List (ℕ × ℤ)
add_level p q [] = (p, q) ∷ []
add_level p q ((k, n) ∷ ls) = if k == p then (k, q +ℤ n) ∷ ls else (k, n) ∷ add_level p q ls

unfoldable pub stock_levels : List StockMovement → List (ℕ × ℤ)
stock_levels [] = []
stock_levels (m ∷ ms) = add_level m.product_id m.quantity (stock_levels ms)

-- Reading the map, where a missing key is 0.
unfoldable pub level_of : ℕ → List (ℕ × ℤ) → ℤ
level_of p [] = pos 0
level_of p ((k, n) ∷ ls) = if k == p then n else level_of p ls

pub data MovementError : Type 0 where
  unknown_product insufficient_stock : MovementError

pub data Recorded : Type 0 where
  recorded : Shelf → Recorded
  not_recorded : MovementError → Recorded

abbrev pub has_product : ℕ → Shelf → Bool
has_product p s = any (λ k. k == p) s.products

-- `RecordMovement`: one transaction, in which the row lock on the product keeps the balance that
-- is read the balance that is written to.
unfoldable pub record_movement : StockMovement → Shelf → Recorded
record_movement m s =
    if has_product m.product_id s
    then (if ltb_ℤ (stock_on_hand m.product_id s.movements +ℤ m.quantity) (pos 0)
        then not_recorded insufficient_stock
        else recorded (record s { movements = m ∷ s.movements }))
    else not_recorded unknown_product
