-- ===== src/Stock/Kinds.antt =====
-- The rules on a movement's kind, and what recording it does to the balances.
use arcus_invest_backend.Base.{
  ℕ, ◌==◌, ◌≡◌, ◌≢◌, ◌↔◌, ℤ, pos, negsuc, ◌+ℤ◌, ◌≤ℤ◌, true, false, Option, List, [], ◌∷◌, arith,
  if◌then◌else◌, +ℤ_comm,
}
use arcus_invest_backend.Base.Text.{Text, is_empty}
use arcus_invest_backend.Stock.Ledger.{
  StockKind, StockMovement, Shelf, recorded, stock_direction, validate_movement, stock_on_hand,
  has_product, record_movement, valid,
}
use arcus_invest_backend.Stock.Balance.{NonNegative, shelf_after, record_movement-NonNegative}

-- What each kind of movement may be: goods come in with a positive quantity and go out with a
-- negative one, a count corrects either way, and a correction or a loss is explained.
abbrev pub IsAllowed : StockKind → ℤ → Text → Type 0
IsAllowed StockKind.opening q reason = pos 1 ≤ℤ q
IsAllowed StockKind.receipt q reason = pos 1 ≤ℤ q
IsAllowed StockKind.return_in q reason = pos 1 ≤ℤ q
IsAllowed StockKind.sale q reason = q ≤ℤ negsuc 0
IsAllowed StockKind.write_off q reason = (q ≤ℤ negsuc 0) × (is_empty reason ≡ false)
IsAllowed StockKind.adjustment q reason = (q ≢ pos 0) × (is_empty reason ≡ false)
IsAllowed (StockKind.other_kind t) q reason = ⊥

module _ (p : ℕ) (q cost : ℤ) (reason : Text) (deal expense sale : Option ℕ) (at : ℕ)
    (actor : Option ℕ) where
  abbrev of_kind : StockKind → StockMovement
  of_kind k = record {
    product_id = p;
    kind = k;
    quantity = q;
    reason = reason;
    unit_cost = cost;
    opportunity_id = deal;
    expense_id = expense;
    counter_sale_id = sale;
    occurred_at = at;
    actor_id = actor;
  }

  validate-IsAllowed :
      (k : StockKind) → validate_movement (of_kind k) ≡ valid → IsAllowed k q reason
  unfolding validate_movement stock_direction
  validate-IsAllowed StockKind.opening h = ground arith
  validate-IsAllowed StockKind.receipt h = ground arith
  validate-IsAllowed StockKind.return_in h = ground arith
  validate-IsAllowed StockKind.sale h = ground arith
  validate-IsAllowed StockKind.write_off h = ground arith
  validate-IsAllowed StockKind.adjustment h = ground arith
  validate-IsAllowed (StockKind.other_kind t) h = ground arith

  IsAllowed-validate :
      (k : StockKind) → IsAllowed k q reason → validate_movement (of_kind k) ≡ valid
  unfolding validate_movement stock_direction
  IsAllowed-validate StockKind.opening h = ground arith
  IsAllowed-validate StockKind.receipt h = ground arith
  IsAllowed-validate StockKind.return_in h = ground arith
  IsAllowed-validate StockKind.sale h = ground arith
  IsAllowed-validate StockKind.write_off h = ground arith
  IsAllowed-validate StockKind.adjustment h = ground arith
  IsAllowed-validate (StockKind.other_kind t) h = absurd h

-- A movement passes the check exactly when its kind allows its quantity and its reason.
pub validate_movement_iff :
    (m : StockMovement) → (validate_movement m ≡ valid) ↔ IsAllowed m.kind m.quantity m.reason
validate_movement_iff m = (
  validate-IsAllowed m.product_id m.quantity m.unit_cost m.reason m.opportunity_id m.expense_id
      m.counter_sale_id m.occurred_at m.actor_id m.kind,
  IsAllowed-validate m.product_id m.quantity m.unit_cost m.reason m.opportunity_id m.expense_id
      m.counter_sale_id m.occurred_at m.actor_id m.kind,
)

-- Recording a movement of a known product that its balance covers changes the balance of that
-- product by the quantity, and no other balance.
record_movement_exact :
    (m : StockMovement) (s : Shelf) (p : ℕ)
    → has_product m.product_id s ≡ true
    → pos 0 ≤ℤ stock_on_hand m.product_id s.movements +ℤ m.quantity
    → (t : Shelf) × (record_movement m s ≡ recorded t)
      × (stock_on_hand p t.movements ≡ (
          if m.product_id == p
          then stock_on_hand p s.movements +ℤ m.quantity
          else stock_on_hand p s.movements))
unfolding record_movement stock_on_hand
record_movement_exact m s p known enough = (
  record s { movements = m ∷ s.movements },
  ground arith,
  ground (arith, +ℤ_comm m.quantity (stock_on_hand p s.movements)),
)

-- Movements recorded one after another, each refused or not.
pub record_all : List StockMovement → Shelf → Shelf
record_all [] s = s
record_all (m ∷ ms) s = record_all ms (shelf_after (record_movement m s) s)

record_all-NonNegative :
    (ms : List StockMovement) (s : Shelf)
    → NonNegative s.movements
    → NonNegative (record_all ms s).movements
unfolding record_all
record_all-NonNegative [] s h = h
record_all-NonNegative (m ∷ ms) s h =
    record_all-NonNegative ms (shelf_after (record_movement m s) s)
      (record_movement-NonNegative m s h)

-- From an empty ledger, whatever movements are asked for, in whatever order, no product is ever held
-- in a quantity below zero.
pub ledger_never_negative :
    (products : List ℕ) (ms : List StockMovement) (p : ℕ)
    → pos 0
      ≤ℤ stock_on_hand p (record_all ms (record { products = products; movements = [] })).movements
unfolding stock_on_hand
ledger_never_negative products ms =
    record_all-NonNegative ms (record { products = products; movements = [] }) (λ p. omega arith)
