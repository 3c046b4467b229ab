-- ===== src/Stock/Tests.antt =====
-- A small ledger.
use arcus_invest_backend.Base.{
  ℕ, ◌==◌, ◌≡◌, ◌↔◌, refl, ℤ, pos, negsuc, ◌+ℤ◌, ◌≤ℤ◌, Option, none, some, List, [], ◌∷◌,
  if◌then◌else◌, arith,
}
use arcus_invest_backend.Base.Text.{codes}
use arcus_invest_backend.Stock.Ledger.{
  StockKind, StockMovement, Shelf, stock_on_hand, stock_levels, level_of, validate_movement, valid,
}
use arcus_invest_backend.Stock.Handlers.{LegacyStock, backfill}
use arcus_invest_backend.Stock.Balance.{stock_levels-on_hand}
use arcus_invest_backend.Stock.Kinds.{
  IsAllowed, validate_movement_iff, record_all, ledger_never_negative,
}
use arcus_invest_backend.Stock.Backfill.{backfill_idempotent}

abbrev delivery : StockMovement
delivery = record {
  product_id = 7;
  kind = StockKind.receipt;
  quantity = pos 5;
  reason = codes "x";
  unit_cost = pos 0;
  opportunity_id = none;
  expense_id = none;
  counter_sale_id = none;
  occurred_at = 1;
  actor_id = none;
}

abbrev delivered : Shelf
delivered = record { products = 7 ∷ []; movements = delivery ∷ [] }

abbrev sale_of_two : StockMovement
sale_of_two = record delivery { kind = StockKind.sale; quantity = negsuc 1 }

ledger_never_negative_example :
    pos 0
    ≤ℤ stock_on_hand 7
        (record_all
          (delivery ∷ sale_of_two ∷ [])
          (record { products = 7 ∷ []; movements = [] })).movements
ledger_never_negative_example = ledger_never_negative (7 ∷ []) (delivery ∷ sale_of_two ∷ []) 7

enough : pos 0 ≤ℤ stock_on_hand 7 delivered.movements +ℤ negsuc 1
unfolding stock_on_hand arcus_invest_backend.Base.Int.◌+ℤ◌
enough = omega arith

validate_movement_iff_example :
    (validate_movement delivery ≡ valid) ↔ IsAllowed StockKind.receipt (pos 5) (codes "x")
validate_movement_iff_example = validate_movement_iff delivery

stock_levels-on_hand_example :
    level_of 7 (stock_levels (sale_of_two ∷ delivery ∷ []))
    ≡ stock_on_hand 7 (sale_of_two ∷ delivery ∷ [])
stock_levels-on_hand_example = stock_levels-on_hand 7 (sale_of_two ∷ delivery ∷ [])

abbrev old_stock : List LegacyStock
old_stock = record { id = 7; stock = pos 3 } ∷ record { id = 8; stock = pos 4 } ∷ []

backfill_idempotent_example :
    backfill 9 (some old_stock) (backfill 5 (some old_stock) (delivery ∷ []))
    ≡ backfill 5 (some old_stock) (delivery ∷ [])
backfill_idempotent_example = backfill_idempotent 5 9 (some old_stock) (delivery ∷ [])
