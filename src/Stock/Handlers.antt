-- ===== src/Stock/Handlers.antt =====
-- `AdminCreateStockMovement` and `BackfillStockOpeningBalances` (internal/handlers/stock.go).
use arcus_invest_backend.Base.{
  ℕ, ℤ, pos, eqb_ℤ, Bool, true, false, Option, none, some, List, [], ◌∷◌, ◌==◌, any, if◌then◌else◌,
}
use arcus_invest_backend.Base.Text.{Text, codes, trim_space}
use arcus_invest_backend.Stock.Ledger.{
  StockKind, StockMovement, Shelf, MovementCheck, valid, Recorded, recorded, not_recorded,
  unknown_product, insufficient_stock, validate_movement, stock_on_hand, has_product,
  record_movement,
}

pub data MovementReply : Type 0 where
  invalid_product_id product_not_found invalid_body opening_refused conflict failed : MovementReply
  refused : MovementCheck → MovementReply
  created : StockMovement → ℤ → MovementReply

pub record MovementRequest : Type 0 where
  pub kind : StockKind
  pub quantity : ℤ
  pub reason : Text
  pub unit_cost : ℤ
  pub opportunity_id : Option ℕ
  pub expense_id : Option ℕ
  pub occurred_at : Option ℕ

abbrev pub is_opening : StockKind → Bool
is_opening StockKind.opening = true
is_opening _ = false

abbrev pub or_now : Option ℕ → ℕ → ℕ
or_now none now = now
or_now (some t) now = t

-- The row that the handler fills in, with the stamp of `recordMovement`.
abbrev pub movement_of : ℕ → Option ℕ → ℕ → MovementRequest → StockMovement
movement_of now actor p req = record {
  product_id = p;
  kind = req.kind;
  quantity = req.quantity;
  reason = trim_space req.reason;
  unit_cost = req.unit_cost;
  opportunity_id = req.opportunity_id;
  expense_id = req.expense_id;
  counter_sale_id = none;
  occurred_at = or_now req.occurred_at now;
  actor_id = actor;
}

abbrev pub answer : StockMovement → Recorded → Shelf → MovementReply × Shelf
answer m (recorded t) s = (created m (stock_on_hand m.product_id t.movements), t)
answer m (not_recorded insufficient_stock) s = (conflict, s)
answer m (not_recorded unknown_product) s = (failed, s)

abbrev pub post : StockMovement → MovementCheck → Shelf → MovementReply × Shelf
post m valid s = answer m (record_movement m s) s
post m MovementCheck.zero_units s = (refused MovementCheck.zero_units, s)
post m MovementCheck.unknown_kind s = (refused MovementCheck.unknown_kind, s)
post m MovementCheck.must_add s = (refused MovementCheck.must_add, s)
post m MovementCheck.must_remove s = (refused MovementCheck.must_remove, s)
post m MovementCheck.missing_reason s = (refused MovementCheck.missing_reason, s)

abbrev pub post_request : ℕ → Option ℕ → ℕ → MovementRequest → Shelf → MovementReply × Shelf
post_request now actor p req s =
    if is_opening req.kind
    then (opening_refused, s)
    else (let m = movement_of now actor p req in post m (validate_movement m) s)

-- `none` stands for a path that is no id, and for a body that cannot be bound.
unfoldable pub admin_create_stock_movement :
    ℕ → Option ℕ → Option ℕ → Option MovementRequest → Shelf → MovementReply × Shelf
admin_create_stock_movement now actor none body s = (invalid_product_id, s)
admin_create_stock_movement now actor (some p) body s =
    if has_product p s
    then elim body [ none ↦ (invalid_body, s) | some req ↦ post_request now actor p req s ]
    else (product_not_found, s)

-- A product's id and the quantity in its old `stock` column.
pub record LegacyStock : Type 0 where
  pub id : ℕ
  pub stock : ℤ

abbrev pub has_movement : ℕ → List StockMovement → Bool
has_movement p ms = any (λ m. m.product_id == p) ms

abbrev pub opening_movement : ℕ → LegacyStock → StockMovement
opening_movement now l = record {
  product_id = l.id;
  kind = StockKind.opening;
  quantity = l.stock;
  reason = codes "Opening balance carried in when the stock ledger was introduced";
  unit_cost = pos 0;
  opportunity_id = none;
  expense_id = none;
  counter_sale_id = none;
  occurred_at = now;
  actor_id = none;
}

-- The query for products without movements, which runs before any row is written.
unfoldable pub without_movements : List StockMovement → List LegacyStock → List LegacyStock
without_movements ms [] = []
without_movements ms (l ∷ ls) =
    let rest = without_movements ms ls in if has_movement l.id ms then rest else l ∷ rest

unfoldable pub carry_in : ℕ → List LegacyStock → List StockMovement → List StockMovement
carry_in now [] ms = ms
carry_in now (l ∷ ls) ms =
    carry_in now ls (if eqb_ℤ l.stock (pos 0) then ms else opening_movement now l ∷ ms)

-- `BackfillStockOpeningBalances`; `none` is an install with no `stock` column.
unfoldable pub backfill : ℕ → Option (List LegacyStock) → List StockMovement → List StockMovement
backfill now none ms = ms
backfill now (some legacy) ms = carry_in now (without_movements ms legacy) ms
