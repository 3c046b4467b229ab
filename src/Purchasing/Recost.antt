-- ===== src/Purchasing/Recost.antt =====
-- `AdminAddLandedCostComponent` and `recostReceipt`.
use arcus_invest_backend.Base.{
  ℕ, ℤ, Option, none, some, List, [], ◌∷◌, ◌==◌, find, length, update_where, if◌then◌else◌,
}
use arcus_invest_backend.Approvals.Types.{Caller}
use arcus_invest_backend.LandedCost.Spread.{ok, err}
use arcus_invest_backend.LandedCost.Spread as Spread
use arcus_invest_backend.Stock.Ledger.{StockMovement}
use arcus_invest_backend.Purchasing.Orders.{PurchaseOrderLine}
use arcus_invest_backend.Purchasing.Receipts.{
  GoodsReceipt, GoodsReceiptLine, LandedCostComponent, Office,
}
use arcus_invest_backend.Purchasing.OrderForms.{order_is, actor}
use arcus_invest_backend.Purchasing.Arrivals.{receipt_is, shares_for, costed, unit_cost}
use arcus_invest_backend.Purchasing.Deliveries.{
  ReceiptReply, ComponentRequest, component_error, component_row, component_added, receipt_failed,
}

-- The movement with so many before it gets the cost.
unfoldable pub reprice : ℕ → ℤ → List StockMovement → List StockMovement
reprice n cost [] = []
reprice n cost (m ∷ ms) =
    (if length ms == n then record m { unit_cost = cost } else m) ∷ reprice n cost ms

abbrev reprice_linked : Option ℕ → ℤ → List StockMovement → List StockMovement
reprice_linked none cost ms = ms
reprice_linked (some n) cost ms = reprice n cost ms

abbrev recost_line :
    ℤ → List PurchaseOrderLine → ℤ → GoodsReceiptLine → List StockMovement → List StockMovement
recost_line rate order share l ms =
    reprice_linked l.stock_movement_id (unit_cost rate order share l) ms

-- The loop of `recostReceipt` over the lines and their shares, on the lines and on the ledger.
unfoldable pub recost_lines :
    ℤ → List PurchaseOrderLine → List GoodsReceiptLine → List ℤ → List GoodsReceiptLine
recost_lines rate order [] shares = []
recost_lines rate order (l ∷ ls) [] = l ∷ ls
recost_lines rate order (l ∷ ls) (share ∷ shares) =
    costed rate order share l ∷ recost_lines rate order ls shares

unfoldable pub recost_ledger :
    ℤ
    → List PurchaseOrderLine
    → List GoodsReceiptLine
    → List ℤ
    → List StockMovement
    → List StockMovement
recost_ledger rate order [] shares ms = ms
recost_ledger rate order (l ∷ ls) [] ms = ms
recost_ledger rate order (l ∷ ls) (share ∷ shares) ms =
    recost_ledger rate order ls shares (recost_line rate order share l ms)

abbrev pub recosted :
    ℕ → List LandedCostComponent → List PurchaseOrderLine → List ℤ → GoodsReceipt → GoodsReceipt
recosted now components order shares r = record r {
  components = components;
  lines = recost_lines r.exchange_rate order r.lines shares;
  apportioned_at = some now;
}

abbrev pub recost_with :
    ℕ
    → GoodsReceipt
    → List PurchaseOrderLine
    → Spread.Result (List ℤ)
    → Office
    → ReceiptReply × Office
recost_with now r order (err e) s = (receipt_failed, s)
recost_with now r order (ok shares) s = (
  component_added,
  record s {
    receipts = update_where (receipt_is r.id) (recosted now r.components order shares) s.receipts;
    shelf = record s.shelf {
      movements = recost_ledger r.exchange_rate order r.lines shares s.shelf.movements;
    };
  },
)

-- The transaction on a receipt with its new component: its order is loaded for the prices.
abbrev pub recost_receipt : ℕ → GoodsReceipt → Office → ReceiptReply × Office
recost_receipt now r s = elim (find (order_is r.purchase_order_id) s.orders) [
  | none ↦ (receipt_failed, s)
  | some o ↦ recost_with now r o.lines (shares_for r o.lines) s
]

abbrev pub with_component : LandedCostComponent → GoodsReceipt → GoodsReceipt
with_component c r = record r { components = c ∷ r.components }

abbrev pub add_component :
    ℕ → Caller → ComponentRequest → GoodsReceipt → Office → ReceiptReply × Office
add_component now who c r s = elim (component_error c) [
  | some e ↦ (e, s)
  | none ↦ recost_receipt now (with_component (component_row now (actor who s.approvals) c) r) s
]

abbrev pub charge_row :
    ℕ → Caller → Option ComponentRequest → GoodsReceipt → Office → ReceiptReply × Office
charge_row now who none r s = (ReceiptReply.invalid_body, s)
charge_row now who (some c) r s = add_component now who c r s

-- `AdminAddLandedCostComponent`
unfoldable pub admin_add_landed_cost_component :
    ℕ → Caller → Option ℕ → Option ComponentRequest → Office → ReceiptReply × Office
admin_add_landed_cost_component now who none body s = (ReceiptReply.invalid_id, s)
admin_add_landed_cost_component now who (some n) body s = elim (find (receipt_is n) s.receipts) [
  | none ↦ (ReceiptReply.not_found, s)
  | some r ↦ charge_row now who body r s
]
