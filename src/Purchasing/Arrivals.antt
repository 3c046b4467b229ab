-- ===== src/Purchasing/Arrivals.antt =====
-- `AdminReceiveGoods`, `apportionAndPost` and `refreshPurchaseOrderStatus`. The transaction is one
-- step, and leaves the tables as they were when it fails.
use arcus_invest_backend.Base.{
  ℕ, suc, ℤ, pos, negsuc, ◌+ℤ◌, ◌*ℤ◌, Bool, ◌&&◌, not, Option, none, some, List, [], ◌∷◌, ◌==◌,
  find, any, length, if◌then◌else◌,
}
use arcus_invest_backend.Approvals.Types.{Caller}
use arcus_invest_backend.LandedCost.Spread.{ok, err}
use arcus_invest_backend.LandedCost.Spread as Spread
use arcus_invest_backend.LandedCost.Receipt.{LineBasisWeight, apportion_receipt}
use arcus_invest_backend.Stock.Ledger.{
  StockKind, StockMovement, Shelf, MovementError, recorded, not_recorded, insufficient_stock,
  unknown_product, record_movement,
}
use arcus_invest_backend.Purchasing.Orders.{
  PoStatus, PurchaseOrder, PurchaseOrderLine, at_rate, quot_ℤ,
}
use arcus_invest_backend.Purchasing.Receipts.{
  GoodsReceipt, GoodsReceiptLine, Office, received_by_line, total_components, purchase_order_json,
  no_lines, got_less, got_some,
}
use arcus_invest_backend.Purchasing.Desk.{set_status, change_order}
use arcus_invest_backend.Purchasing.OrderForms.{order_is, line_is, actor, or_now}
use arcus_invest_backend.Purchasing.Deliveries.{
  ReceiptReply, ReceiptRequest, component_rows, is_receivable, load_failed, not_receivable,
  receipt_defaults, receipt_error, receipt_failed, receipt_lines, received_goods, stock_conflict,
}

-- `orderLines[id]`: the price and the product of an order line, where a missing key has neither.
abbrev price_of : ℕ → List PurchaseOrderLine → ℤ
price_of n ls = elim (find (line_is n) ls) [ none ↦ pos 0 | some l ↦ l.unit_price ]

abbrev pub product_of : ℕ → List PurchaseOrderLine → Option ℕ
product_of n ls = elim (find (line_is n) ls) [ none ↦ none | some l ↦ l.product_id ]

-- The supplier's price for what arrived of a line, at the rate of the receipt.
unfoldable pub goods_zmw : ℤ → List PurchaseOrderLine → GoodsReceiptLine → ℤ
goods_zmw rate order l = at_rate (l.quantity *ℤ price_of l.purchase_order_line_id order) rate

-- Whole ngwee and whole grams, as `int64(x + 0.5)` cuts them.
abbrev weight_row : ℤ → List PurchaseOrderLine → GoodsReceiptLine → LineBasisWeight
weight_row rate order l = record {
  value_ngwee = quot_ℤ (goods_zmw rate order l +ℤ pos 5000) 10000;
  quantity = l.quantity;
  weight_grams = quot_ℤ (l.weight +ℤ pos 500) 1000;
}

abbrev weight_rows : ℤ → List PurchaseOrderLine → List GoodsReceiptLine → List LineBasisWeight
weight_rows rate order [] = []
weight_rows rate order (l ∷ ls) = weight_row rate order l ∷ weight_rows rate order ls

abbrev pub over : ℤ → ℤ → ℤ
over a (pos d) = quot_ℤ a d
over a (negsuc d) = quot_ℤ a (suc d) *ℤ negsuc 0

unfoldable pub unit_cost : ℤ → List PurchaseOrderLine → ℤ → GoodsReceiptLine → ℤ
unit_cost rate order share l = over (goods_zmw rate order l +ℤ share) l.quantity

abbrev pub costed : ℤ → List PurchaseOrderLine → ℤ → GoodsReceiptLine → GoodsReceiptLine
costed rate order share l = record l {
  apportioned_zmw = share;
  unit_cost_zmw = unit_cost rate order share l;
}

abbrev pub arrival_movement : ℕ → Option ℕ → ℕ → GoodsReceiptLine → StockMovement
arrival_movement at by product l = record {
  product_id = product;
  kind = StockKind.receipt;
  quantity = l.quantity;
  reason = [];
  unit_cost = l.unit_cost_zmw;
  opportunity_id = none;
  expense_id = none;
  counter_sale_id = none;
  occurred_at = at;
  actor_id = by;
}

pub data Posted : Type 0 where
  posted : List GoodsReceiptLine → Shelf → Posted
  not_posted : MovementError → Posted

abbrev pub add_posted : GoodsReceiptLine → Posted → Posted
add_posted l (posted ls f) = posted (l ∷ ls) f
add_posted l (not_posted e) = not_posted e

-- The loop of `apportionAndPost`; there are as many shares as lines.
unfoldable pub post_lines :
    ℕ → Option ℕ → ℤ → List PurchaseOrderLine → List GoodsReceiptLine → List ℤ → Shelf → Posted
post_lines at by rate order [] shares f = posted [] f
post_lines at by rate order (l ∷ ls) [] f = posted (l ∷ ls) f
post_lines at by rate order (l ∷ ls) (share ∷ shares) f =
    let row = costed rate order share l in
    elim (product_of l.purchase_order_line_id order) [
      | none ↦ add_posted row (post_lines at by rate order ls shares f)
      | some product ↦ elim (record_movement (arrival_movement at by product row) f) [
        | not_recorded e ↦ not_posted e
        | recorded g ↦
            add_posted (record row { stock_movement_id = some (length f.movements) })
              (post_lines at by rate order ls shares g)
      ]
    ]

-- `refreshPurchaseOrderStatus`
unfoldable pub refreshed : (ℕ → ℤ) → PurchaseOrder → PoStatus
refreshed received o =
    if not (any (got_less received) o.lines) && not (no_lines o.lines)
    then PoStatus.received
    else (if any (got_some received) o.lines then PoStatus.partly_received else o.status)

unfoldable pub refresh_purchase_order_status : ℕ → Office → Office
refresh_purchase_order_status n s =
    change_order n (λ o. set_status (refreshed (received_by_line n s.receipts) o) o) s

abbrev pub shown : ℕ → Office → ReceiptReply
shown n s = elim (find (order_is n) s.orders) [
  | none ↦ load_failed
  | some o ↦ received_goods (purchase_order_json o (received_by_line n s.receipts))
]

abbrev pub new_receipt : ℕ → ℕ → ℕ → Option ℕ → ReceiptRequest → GoodsReceipt
new_receipt at id n by r = record {
  id = id;
  purchase_order_id = n;
  received_at = at;
  exchange_rate = r.exchange_rate;
  basis = r.basis;
  apportioned_at = none;
  received_by_id = by;
  lines = receipt_lines r.lines;
  components = component_rows at by r.components;
}

abbrev pub receipt_is : ℕ → GoodsReceipt → Bool
receipt_is n r = r.id == n

abbrev pub file_receipt : ℕ → ℕ → GoodsReceipt → Posted → Office → ReceiptReply × Office
file_receipt now n r (not_posted insufficient_stock) s = (stock_conflict, s)
file_receipt now n r (not_posted unknown_product) s = (receipt_failed, s)
file_receipt now n r (posted ls f) s =
    let row = record r { lines = ls; apportioned_at = some now } in
    let t = refresh_purchase_order_status n (record s { receipts = row ∷ s.receipts; shelf = f }) in
    (shown n t, t)

-- `apportionAndPost` and what follows it in the transaction.
abbrev pub apportion_and_post :
    ℕ
    → ℕ
    → GoodsReceipt
    → List PurchaseOrderLine
    → Spread.Result (List ℤ)
    → Office
    → ReceiptReply × Office
apportion_and_post now n r order (err e) s = (receipt_failed, s)
apportion_and_post now n r order (ok shares) s =
    file_receipt now n r
      (post_lines r.received_at r.received_by_id r.exchange_rate order r.lines shares s.shelf) s

abbrev pub shares_for : GoodsReceipt → List PurchaseOrderLine → Spread.Result (List ℤ)
shares_for r order =
    apportion_receipt r.basis (total_components r.components)
      (weight_rows r.exchange_rate order r.lines)

abbrev pub receive : ℕ → ℕ → GoodsReceipt → List PurchaseOrderLine → Office → ReceiptReply × Office
receive now n r order s =
    if any (receipt_is r.id) s.receipts
    then (receipt_failed, s)
    else apportion_and_post now n r order (shares_for r order) s

abbrev pub receive_request :
    ℕ → ℕ → Caller → ℕ → PurchaseOrder → ReceiptRequest → Office → ReceiptReply × Office
receive_request now id who n o r s =
    elim (receipt_error (received_by_line n s.receipts) o.lines r) [
      | some e ↦ (e, s)
      | none ↦
          receive now n (new_receipt (or_now r.received_at now) id n (actor who s.approvals) r)
            o.lines s
    ]

abbrev pub receive_body :
    ℕ → ℕ → Caller → Option ReceiptRequest → ℕ → PurchaseOrder → Office → ReceiptReply × Office
receive_body now id who none n o s = (ReceiptReply.invalid_body, s)
receive_body now id who (some r) n o s =
    receive_request now id who n o (receipt_defaults o.exchange_rate r) s

abbrev pub receive_row :
    ℕ → ℕ → Caller → Option ReceiptRequest → ℕ → PurchaseOrder → Office → ReceiptReply × Office
receive_row now id who body n o s =
    if is_receivable o.status then receive_body now id who body n o s else (not_receivable, s)

-- `AdminReceiveGoods`, with the identifier of the receipt.
unfoldable pub admin_receive_goods :
    ℕ → ℕ → Caller → Option ℕ → Option ReceiptRequest → Office → ReceiptReply × Office
admin_receive_goods now id who none body s = (ReceiptReply.invalid_id, s)
admin_receive_goods now id who (some n) body s = elim (find (order_is n) s.orders) [
  | none ↦ (ReceiptReply.not_found, s)
  | some o ↦ receive_row now id who body n o s
]
