-- ===== src/Purchasing/ArrivalMoves.antt =====
-- The steps that the receipt of goods and late charges take.
use arcus_invest_backend.Base.{
  ℕ, ℤ, ◌≡◌, refl, subst, sym, ◌∙◌, arith, update_where, update_where-All, any-update_where, inl,
  inr, true, Option, none, some, List, ◌∷◌, find, any, Bool-cases, Option-cases,
}
use arcus_invest_backend.Approvals.Types.{Caller}
use arcus_invest_backend.LandedCost.Spread.{ok, err}
use arcus_invest_backend.LandedCost.Spread as Spread
use arcus_invest_backend.Stock.Ledger.{insufficient_stock, unknown_product}
use arcus_invest_backend.Purchasing.Orders.{PurchaseOrder, PurchaseOrderLine}
use arcus_invest_backend.Purchasing.Receipts.{
  GoodsReceipt, LandedCostComponent, Office, received_by_line,
}
use arcus_invest_backend.Purchasing.Desk.{set_status}
use arcus_invest_backend.Purchasing.OrderForms.{order_is, actor, or_now}
use arcus_invest_backend.Purchasing.Arrivals.{
  Posted, posted, not_posted, refreshed, refresh_purchase_order_status, file_receipt,
  apportion_and_post, shares_for, receive, receive_request, receive_row, new_receipt, receipt_is,
  receive_body, post_lines, admin_receive_goods,
}
use arcus_invest_backend.Purchasing.Deliveries.{
  ReceiptRequest, ComponentRequest, is_receivable, receipt_error, receipt_defaults, component_error,
  component_row,
}
use arcus_invest_backend.Purchasing.Recost.{
  charge_row, recost_with, recosted, recost_receipt, with_component, add_component,
  admin_add_landed_cost_component,
}
use arcus_invest_backend.Purchasing.Quantities.{for_order}
use arcus_invest_backend.Purchasing.Filled.{quantities, IsFilled, AreFilled}
use arcus_invest_backend.Purchasing.Postings.{
  KeepsQuantities, post_lines-KeepsQuantities, quantities-recost_lines, accepted-IsFilled,
}
use arcus_invest_backend.Purchasing.Edges.{refreshed-Edge, stay}
use arcus_invest_backend.Purchasing.Alive.{Moved, IsAlive, unmoved, changed-Moved}

file-Moved :
    (n now : ℕ) (o : PurchaseOrder) (r : GoodsReceipt) (p : Posted) (s : Office)
    → IsAlive s
    → find (order_is r.purchase_order_id) s.orders ≡ some o
    → is_receivable o.status ≡ true
    → IsFilled (quantities r.lines)
    → KeepsQuantities r.lines p
    → Moved n s (file_receipt now r.purchase_order_id r p s).1
unfolding refresh_purchase_order_status
file-Moved n now o r (not_posted insufficient_stock) s w found h full keeps = unmoved n s w
file-Moved n now o r (not_posted unknown_product) s w found h full keeps = unmoved n s w
file-Moved n now o r (posted ls f) s w found h full keeps =
    let row = record r { lines = ls; apportioned_at = some now } in
    let received = received_by_line r.purchase_order_id (row ∷ s.receipts) in
    changed-Moved n r.purchase_order_id (λ x. set_status (refreshed received x) x) s
      (row ∷ s.receipts) w (subst IsFilled (sym keeps) full, w.filled) (λ k a. ground arith)
      (λ x. refl) found (refreshed-Edge received o h) (λ a. ground arith)

receive-Moved :
    (n now : ℕ) (o : PurchaseOrder) (r : GoodsReceipt) (s : Office)
    → IsAlive s
    → find (order_is r.purchase_order_id) s.orders ≡ some o
    → is_receivable o.status ≡ true
    → IsFilled (quantities r.lines)
    → Moved n s (receive now r.purchase_order_id r o.lines s).1
receive-Moved n now o r s w found h full = elim (Bool-cases (any (receipt_is r.id) s.receipts)) [
  | inl e ↦ rw (e, receive) (unmoved n s w)
  | inr e ↦ rw (e, receive) (go (shares_for r o.lines))
]
  where
    go :
        (shares : Spread.Result (List _))
        → Moved n s (apportion_and_post now r.purchase_order_id r o.lines shares s).1
    go (err e) = unmoved n s w
    go (ok shares) =
        file-Moved n now o r
          (post_lines r.received_at r.received_by_id r.exchange_rate o.lines r.lines shares s.shelf)
          s w found h full
          (post_lines-KeepsQuantities r.received_at r.received_by_id r.exchange_rate o.lines r.lines
            shares s.shelf)

receive_body-Moved :
    (n now id : ℕ) (who : Caller) (body : Option ReceiptRequest) (m : ℕ) (o : PurchaseOrder)
    (s : Office)
    → IsAlive s
    → find (order_is m) s.orders ≡ some o
    → is_receivable o.status ≡ true
    → Moved n s (receive_body now id who body m o s).1
receive_body-Moved n now id who none m o s w found h = unmoved n s w
receive_body-Moved n now id who (some r) m o s w found h =
    let given = receipt_defaults o.exchange_rate r in
    elim (Option-cases (receipt_error (received_by_line m s.receipts) o.lines given)) [
      | inr (x, e) ↦ rw (e, receive_body, receive_request) (unmoved n s w)
      | inl e ↦
          rw (e, receive_body, receive_request)
            (receive-Moved n now o
              (new_receipt (or_now r.received_at now) id m (actor who s.approvals) given) s w found
              h (accepted-IsFilled (received_by_line m s.receipts) o.lines given e))
    ]

pub admin_receive-Moved :
    (n now id : ℕ) (who : Caller) (path : Option ℕ) (body : Option ReceiptRequest) (s : Office)
    → IsAlive s
    → Moved n s (admin_receive_goods now id who path body s).1
unfolding admin_receive_goods
admin_receive-Moved n now id who none body s w = unmoved n s w
admin_receive-Moved n now id who (some m) body s w =
    elim (Option-cases (find (order_is m) s.orders)) [
      | inl e ↦ rw (e, admin_receive_goods) (unmoved n s w)
      | inr (o, found) ↦ elim (Bool-cases (is_receivable o.status)) [
        | inr e ↦ rw (found, admin_receive_goods) (rw (e, receive_row) (unmoved n s w))
        | inl e ↦
            rw (found, admin_receive_goods)
              (rw (e, receive_row) (receive_body-Moved n now id who body m o s w found e))
      ]
    ]

recosted-AreFilled :
    (now : ℕ) (components : List LandedCostComponent) (order : List PurchaseOrderLine)
    (shares : List ℤ) (m : ℕ) (rs : List GoodsReceipt)
    → AreFilled rs
    → AreFilled (update_where (receipt_is m) (recosted now components order shares) rs)
recosted-AreFilled now components order shares m rs h =
    update_where-All (λ r. IsFilled (quantities r.lines)) (receipt_is m)
      (recosted now components order shares) rs
      (λ r t k.
        subst IsFilled (sym (quantities-recost_lines r.exchange_rate order r.lines shares)) k)
      h

recost-Moved :
    (n now : ℕ) (r : GoodsReceipt) (order : List PurchaseOrderLine)
    (shares : Spread.Result (List ℤ)) (s : Office)
    → IsAlive s
    → Moved n s (recost_with now r order shares s).1
recost-Moved n now r order (err e) s w = unmoved n s w
recost-Moved n now r order (ok shares) s w =
    let f = recosted now r.components order shares in
    record {
      edge = stay;
      backs = λ a.
          any-update_where (for_order n) (receipt_is r.id) f s.receipts (λ x. refl) ∙ w.backed n a;
      fills = recosted-AreFilled now r.components order shares r.id s.receipts w.filled;
    }

recost_receipt-Moved :
    (n now : ℕ) (r : GoodsReceipt) (s : Office) → IsAlive s → Moved n s (recost_receipt now r s).1
recost_receipt-Moved n now r s w =
    elim (Option-cases (find (order_is r.purchase_order_id) s.orders)) [
      | inl e ↦ rw (e, recost_receipt) (unmoved n s w)
      | inr (o, e) ↦
          rw (e, recost_receipt) (recost-Moved n now r o.lines (shares_for r o.lines) s w)
    ]

charge_row-Moved :
    (n now : ℕ) (who : Caller) (body : Option ComponentRequest) (r : GoodsReceipt) (s : Office)
    → IsAlive s
    → Moved n s (charge_row now who body r s).1
charge_row-Moved n now who none r s w = unmoved n s w
charge_row-Moved n now who (some c) r s w = elim (Option-cases (component_error c)) [
  | inr (x, e) ↦ rw (e, charge_row, add_component) (unmoved n s w)
  | inl e ↦
      rw (e, charge_row, add_component)
        (recost_receipt-Moved n now (with_component (component_row now (actor who s.approvals) c) r)
          s w)
]

pub admin_charge-Moved :
    (n now : ℕ) (who : Caller) (path : Option ℕ) (body : Option ComponentRequest) (s : Office)
    → IsAlive s
    → Moved n s (admin_add_landed_cost_component now who path body s).1
unfolding admin_add_landed_cost_component
admin_charge-Moved n now who none body s w = unmoved n s w
admin_charge-Moved n now who (some m) body s w =
    elim (Option-cases (find (receipt_is m) s.receipts)) [
      | inl e ↦ rw (e, admin_add_landed_cost_component) (unmoved n s w)
      | inr (r, e) ↦ rw (e, admin_add_landed_cost_component) (charge_row-Moved n now who body r s w)
    ]
