-- ===== src/Purchasing/ArrivalSteps.antt =====
-- What the receipt of goods does to well-formed orders and receipts.
use arcus_invest_backend.Base.{
  ℕ, ◌≡◌, refl, subst, ◌∙◌, inl, inr, ℤ, ◌≤ℤ◌, true, false, not, ◌&&◌, Option, none, some, List,
  ◌∷◌, arith, find, any, All, All-map, All-zip, find-All, find_sound, Bool-cases, Option-cases,
  ==_iff,
}
use arcus_invest_backend.Base.Tables.{DistinctKeys, found_each}
use arcus_invest_backend.Approvals.Types.{Caller}
use arcus_invest_backend.LandedCost.Spread.{ok, err}
use arcus_invest_backend.LandedCost.Spread as Spread
use arcus_invest_backend.Stock.Ledger.{insufficient_stock, unknown_product}
use arcus_invest_backend.Purchasing.Orders.{PurchaseOrder, PurchaseOrderLine}
use arcus_invest_backend.Purchasing.Receipts.{
  GoodsReceipt, GoodsReceiptLine, Office, no_lines, got_less, got_some, received_by_line, brought,
}
use arcus_invest_backend.Purchasing.Desk.{set_status}
use arcus_invest_backend.Purchasing.OrderForms.{order_is, line_is, actor, or_now}
use arcus_invest_backend.Purchasing.Arrivals.{
  Posted, posted, not_posted, refreshed, refresh_purchase_order_status, file_receipt,
  apportion_and_post, shares_for, receive, receive_request, receive_row, new_receipt, receipt_is,
  receive_body, post_lines, admin_receive_goods,
}
use arcus_invest_backend.Purchasing.Deliveries.{
  ReceiptRequest, is_receivable, receipt_error, receipt_defaults, receipt_lines,
}
use arcus_invest_backend.Purchasing.Quantities.{
  NamesEach, asked, brought-receipt_lines, post_lines-Keeps, Keeps, accepted_bound,
  validated_arrivals, plus_zero,
}
use arcus_invest_backend.Purchasing.Stocked.{is_fresh, IsServed, IsStocked, Fits, receipt-IsStocked}

-- Every line of a request that was let through fits.
pub arrivals_fit :
    (n : ℕ) (rs : List GoodsReceipt) (order : List PurchaseOrderLine) (r : ReceiptRequest)
    (ls : List GoodsReceiptLine)
    → DistinctKeys (λ l. l.id) order
    → NamesEach r.lines
    → receipt_error (received_by_line n rs) order r ≡ none
    → ((line : ℕ) → brought line ls ≡ asked line r.lines)
    → All (λ l. received_by_line n rs l.id ≤ℤ l.quantity) order
    → All (Fits rs n ls) order
arrivals_fit n rs order r ls distinct each valid same within =
    All-map order (λ l h. fits l h.0 h.1)
      (All-zip (λ l. ◌≡◌ {A = Option PurchaseOrderLine} (find (line_is l.id) order) (some l))
        (λ l. received_by_line n rs l.id ≤ℤ l.quantity) order
        (found_each (λ l. l.id) order distinct) within)
  where
    fits :
        (l : PurchaseOrderLine)
        → ◌≡◌ {A = Option PurchaseOrderLine} (find (line_is l.id) order) (some l)
        → received_by_line n rs l.id ≤ℤ l.quantity
        → Fits rs n ls l
    fits l found old =
        elim (accepted_bound (received_by_line n rs) order 1 r.lines l found each
          (validated_arrivals (received_by_line n rs) order r valid)) [
            | inl zero_more ↦
                rw
                  (same l.id, plus_zero (received_by_line n rs l.id) (asked l.id r.lines) zero_more)
                  old
            | inr q ↦ rw (same l.id) q
          ]

pub refreshed-stale :
    (received : ℕ → ℤ) (o : PurchaseOrder)
    → is_receivable o.status ≡ true
    → is_fresh (refreshed received o) ≡ false
unfolding refreshed
refreshed-stale received o h =
    elim (Bool-cases (not (any (got_less received) o.lines) && not (no_lines o.lines))) [
      | inl e ↦ rw e refl
      | inr e ↦ elim (Bool-cases (any (got_some received) o.lines)) [
        | inl d ↦ rw (e, d) refl
        | inr d ↦ rw (e, d) (ground arith)
      ]
    ]

-- A receipt whose lines, once posted, fit their order.
pub file-IsStocked :
    (now : ℕ) (o : PurchaseOrder) (r : GoodsReceipt) (p : Posted) (s : Office)
    → find (order_is r.purchase_order_id) s.orders ≡ some o
    → is_receivable o.status ≡ true
    → ((ls : List GoodsReceiptLine)
        → ((line : ℕ) → brought line ls ≡ brought line r.lines)
        → All (Fits s.receipts r.purchase_order_id ls) o.lines)
    → ((line : ℕ) → Keeps line r.lines p)
    → IsStocked s
    → IsStocked (file_receipt now r.purchase_order_id r p s).1
unfolding refresh_purchase_order_status
file-IsStocked now o r (not_posted insufficient_stock) s found e fits keeps h = h
file-IsStocked now o r (not_posted unknown_product) s found e fits keeps h = h
file-IsStocked now o r (posted ls f) s found e fits keeps h =
    let row = record r { lines = ls; apportioned_at = some now } in
    let received = received_by_line r.purchase_order_id (row ∷ s.receipts) in
    receipt-IsStocked row (λ x. set_status (refreshed received x) x) s (λ x. (refl, refl)) found
      (refreshed-stale received o e) (fits ls keeps) h f

pub receive-IsStocked :
    (now id m : ℕ) (at : ℕ) (by : Option ℕ) (o : PurchaseOrder) (r : ReceiptRequest) (s : Office)
    → find (order_is m) s.orders ≡ some o
    → is_receivable o.status ≡ true
    → NamesEach r.lines
    → receipt_error (received_by_line m s.receipts) o.lines r ≡ none
    → IsStocked s
    → IsStocked (receive now m (new_receipt at id m by r) o.lines s).1
receive-IsStocked now id m at by o r s found e each valid h =
    elim (Bool-cases (any (receipt_is id) s.receipts)) [
      | inl t ↦ rw (t, receive) h
      | inr t ↦ rw (t, receive) (go (shares_for (new_receipt at id m by r) o.lines))
    ]
  where
    served : IsServed s.receipts o
    served = find-All (IsServed s.receipts) (order_is m) s.orders found h.served

    same_order : o.id ≡ m
    same_order = (==_iff o.id m).0 (find_sound (order_is m) s.orders found)

    fits :
        (ls : List GoodsReceiptLine)
        → ((line : ℕ) → brought line ls ≡ brought line (receipt_lines r.lines))
        → All (Fits s.receipts m ls) o.lines
    fits ls same =
        arrivals_fit m s.receipts o.lines r ls served.distinct each valid
          (λ line. same line ∙ brought-receipt_lines line r.lines)
          (subst (λ k. All (λ l. received_by_line k s.receipts l.id ≤ℤ l.quantity) o.lines)
            same_order served.within)

    go :
        (shares : Spread.Result (List ℤ))
        → IsStocked (apportion_and_post now m (new_receipt at id m by r) o.lines shares s).1
    go (err x) = h
    go (ok shares) =
        let row = new_receipt at id m by r in
        file-IsStocked now o row (post_lines at by r.exchange_rate o.lines row.lines shares s.shelf)
          s found e fits
          (λ line. post_lines-Keeps line at by r.exchange_rate o.lines row.lines shares s.shelf) h

-- The lines of a body, where there is one, each name another order line.
abbrev pub BodyNamesEach : Option ReceiptRequest → Type 0
BodyNamesEach none = Unit
BodyNamesEach (some r) = NamesEach r.lines

pub receive_body-IsStocked :
    (now id : ℕ) (who : Caller) (body : Option ReceiptRequest) (m : ℕ) (o : PurchaseOrder)
    (s : Office)
    → find (order_is m) s.orders ≡ some o
    → is_receivable o.status ≡ true
    → BodyNamesEach body
    → IsStocked s
    → IsStocked (receive_body now id who body m o s).1
receive_body-IsStocked now id who none m o s found e each h = h
receive_body-IsStocked now id who (some r) m o s found e each h =
    let given = receipt_defaults o.exchange_rate r in
    elim (Option-cases (receipt_error (received_by_line m s.receipts) o.lines given)) [
      | inr (x, v) ↦ rw (v, receive_body, receive_request) h
      | inl v ↦
          rw (v, receive_body, receive_request)
            (receive-IsStocked now id m (or_now r.received_at now) (actor who s.approvals) o given s
              found e each v h)
    ]

pub admin_receive-IsStocked :
    (now id : ℕ) (who : Caller) (path : Option ℕ) (body : Option ReceiptRequest) (s : Office)
    → BodyNamesEach body
    → IsStocked s
    → IsStocked (admin_receive_goods now id who path body s).1
unfolding admin_receive_goods
admin_receive-IsStocked now id who none body s each h = h
admin_receive-IsStocked now id who (some m) body s each h =
    elim (Option-cases (find (order_is m) s.orders)) [
      | inl e ↦ rw (e, admin_receive_goods) h
      | inr (o, found) ↦ elim (Bool-cases (is_receivable o.status)) [
        | inr e ↦ rw (found, admin_receive_goods) (rw (e, receive_row) h)
        | inl e ↦
            rw (found, admin_receive_goods)
              (rw (e, receive_row) (receive_body-IsStocked now id who body m o s found e each h))
      ]
    ]
