-- ===== src/Purchasing/RecostSteps.antt =====
-- What a late charge does to well-formed orders and receipts.
use arcus_invest_backend.Base.{
  ℕ, ◌≡◌, refl, ◌∙◌, inl, inr, ℤ, Bool, true, Option, none, some, List, [], ◌∷◌, find, any,
  update_where, any-update_where, All, All-map, Bool-cases, Option-cases,
}
use arcus_invest_backend.Approvals.Types.{Caller}
use arcus_invest_backend.LandedCost.Spread.{ok, err}
use arcus_invest_backend.LandedCost.Spread as Spread
use arcus_invest_backend.Purchasing.Orders.{PurchaseOrder, PurchaseOrderLine}
use arcus_invest_backend.Purchasing.Receipts.{
  GoodsReceipt, GoodsReceiptLine, Office, received_by_line, brought,
}
use arcus_invest_backend.Purchasing.OrderForms.{order_is, actor}
use arcus_invest_backend.Purchasing.Arrivals.{shares_for, receipt_is}
use arcus_invest_backend.Purchasing.Deliveries.{ComponentRequest, component_error, component_row}
use arcus_invest_backend.Purchasing.Recost.{
  charge_row, recost_with, recost_receipt, recost_lines, recosted, with_component, add_component,
  admin_add_landed_cost_component,
}
use arcus_invest_backend.Purchasing.Quantities.{for_order}
use arcus_invest_backend.Purchasing.Stocked.{IsStocked}

brought-recost_lines :
    (line : ℕ) (rate : ℤ) (order : List PurchaseOrderLine) (ls : List GoodsReceiptLine)
    (shares : List ℤ)
    → brought line (recost_lines rate order ls shares) ≡ brought line ls
unfolding brought recost_lines
brought-recost_lines line rate order [] shares = refl
brought-recost_lines line rate order (l ∷ ls) [] = refl
brought-recost_lines line rate order (l ∷ ls) (share ∷ shares) =
    rw (brought-recost_lines line rate order ls shares) refl

received-recosted :
    (n : ℕ) (p : GoodsReceipt → Bool) (f : GoodsReceipt → GoodsReceipt) (rs : List GoodsReceipt)
    (line : ℕ)
    → ((r : GoodsReceipt)
        → ((f r).purchase_order_id ≡ r.purchase_order_id)
          × (brought line (f r).lines ≡ brought line r.lines))
    → received_by_line n (update_where p f rs) line ≡ received_by_line n rs line
unfolding received_by_line
received-recosted n p f [] line same = refl
received-recosted n p f (r ∷ rs) line same = elim (Bool-cases (p r)) [
  | inl e ↦ rw (e, (same r).0, (same r).1, received-recosted n p f rs line same) refl
  | inr e ↦ rw (e, received-recosted n p f rs line same) refl
]

placed-recosted :
    (os : List PurchaseOrder) (p : GoodsReceipt → Bool) (f : GoodsReceipt → GoodsReceipt)
    (rs : List GoodsReceipt)
    → ((r : GoodsReceipt) → (f r).purchase_order_id ≡ r.purchase_order_id)
    → All (λ r. any (order_is r.purchase_order_id) os ≡ true) rs
    → All (λ r. any (order_is r.purchase_order_id) os ≡ true) (update_where p f rs)
placed-recosted os p f [] same h = tt
placed-recosted os p f (r ∷ rs) same h = elim (Bool-cases (p r)) [
  | inl e ↦ rw e (rw (same r) h.0, placed-recosted os p f rs same h.1)
  | inr e ↦ rw e (h.0, placed-recosted os p f rs same h.1)
]

recost-IsStocked :
    (now : ℕ) (r : GoodsReceipt) (order : List PurchaseOrderLine) (shares : Spread.Result (List ℤ))
    (s : Office)
    → IsStocked s
    → IsStocked (recost_with now r order shares s).1
recost-IsStocked now r order (err e) s h = h
recost-IsStocked now r order (ok shares) s h =
    let f = recosted now r.components order shares in
    record {
      keys = h.keys;
      served =
          All-map s.orders
            (λ o k. record {
              distinct = k.distinct;
              within =
                  All-map o.lines
                    (λ l q.
                      rw
                        (received-recosted o.id (receipt_is r.id) f s.receipts l.id (λ x.
                          (refl, brought-recost_lines l.id x.exchange_rate order x.lines shares)))
                        q)
                    k.within;
              untouched = λ e.
                  any-update_where (for_order o.id) (receipt_is r.id) f s.receipts (λ x. refl)
                  ∙ k.untouched e;
            })
            h.served;
      placed = placed-recosted s.orders (receipt_is r.id) f s.receipts (λ x. refl) h.placed;
    }

recost_receipt-IsStocked :
    (now : ℕ) (r : GoodsReceipt) (s : Office) → IsStocked s → IsStocked (recost_receipt now r s).1
recost_receipt-IsStocked now r s h =
    elim (Option-cases (find (order_is r.purchase_order_id) s.orders)) [
      | inl e ↦ rw (e, recost_receipt) h
      | inr (o, e) ↦
          rw (e, recost_receipt) (recost-IsStocked now r o.lines (shares_for r o.lines) s h)
    ]

charge_row-IsStocked :
    (now : ℕ) (who : Caller) (body : Option ComponentRequest) (r : GoodsReceipt) (s : Office)
    → IsStocked s
    → IsStocked (charge_row now who body r s).1
charge_row-IsStocked now who none r s h = h
charge_row-IsStocked now who (some c) r s h = elim (Option-cases (component_error c)) [
  | inr (x, e) ↦ rw (e, charge_row, add_component) h
  | inl e ↦
      rw (e, charge_row, add_component)
        (recost_receipt-IsStocked now
          (with_component (component_row now (actor who s.approvals) c) r) s h)
]

pub admin_charge-IsStocked :
    (now : ℕ) (who : Caller) (path : Option ℕ) (body : Option ComponentRequest) (s : Office)
    → IsStocked s
    → IsStocked (admin_add_landed_cost_component now who path body s).1
unfolding admin_add_landed_cost_component
admin_charge-IsStocked now who none body s h = h
admin_charge-IsStocked now who (some m) body s h =
    elim (Option-cases (find (receipt_is m) s.receipts)) [
      | inl e ↦ rw (e, admin_add_landed_cost_component) h
      | inr (r, e) ↦
          rw (e, admin_add_landed_cost_component) (charge_row-IsStocked now who body r s h)
    ]
