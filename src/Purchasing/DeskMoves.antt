-- ===== src/Purchasing/DeskMoves.antt =====
-- The steps that the handlers of Desk take.
use arcus_invest_backend.Base.{
  ℕ, ◌==◌, ◌≡◌, refl, inl, inr, true, false, Option, none, some, List, [], ◌∷◌, arith, find, any,
  update_where, Bool-cases, Option-cases, ==_iff,
}
use arcus_invest_backend.Approvals.Types.{ApprovalRequest, Faults, Caller, is_pending, is_rejected}
use arcus_invest_backend.Approvals.Types as Rows
use arcus_invest_backend.Approvals.Gate.{Verdict, proceed, blocked, failed, gate}
use arcus_invest_backend.Purchasing.Orders.{PoStatus, PurchaseOrder}
use arcus_invest_backend.Purchasing.Receipts.{Office, no_lines}
use arcus_invest_backend.Purchasing.Desk.{
  insert_order, create_order, new_order, with_defaults, with_order, is_editable, rewrite,
  without_lines, replace_order, update_order, update_body, update_row, is_issuable, number_of,
  set_status, issue, ask_issue, held_status, after_gate, issue_row, any_received, cancel_row,
}
use arcus_invest_backend.Purchasing.OrderForms.{
  OrderRequest, OrderReply, order_is, lines_clash, lines_from_request, actor,
  validate_purchase_order,
}
use arcus_invest_backend.Purchasing.Filled.{filled-any_received}
use arcus_invest_backend.Purchasing.Edges.{
  status_of, has_arrivals, cancelled-Edge, revised-Edge, issued-Edge, held_status-Edge, stay,
  raised,
}
use arcus_invest_backend.Purchasing.Alive.{
  IsAlive, Passage, Moved, unmoved, found-used, found-backed, changed-Moved,
}

pub with_order-Moved :
    (n : ℕ) (path : Option ℕ) (act : ℕ → PurchaseOrder → Office → OrderReply × Office) (s : Office)
    → IsAlive s
    → ((m : ℕ) (o : PurchaseOrder) → find (order_is m) s.orders ≡ some o → Moved n s (act m o s).1)
    → Moved n s (with_order path act s).1
with_order-Moved n none act s w f = (unmoved n s w)
with_order-Moved n (some m) act s w f = elim (Option-cases (find (order_is m) s.orders)) [
  | inl e ↦ rw (e, with_order) (unmoved n s w)
  | inr (o, e) ↦ rw (e, with_order) (f m o e)
]

absent_order :
    (n : ℕ) (os : List PurchaseOrder) → any (order_is n) os ≡ false → find (order_is n) os ≡ none
absent_order n [] h = refl
absent_order n (o ∷ os) h = ground (arith, absent_order n os)

raised_lem :
    (n : ℕ) (o : PurchaseOrder) (s : Office)
    → IsAlive s
    → any (order_is o.id) s.orders ≡ false
    → o.status ≡ PoStatus.draft
    → Passage n s.orders (o ∷ s.orders) s.receipts
raised_lem n o s w new st = elim (Bool-cases (o.id == n)) [
  | inr e ↦ record {
    edge = rw (e, status_of) stay;
    backs = rw (e, status_of) (w.backed n);
    fills = w.filled;
  }
  | inl e ↦
      let none_before = absent_order n s.orders (rw ((==_iff o.id n).0 e) at new) in
      record {
        edge = rw (e, none_before, st, status_of) raised;
        backs = rw (e, st, status_of) (λ a. absurd (ground arith));
        fills = w.filled;
      }
]

insert-Moved :
    (n : ℕ) (o : PurchaseOrder) (s : Office)
    → IsAlive s
    → o.status ≡ PoStatus.draft
    → Moved n s (insert_order o s).1
insert-Moved n o s w st = elim (Bool-cases (any (order_is o.id) s.orders)) [
  | inl e ↦ rw (e, insert_order) (unmoved n s w)
  | inr e ↦ elim (Bool-cases (lines_clash o.lines s.orders)) [
    | inl c ↦ rw (e, c, insert_order) (unmoved n s w)
    | inr c ↦ rw (e, c, insert_order) (raised_lem n o s w e st)
  ]
]

pub create-Moved :
    (n : ℕ) (ids : ℕ → ℕ) (now id : ℕ) (who : Caller) (r : OrderRequest) (s : Office)
    → IsAlive s
    → Moved n s (create_order ids now id who r s).1
create-Moved n ids now id who r s w = elim (Option-cases (validate_purchase_order r)) [
  | inr (x, e) ↦ rw (e, create_order) (unmoved n s w)
  | inl e ↦
      rw (e, create_order)
        (insert-Moved n (new_order ids now id r (actor who s.approvals)) s w refl)
]

replace-Moved :
    (n m : ℕ) (ids : ℕ → ℕ) (r : OrderRequest) (o : PurchaseOrder) (s : Office)
    → IsAlive s
    → find (order_is m) s.orders ≡ some o
    → is_editable o.status ≡ true
    → Moved n s (replace_order ids m r s).1
replace-Moved n m ids r o s w found h =
    elim (Bool-cases (
      lines_clash (lines_from_request ids 0 r.lines)
        (update_where (order_is m) without_lines s.orders))) [
          | inl c ↦ rw (c, replace_order) (unmoved n s w)
          | inr c ↦
              rw (c, replace_order)
                (changed-Moved n m (rewrite ids r) s s.receipts w w.filled (λ k a. a) (λ x. refl)
                  found (revised-Edge o.status h) (λ a. absurd (ground arith)))
        ]

update_order-Moved :
    (n m : ℕ) (ids : ℕ → ℕ) (r : OrderRequest) (o : PurchaseOrder) (s : Office)
    → IsAlive s
    → find (order_is m) s.orders ≡ some o
    → is_editable o.status ≡ true
    → Moved n s (update_order ids m r s).1
update_order-Moved n m ids r o s w found h = elim (Option-cases (validate_purchase_order r)) [
  | inr (x, e) ↦ rw (e, update_order) (unmoved n s w)
  | inl e ↦ rw (e, update_order) (replace-Moved n m ids r o s w found h)
]

update_body-Moved :
    (n m : ℕ) (ids : ℕ → ℕ) (body : Option OrderRequest) (o : PurchaseOrder) (s : Office)
    → IsAlive s
    → find (order_is m) s.orders ≡ some o
    → is_editable o.status ≡ true
    → Moved n s (update_body ids body m o s).1
update_body-Moved n m ids none o s w found h = (unmoved n s w)
update_body-Moved n m ids (some r) o s w found h =
    update_order-Moved n m ids (with_defaults o.currency o.exchange_rate r) o s w found h

pub update_row-Moved :
    (n m : ℕ) (ids : ℕ → ℕ) (body : Option OrderRequest) (o : PurchaseOrder) (s : Office)
    → IsAlive s
    → find (order_is m) s.orders ≡ some o
    → Moved n s (update_row ids body m o s).1
update_row-Moved n m ids body o s w found = elim (Bool-cases (is_editable o.status)) [
  | inr e ↦ rw (e, update_row) (unmoved n s w)
  | inl e ↦ rw (e, update_row) (update_body-Moved n m ids body o s w found e)
]

held_no_arrivals :
    (r : ApprovalRequest) (st : PoStatus)
    → is_issuable st ≡ true
    → has_arrivals (held_status r st) ≡ false
held_no_arrivals r st h = ground arith

after_gate-Moved :
    (n now year m : ℕ) (o : PurchaseOrder) (v : Verdict × Rows.Store) (s : Office)
    → IsAlive s
    → find (order_is m) s.orders ≡ some o
    → is_issuable o.status ≡ true
    → Moved n s (after_gate now year m o v s).1
after_gate-Moved n now year m o (failed, a) s w found h = (unmoved n s w)
after_gate-Moved n now year m o (blocked r, a) s w found h =
    changed-Moved n m (set_status (held_status r o.status)) s s.receipts w w.filled (λ k a. a)
      (λ x. refl) found (held_status-Edge r o.status (found-used m s w found) h)
      (λ a. absurd (ground (arith, held_no_arrivals r o.status h)))
after_gate-Moved n now year m o (proceed, a) s w found h =
    changed-Moved n m (issue now (number_of year s.orders o)) s s.receipts w w.filled (λ k a. a)
      (λ x. refl) found (issued-Edge o.status (found-used m s w found) h)
      (λ a. absurd (ground arith))

pub issue_row-Moved :
    (n : ℕ) (down : Faults) (now year approval : ℕ) (who : Caller) (m : ℕ) (o : PurchaseOrder)
    (s : Office)
    → IsAlive s
    → find (order_is m) s.orders ≡ some o
    → Moved n s (issue_row down now year approval who m o s).1
issue_row-Moved n down now year approval who m o s w found =
    elim (Bool-cases (is_issuable o.status)) [
      | inr e ↦ rw (e, issue_row) (unmoved n s w)
      | inl e ↦ elim (Bool-cases (no_lines o.lines)) [
        | inl c ↦ rw (e, c, issue_row) (unmoved n s w)
        | inr c ↦
            rw (e, c, issue_row)
              (after_gate-Moved n now year m o
                (gate down now approval (ask_issue o) who s.approvals) s w found e)
      ]
    ]

-- An order that nothing has been received of is in no state with arrivals.
nothing_in :
    (m : ℕ) (o : PurchaseOrder) (s : Office)
    → IsAlive s
    → find (order_is m) s.orders ≡ some o
    → any_received m s.receipts ≡ false
    → has_arrivals o.status ≡ false
nothing_in m o s w found e = elim (Bool-cases (has_arrivals o.status)) [
  | inr a ↦ a
  | inl a ↦
      let held = filled-any_received m s.receipts w.filled (found-backed m s w found a) in
      absurd (ground (arith, held, e))
]

pub cancel_row-Moved :
    (n m : ℕ) (o : PurchaseOrder) (s : Office)
    → IsAlive s
    → find (order_is m) s.orders ≡ some o
    → Moved n s (cancel_row m o s).1
cancel_row-Moved n m o s w found = elim (Bool-cases (any_received m s.receipts)) [
  | inl e ↦ rw (e, cancel_row) (unmoved n s w)
  | inr e ↦
      rw (e, cancel_row)
        (changed-Moved n m (set_status PoStatus.cancelled) s s.receipts w w.filled (λ k a. a)
          (λ x. refl) found
          (cancelled-Edge o.status (found-used m s w found) (nothing_in m o s w found e))
          (λ a. absurd (ground arith)))
]
