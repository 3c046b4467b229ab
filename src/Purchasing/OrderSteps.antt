-- ===== src/Purchasing/OrderSteps.antt =====
-- What the handlers of Desk do to well-formed orders and receipts.
use arcus_invest_backend.Base.{
  ℕ, ◌≡◌, refl, inl, inr, true, Option, none, some, List, arith, find, any, update_where,
  Bool-cases, Option-cases,
}
use arcus_invest_backend.Base.Tables.{DistinctKeys}
use arcus_invest_backend.Approvals.Types.{ApprovalRequest, Faults, Caller, is_pending, is_rejected}
use arcus_invest_backend.Approvals.Types as Rows
use arcus_invest_backend.Approvals.Gate.{Verdict, proceed, blocked, failed, gate}
use arcus_invest_backend.Purchasing.Orders.{PoStatus, PurchaseOrder}
use arcus_invest_backend.Purchasing.Receipts.{GoodsReceipt, Office, no_lines}
use arcus_invest_backend.Purchasing.Desk.{
  insert_order, create_order, new_order, with_defaults, with_order, is_editable, rewrite,
  without_lines, replace_order, update_order, update_body, update_row, is_issuable, number_of,
  set_status, issue, ask_issue, held_status, after_gate, issue_row, any_received, cancel_row,
}
use arcus_invest_backend.Purchasing.OrderForms.{
  OrderRequest, OrderReply, order_is, lines_clash, lines_from_request, actor,
  validate_purchase_order,
}
use arcus_invest_backend.Purchasing.Quantities.{
  validated_lines, validated_request, lines_clash-DistinctKeys,
}
use arcus_invest_backend.Purchasing.Stocked.{
  is_fresh, IsServed, IsStocked, fresh_lines, insert-IsStocked, change-IsStocked, restatus-IsServed,
}

pub with_order-IsStocked :
    (path : Option ℕ) (act : ℕ → PurchaseOrder → Office → OrderReply × Office) (s : Office)
    → IsStocked s
    → ((m : ℕ) (o : PurchaseOrder) → find (order_is m) s.orders ≡ some o → IsStocked (act m o s).1)
    → IsStocked (with_order path act s).1
with_order-IsStocked none act s h f = h
with_order-IsStocked (some m) act s h f = elim (Option-cases (find (order_is m) s.orders)) [
  | inl e ↦ rw (e, with_order) h
  | inr (o, e) ↦ rw (e, with_order) (f m o e)
]

with_approvals :
    (s : Office) (a : Rows.Store) → IsStocked s → IsStocked (record s { approvals = a })
with_approvals s a h = record { keys = h.keys; served = h.served; placed = h.placed }

insert_order-IsStocked :
    (ids : ℕ → ℕ) (now id : ℕ) (r : OrderRequest) (by : Option ℕ) (s : Office)
    → validate_purchase_order r ≡ none
    → IsStocked s
    → IsStocked (insert_order (new_order ids now id r by) s).1
insert_order-IsStocked ids now id r by s valid h = elim (Bool-cases (any (order_is id) s.orders)) [
  | inl e ↦ rw (e, insert_order) h
  | inr e ↦ elim (Bool-cases (lines_clash (lines_from_request ids 0 r.lines) s.orders)) [
    | inl c ↦ rw (e, c, insert_order) h
    | inr c ↦
        rw (e, c, insert_order)
          (insert-IsStocked (new_order ids now id r by) s e
            (lines_clash-DistinctKeys (lines_from_request ids 0 r.lines) s.orders c)
            (validated_lines ids 1 0 r.lines (validated_request r valid)) h)
  ]
]

pub create-IsStocked :
    (ids : ℕ → ℕ) (now id : ℕ) (who : Caller) (r : OrderRequest) (s : Office)
    → IsStocked s
    → IsStocked (create_order ids now id who r s).1
create-IsStocked ids now id who r s h = elim (Option-cases (validate_purchase_order r)) [
  | inr (x, e) ↦ rw (e, create_order) h
  | inl e ↦ rw (e, create_order) (insert_order-IsStocked ids now id r (actor who s.approvals) s e h)
]

editable-fresh : (st : PoStatus) → is_editable st ≡ true → is_fresh st ≡ true
editable-fresh st h = ground arith

rewrite-IsServed :
    (rs : List GoodsReceipt) (ids : ℕ → ℕ) (r : OrderRequest) (o : PurchaseOrder)
    → validate_purchase_order r ≡ none
    → DistinctKeys (λ l. l.id) (lines_from_request ids 0 r.lines)
    → is_editable o.status ≡ true
    → IsServed rs o
    → IsServed rs (rewrite ids r o)
rewrite-IsServed rs ids r o valid distinct open_still h =
    let none_yet = h.untouched (editable-fresh o.status open_still) in
    record {
      distinct = distinct;
      within =
          fresh_lines o.id rs (lines_from_request ids 0 r.lines) none_yet
            (validated_lines ids 1 0 r.lines (validated_request r valid));
      untouched = λ e. none_yet;
    }

replace-IsStocked :
    (m : ℕ) (ids : ℕ → ℕ) (r : OrderRequest) (o : PurchaseOrder) (s : Office)
    → find (order_is m) s.orders ≡ some o
    → is_editable o.status ≡ true
    → validate_purchase_order r ≡ none
    → IsStocked s
    → IsStocked (replace_order ids m r s).1
replace-IsStocked m ids r o s found e valid h =
    let emptied = update_where (order_is m) without_lines s.orders in
    let ls = lines_from_request ids 0 r.lines in
    elim (Bool-cases (lines_clash ls emptied)) [
      | inl c ↦ rw (c, replace_order) h
      | inr c ↦
          rw (c, replace_order)
            (change-IsStocked m (rewrite ids r) s (λ x. refl) found
              (rewrite-IsServed s.receipts ids r o valid (lines_clash-DistinctKeys ls emptied c) e)
              h)
    ]

update_body-IsStocked :
    (m : ℕ) (ids : ℕ → ℕ) (body : Option OrderRequest) (o : PurchaseOrder) (s : Office)
    → find (order_is m) s.orders ≡ some o
    → is_editable o.status ≡ true
    → IsStocked s
    → IsStocked (update_body ids body m o s).1
update_body-IsStocked m ids none o s found e h = h
update_body-IsStocked m ids (some r) o s found e h =
    let given = with_defaults o.currency o.exchange_rate r in
    elim (Option-cases (validate_purchase_order given)) [
      | inr (x, v) ↦ rw (v, update_body, update_order) h
      | inl v ↦ rw (v, update_body, update_order) (replace-IsStocked m ids given o s found e v h)
    ]

pub update_row-IsStocked :
    (m : ℕ) (ids : ℕ → ℕ) (body : Option OrderRequest) (o : PurchaseOrder) (s : Office)
    → find (order_is m) s.orders ≡ some o
    → IsStocked s
    → IsStocked (update_row ids body m o s).1
update_row-IsStocked m ids body o s found h = elim (Bool-cases (is_editable o.status)) [
  | inr e ↦ rw (e, update_row) h
  | inl e ↦ rw (e, update_row) (update_body-IsStocked m ids body o s found e h)
]

held-fresh : (r : ApprovalRequest) (st : PoStatus) → is_issuable st ≡ true → is_fresh st ≡ true
held-fresh r st h = ground arith

after_gate-IsStocked :
    (now year m : ℕ) (o : PurchaseOrder) (v : Verdict × Rows.Store) (s : Office)
    → find (order_is m) s.orders ≡ some o
    → is_issuable o.status ≡ true
    → IsStocked s
    → IsStocked (after_gate now year m o v s).1
after_gate-IsStocked now year m o (failed, a) s found e h = with_approvals s a h
after_gate-IsStocked now year m o (blocked r, a) s found e h =
    let st = held_status r o.status in
    change-IsStocked m (set_status st) (record s { approvals = a }) (λ x. refl) found
      (restatus-IsServed s.receipts o (set_status st o) refl refl (λ f. held-fresh r o.status e))
      (with_approvals s a h)
after_gate-IsStocked now year m o (proceed, a) s found e h =
    let number = number_of year s.orders o in
    change-IsStocked m (issue now number) (record s { approvals = a }) (λ x. refl) found
      (restatus-IsServed s.receipts o (issue now number o) refl refl (λ f. absurd (ground arith)))
      (with_approvals s a h)

pub issue_row-IsStocked :
    (down : Faults) (now year approval : ℕ) (who : Caller) (m : ℕ) (o : PurchaseOrder) (s : Office)
    → find (order_is m) s.orders ≡ some o
    → IsStocked s
    → IsStocked (issue_row down now year approval who m o s).1
issue_row-IsStocked down now year approval who m o s found h =
    elim (Bool-cases (is_issuable o.status)) [
      | inr e ↦ rw (e, issue_row) h
      | inl e ↦ elim (Bool-cases (no_lines o.lines)) [
        | inl c ↦ rw (e, c, issue_row) h
        | inr c ↦
            rw (e, c, issue_row)
              (after_gate-IsStocked now year m o
                (gate down now approval (ask_issue o) who s.approvals) s found e h)
      ]
    ]

pub cancel_row-IsStocked :
    (m : ℕ) (o : PurchaseOrder) (s : Office)
    → find (order_is m) s.orders ≡ some o
    → IsStocked s
    → IsStocked (cancel_row m o s).1
cancel_row-IsStocked m o s found h = elim (Bool-cases (any_received m s.receipts)) [
  | inl e ↦ rw (e, cancel_row) h
  | inr e ↦
      rw (e, cancel_row)
        (change-IsStocked m (set_status PoStatus.cancelled) s (λ x. refl) found
          (restatus-IsServed s.receipts o (set_status PoStatus.cancelled o) refl refl
            (λ f. absurd (ground arith)))
          h)
]
