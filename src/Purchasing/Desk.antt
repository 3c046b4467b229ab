-- ===== src/Purchasing/Desk.antt =====
-- The handlers of internal/handlers/purchasing.go that raise, edit, issue, cancel and show an order.
-- The summary of a request for approval is left empty, and `none` stands for a path that is no id
-- and for a body that cannot be bound.
use arcus_invest_backend.Base.{
  ℕ, ◌+◌, ℤ, pos, ltb_ℤ, eqb_ℤ, Bool, true, false, ◌&&◌, ◌||◌, Option, none, some, List, [], ◌∷◌,
  ◌==◌, find, any, count, update_where, if◌then◌else◌,
}
use arcus_invest_backend.Base.Text.{Text, codes, is_empty, trim_space}
use arcus_invest_backend.Approvals.Types.{
  ApprovalRequest, Faults, Caller, purchase_order_issue, is_pending, is_rejected,
}
use arcus_invest_backend.Approvals.Types as Rows
use arcus_invest_backend.Approvals.Gate.{Ask, Verdict, proceed, blocked, failed, gate}
use arcus_invest_backend.Purchasing.Orders.{PoStatus, PurchaseOrder, OrderNumber, subtotal_zmw}
use arcus_invest_backend.Purchasing.Receipts.{
  GoodsReceipt, Office, received_by_line, purchase_order_json, no_lines,
}
use arcus_invest_backend.Purchasing.OrderForms.{
  OrderReply, OrderRequest, actor, awaiting, empty_order, gate_failed, has_receipts, invalid_body,
  invalid_id, lines_clash, lines_from_request, load_failed, not_editable, not_found, not_issuable,
  or_now, order_is, save_failed, saved, to_upper, validate_purchase_order,
}

-- What is sent back of an order: it is loaded again.
unfoldable pub shown : ℕ → Office → OrderReply
shown n s = elim (find (order_is n) s.orders) [
  | none ↦ load_failed
  | some o ↦ saved (purchase_order_json o (received_by_line n s.receipts))
]

abbrev pub new_order : (ℕ → ℕ) → ℕ → ℕ → OrderRequest → Option ℕ → PurchaseOrder
new_order ids now id r by = record {
  id = id;
  number = none;
  supplier = trim_space r.supplier;
  currency = to_upper (trim_space r.currency);
  exchange_rate = r.exchange_rate;
  status = PoStatus.draft;
  order_date = or_now r.order_date now;
  opportunity_id = r.opportunity_id;
  issued_at = none;
  raised_by_id = by;
  lines = lines_from_request ids 0 r.lines;
}

-- The defaults for an empty currency and for a rate of 0.
abbrev pub with_defaults : Text → ℤ → OrderRequest → OrderRequest
with_defaults currency rate r = record r {
  currency = if is_empty r.currency then currency else r.currency;
  exchange_rate = if eqb_ℤ r.exchange_rate (pos 0) then rate else r.exchange_rate;
}

abbrev pub insert_order : PurchaseOrder → Office → OrderReply × Office
insert_order o s =
    if any (order_is o.id) s.orders || lines_clash o.lines s.orders
    then (save_failed, s)
    else (let t = record s { orders = o ∷ s.orders } in (shown o.id t, t))

abbrev pub create_order : (ℕ → ℕ) → ℕ → ℕ → Caller → OrderRequest → Office → OrderReply × Office
create_order ids now id who r s = elim (validate_purchase_order r) [
  | some e ↦ (e, s)
  | none ↦ insert_order (new_order ids now id r (actor who s.approvals)) s
]

-- `AdminCreatePurchaseOrder`
unfoldable pub admin_create_purchase_order :
    (ℕ → ℕ) → ℕ → ℕ → Caller → Option OrderRequest → Office → OrderReply × Office
admin_create_purchase_order ids now id who none s = (invalid_body, s)
admin_create_purchase_order ids now id who (some r) s =
    create_order ids now id who (with_defaults (codes "ZMW") (pos 1000000) r) s

-- The row of a path: its errors, or what is done with it.
abbrev pub with_order :
    Option ℕ → (ℕ → PurchaseOrder → Office → OrderReply × Office) → Office → OrderReply × Office
with_order none act s = (invalid_id, s)
with_order (some n) act s = elim (find (order_is n) s.orders) [
  | none ↦ (not_found, s)
  | some o ↦ act n o s
]

abbrev pub is_editable : PoStatus → Bool
is_editable PoStatus.draft = true
is_editable PoStatus.rejected = true
is_editable _ = false

abbrev pub rewrite : (ℕ → ℕ) → OrderRequest → PurchaseOrder → PurchaseOrder
rewrite ids r o = record o {
  supplier = trim_space r.supplier;
  currency = to_upper (trim_space r.currency);
  exchange_rate = r.exchange_rate;
  opportunity_id = r.opportunity_id;
  status = PoStatus.draft;
  order_date = or_now r.order_date o.order_date;
  lines = lines_from_request ids 0 r.lines;
}

abbrev pub without_lines : PurchaseOrder → PurchaseOrder
without_lines o = record o { lines = [] }

-- The transaction: the lines are deleted before the new ones are written.
abbrev pub replace_order : (ℕ → ℕ) → ℕ → OrderRequest → Office → OrderReply × Office
replace_order ids n r s =
    if lines_clash (lines_from_request ids 0 r.lines)
      (update_where (order_is n) without_lines s.orders)
    then (save_failed, s)
    else (let t = record s { orders = update_where (order_is n) (rewrite ids r) s.orders } in
        (shown n t, t))

abbrev pub update_order : (ℕ → ℕ) → ℕ → OrderRequest → Office → OrderReply × Office
update_order ids n r s = elim (validate_purchase_order r) [
  | some e ↦ (e, s)
  | none ↦ replace_order ids n r s
]

abbrev pub update_body :
    (ℕ → ℕ) → Option OrderRequest → ℕ → PurchaseOrder → Office → OrderReply × Office
update_body ids none n o s = (invalid_body, s)
update_body ids (some r) n o s = update_order ids n (with_defaults o.currency o.exchange_rate r) s

abbrev pub update_row :
    (ℕ → ℕ) → Option OrderRequest → ℕ → PurchaseOrder → Office → OrderReply × Office
update_row ids body n o s =
    if is_editable o.status then update_body ids body n o s else (not_editable, s)

-- `AdminUpdatePurchaseOrder`
unfoldable pub admin_update_purchase_order :
    (ℕ → ℕ) → Option ℕ → Option OrderRequest → Office → OrderReply × Office
admin_update_purchase_order ids path body s = with_order path (update_row ids body) s

abbrev pub is_issuable : PoStatus → Bool
is_issuable PoStatus.draft = true
is_issuable PoStatus.pending_approval = true
is_issuable PoStatus.approved = true
is_issuable _ = false

abbrev pub is_draft : PoStatus → Bool
is_draft PoStatus.draft = true
is_draft _ = false

abbrev in_year : ℕ → PurchaseOrder → Bool
in_year year o = elim o.number [ none ↦ false | some k ↦ k.year == year ]

-- `nextPurchaseOrderNumber`
unfoldable pub next_purchase_order_number : ℕ → List PurchaseOrder → OrderNumber
next_purchase_order_number year os = record { year = year; sequence = count (in_year year) os + 1 }

abbrev pub number_of : ℕ → List PurchaseOrder → PurchaseOrder → OrderNumber
number_of year os o = elim o.number [ none ↦ next_purchase_order_number year os | some k ↦ k ]

abbrev pub set_status : PoStatus → PurchaseOrder → PurchaseOrder
set_status st o = record o { status = st }

abbrev pub issue : ℕ → OrderNumber → PurchaseOrder → PurchaseOrder
issue now number o = record o {
  status = PoStatus.issued;
  issued_at = some now;
  number = some number;
}

abbrev pub change_order : ℕ → (PurchaseOrder → PurchaseOrder) → Office → Office
change_order n f s = record s { orders = update_where (order_is n) f s.orders }

abbrev pub ask_issue : PurchaseOrder → Ask
ask_issue o = record {
  action = purchase_order_issue;
  entity_type = codes "purchase_orders";
  entity_id = o.id;
  amount = subtotal_zmw o;
  summary = [];
}

-- The status of an order whose issue is held up.
abbrev pub held_status : ApprovalRequest → PoStatus → PoStatus
held_status r st =
    if is_rejected r.status
    then PoStatus.rejected
    else (if is_draft st && is_pending r.status then PoStatus.pending_approval else st)

-- `now` comes with the year that it is in.
abbrev pub after_gate :
    ℕ → ℕ → ℕ → PurchaseOrder → Verdict × Rows.Store → Office → OrderReply × Office
after_gate now year n o (failed, a) s = (gate_failed, record s { approvals = a })
after_gate now year n o (blocked r, a) s =
    (awaiting r, change_order n (set_status (held_status r o.status)) (record s { approvals = a }))
after_gate now year n o (proceed, a) s =
    let t = change_order n (issue now (number_of year s.orders o)) (record s { approvals = a }) in
    (shown n t, t)

abbrev pub issue_row :
    Faults → ℕ → ℕ → ℕ → Caller → ℕ → PurchaseOrder → Office → OrderReply × Office
issue_row down now year approval who n o s =
    if is_issuable o.status
    then (if no_lines o.lines
        then (empty_order, s)
        else after_gate now year n o (gate down now approval (ask_issue o) who s.approvals) s)
    else (not_issuable, s)

-- `AdminIssuePurchaseOrder`
unfoldable pub admin_issue_purchase_order :
    Faults → ℕ → ℕ → ℕ → Caller → Option ℕ → Office → OrderReply × Office
admin_issue_purchase_order down now year approval who path s =
    with_order path (issue_row down now year approval who) s

-- Whether some line of the receipts of an order has a total above 0.
abbrev pub any_received : ℕ → List GoodsReceipt → Bool
any_received n rs =
    any
      (λ r.
        (r.purchase_order_id == n)
        && any (λ l. ltb_ℤ (pos 0) (received_by_line n rs l.purchase_order_line_id)) r.lines)
      rs

abbrev pub cancel_row : ℕ → PurchaseOrder → Office → OrderReply × Office
cancel_row n o s =
    if any_received n s.receipts
    then (has_receipts, s)
    else (let t = change_order n (set_status PoStatus.cancelled) s in (shown n t, t))

-- `AdminCancelPurchaseOrder`
unfoldable pub admin_cancel_purchase_order : Option ℕ → Office → OrderReply × Office
admin_cancel_purchase_order path s = with_order path cancel_row s

-- `AdminGetPurchaseOrder`
unfoldable pub admin_get_purchase_order : Option ℕ → Office → OrderReply
admin_get_purchase_order path s = (with_order path (λ n o t. (shown n t, t)) s).0
