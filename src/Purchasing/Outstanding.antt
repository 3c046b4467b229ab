-- ===== src/Purchasing/Outstanding.antt =====
-- What has been received of an order against what was ordered, over sequences of requests.
use arcus_invest_backend.Base.{
  ℕ, ◌≡◌, ◌≤ℤ◌, true, false, Option, none, some, List, [], ◌∷◌, any, All, All-map,
}
use arcus_invest_backend.Approvals.Types.{ApprovalRequest, Faults, Caller, is_pending, is_rejected}
use arcus_invest_backend.Approvals.Types as Rows
use arcus_invest_backend.Stock.Ledger.{Shelf}
use arcus_invest_backend.Purchasing.Receipts.{Office, received_by_line}
use arcus_invest_backend.Purchasing.Desk.{
  with_defaults, update_row, issue_row, cancel_row, admin_create_purchase_order,
  admin_update_purchase_order, admin_issue_purchase_order, admin_cancel_purchase_order,
}
use arcus_invest_backend.Purchasing.OrderForms.{OrderRequest}
use arcus_invest_backend.Purchasing.Calls.{
  OrderCall, create, update, cancel, charge, answer, answer_all,
}
use arcus_invest_backend.Purchasing.Calls as Calls
use arcus_invest_backend.Purchasing.Quantities.{for_order}
use arcus_invest_backend.Purchasing.Stocked.{is_fresh, IsStocked}
use arcus_invest_backend.Purchasing.OrderSteps.{
  with_order-IsStocked, create-IsStocked, update_row-IsStocked, issue_row-IsStocked,
  cancel_row-IsStocked,
}
use arcus_invest_backend.Purchasing.RecostSteps.{admin_charge-IsStocked}
use arcus_invest_backend.Purchasing.ArrivalSteps.{BodyNamesEach, admin_receive-IsStocked}

-- The receipts that a request asks for name each order line at most once.
abbrev IsItemised : OrderCall → Type 0
IsItemised (Calls.receive now id who path body) = BodyNamesEach body
IsItemised (create ids now id who body) = Unit
IsItemised (update ids path body) = Unit
IsItemised (Calls.issue down now year approval who path) = Unit
IsItemised (cancel path) = Unit
IsItemised (charge now who path body) = Unit

admin_create-IsStocked :
    (ids : ℕ → ℕ) (now id : ℕ) (who : Caller) (body : Option OrderRequest) (s : Office)
    → IsStocked s
    → IsStocked (admin_create_purchase_order ids now id who body s).1
unfolding admin_create_purchase_order
admin_create-IsStocked ids now id who none s h = h
admin_create-IsStocked ids now id who (some r) s h =
    create-IsStocked ids now id who (with_defaults _ _ r) s h

answer-IsStocked :
    (c : OrderCall) (s : Office) → IsItemised c → IsStocked s → IsStocked (answer c s)
unfolding answer admin_update_purchase_order admin_issue_purchase_order admin_cancel_purchase_order
answer-IsStocked (create ids now id who body) s each h =
    admin_create-IsStocked ids now id who body s h
answer-IsStocked (update ids path body) s each h =
    with_order-IsStocked path (update_row ids body) s h
      (λ m o found. update_row-IsStocked m ids body o s found h)
answer-IsStocked (Calls.issue down now year approval who path) s each h =
    with_order-IsStocked path (issue_row down now year approval who) s h
      (λ m o found. issue_row-IsStocked down now year approval who m o s found h)
answer-IsStocked (cancel path) s each h =
    with_order-IsStocked path cancel_row s h (λ m o found. cancel_row-IsStocked m o s found h)
answer-IsStocked (Calls.receive now id who path body) s each h =
    admin_receive-IsStocked now id who path body s each h
answer-IsStocked (charge now who path body) s each h = admin_charge-IsStocked now who path body s h

answer_all-IsStocked :
    (cs : List OrderCall) (s : Office)
    → All IsItemised cs
    → IsStocked s
    → IsStocked (answer_all cs s)
unfolding answer_all
answer_all-IsStocked [] s each h = h
answer_all-IsStocked (c ∷ cs) s each h =
    answer_all-IsStocked cs (answer c s) each.1 (answer-IsStocked c s each.0 h)

-- From no orders and no receipts, and whatever the tables of the approval engine and the stock
-- ledger hold: after any sequence of requests, each granted or refused, of which no receipt names an
-- order line twice, no line of an order has received more than was ordered, and an order that is not
-- issued yet, or was rejected, has no receipt.
pub received_within_ordered :
    (approvals : Rows.Store) (shelf : Shelf) (cs : List OrderCall)
    → All IsItemised cs
    → let t =
        answer_all cs
          (record { approvals = approvals; orders = []; receipts = []; shelf = shelf }) in
      All
        (λ o.
          All (λ l. received_by_line o.id t.receipts l.id ≤ℤ l.quantity) o.lines
          × (is_fresh o.status ≡ true → any (for_order o.id) t.receipts ≡ false))
        t.orders
received_within_ordered approvals shelf cs each =
    let start : Office = record {
      approvals = approvals;
      orders = [];
      receipts = [];
      shelf = shelf;
    } in
    let h = answer_all-IsStocked cs start each (record { keys = tt; served = tt; placed = tt }) in
    All-map (answer_all cs start).orders (λ o k. (k.within, k.untouched)) h.served
