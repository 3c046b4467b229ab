-- ===== src/Purchasing/Lifecycle.antt =====
-- The life of an order over sequences of requests.
use arcus_invest_backend.Base.{ℕ, refl, arith, Option, none, some, List, [], ◌∷◌}
use arcus_invest_backend.Approvals.Types.{Caller}
use arcus_invest_backend.Approvals.Types as Rows
use arcus_invest_backend.Stock.Ledger.{Shelf}
use arcus_invest_backend.Purchasing.Receipts.{Office}
use arcus_invest_backend.Purchasing.Desk.{
  with_defaults, update_row, issue_row, cancel_row, admin_create_purchase_order,
  admin_update_purchase_order, admin_issue_purchase_order, admin_cancel_purchase_order,
}
use arcus_invest_backend.Purchasing.OrderForms.{OrderRequest}
use arcus_invest_backend.Purchasing.Calls.{
  OrderCall, create, update, cancel, charge, answer, answer_all,
}
use arcus_invest_backend.Purchasing.Calls as Calls
use arcus_invest_backend.Purchasing.Edges.{status_of, Edge}
use arcus_invest_backend.Purchasing.Alive.{Moved, IsAlive, Moved-IsAlive, unmoved}
use arcus_invest_backend.Purchasing.DeskMoves.{
  with_order-Moved, create-Moved, update_row-Moved, issue_row-Moved, cancel_row-Moved,
}
use arcus_invest_backend.Purchasing.ArrivalMoves.{admin_receive-Moved, admin_charge-Moved}

admin_create-Moved :
    (n : ℕ) (ids : ℕ → ℕ) (now id : ℕ) (who : Caller) (body : Option OrderRequest) (s : Office)
    → IsAlive s
    → Moved n s (admin_create_purchase_order ids now id who body s).1
unfolding admin_create_purchase_order
admin_create-Moved n ids now id who none s w = unmoved n s w
admin_create-Moved n ids now id who (some r) s w =
    create-Moved n ids now id who (with_defaults _ _ r) s w

answer-Moved : (n : ℕ) (c : OrderCall) (s : Office) → IsAlive s → Moved n s (answer c s)
unfolding answer admin_update_purchase_order admin_issue_purchase_order admin_cancel_purchase_order
answer-Moved n (create ids now id who body) s w = admin_create-Moved n ids now id who body s w
answer-Moved n (update ids path body) s w =
    with_order-Moved n path (update_row ids body) s w
      (λ m o found. update_row-Moved n m ids body o s w found)
answer-Moved n (Calls.issue down now year approval who path) s w =
    with_order-Moved n path (issue_row down now year approval who) s w
      (λ m o found. issue_row-Moved n down now year approval who m o s w found)
answer-Moved n (cancel path) s w =
    with_order-Moved n path cancel_row s w (λ m o found. cancel_row-Moved n m o s w found)
answer-Moved n (Calls.receive now id who path body) s w =
    admin_receive-Moved n now id who path body s w
answer-Moved n (charge now who path body) s w = admin_charge-Moved n now who path body s w

answer_all-IsAlive : (cs : List OrderCall) (s : Office) → IsAlive s → IsAlive (answer_all cs s)
unfolding answer_all
answer_all-IsAlive [] s w = w
answer_all-IsAlive (c ∷ cs) s w =
    answer_all-IsAlive cs (answer c s) (Moved-IsAlive s (answer c s) w (λ n. answer-Moved n c s w))

-- No orders and no receipts, with the tables of the approval engine and the stock.
abbrev pub empty_office : Rows.Store → Shelf → Office
empty_office approvals shelf = record {
  approvals = approvals;
  orders = [];
  receipts = [];
  shelf = shelf;
}

empty_office-IsAlive :
    (approvals : Rows.Store) (shelf : Shelf) → IsAlive (empty_office approvals shelf)
empty_office-IsAlive approvals shelf = record {
  filled = tt;
  used_only = λ n. refl;
  backed = λ n a. absurd (ground arith);
}

-- From no orders and no receipts, and whatever the tables of the approval engine and the stock ledger
-- hold: after any sequence of requests, each granted or refused, one more request leaves an order as
-- it was, or takes it one step of its life. An order that does not exist may be raised as a draft. A
-- draft may come to await approval. A draft and an order that awaits approval may be rejected, issued
-- or cancelled. A rejected order may return to draft or be cancelled. An issued order may be received
-- in part or in full, or be cancelled, and one received in part may be received in full. An order
-- received in part is not cancelled, one received in full or cancelled stays as it is, and none
-- vanishes.
pub order_lifecycle :
    (approvals : Rows.Store) (shelf : Shelf) (cs : List OrderCall) (c : OrderCall) (n : ℕ)
    → let s = answer_all cs (empty_office approvals shelf) in
      Edge (status_of n s.orders) (status_of n (answer c s).orders)
order_lifecycle approvals shelf cs c n =
    let start = empty_office approvals shelf in
    (answer-Moved n c (answer_all cs start)
      (answer_all-IsAlive cs start (empty_office-IsAlive approvals shelf))).edge
