-- ===== src/Purchasing/Calls.antt =====
-- The requests that write to purchasing, and sequences of them.
use arcus_invest_backend.Base.{ℕ, Option, List, [], ◌∷◌}
use arcus_invest_backend.Approvals.Types.{Faults, Caller}
use arcus_invest_backend.Purchasing.Receipts.{Office}
use arcus_invest_backend.Purchasing.Desk.{
  admin_create_purchase_order, admin_update_purchase_order, admin_issue_purchase_order,
  admin_cancel_purchase_order,
}
use arcus_invest_backend.Purchasing.OrderForms.{OrderRequest}
use arcus_invest_backend.Purchasing.Arrivals.{admin_receive_goods}
use arcus_invest_backend.Purchasing.Deliveries.{ReceiptRequest, ComponentRequest}
use arcus_invest_backend.Purchasing.Recost.{admin_add_landed_cost_component}

pub data OrderCall : Type 0 where
  create : (ids : ℕ → ℕ) (now id : ℕ) (who : Caller) (body : Option OrderRequest) → OrderCall
  update : (ids : ℕ → ℕ) (path : Option ℕ) (body : Option OrderRequest) → OrderCall
  issue : (down : Faults) (now year approval : ℕ) (who : Caller) (path : Option ℕ) → OrderCall
  cancel : (path : Option ℕ) → OrderCall
  receive : (now id : ℕ) (who : Caller) (path : Option ℕ) (body : Option ReceiptRequest) → OrderCall
  charge : (now : ℕ) (who : Caller) (path : Option ℕ) (body : Option ComponentRequest) → OrderCall

unfoldable pub answer : OrderCall → Office → Office
answer (create ids now id who body) s = (admin_create_purchase_order ids now id who body s).1
answer (update ids path body) s = (admin_update_purchase_order ids path body s).1
answer (issue down now year approval who path) s =
    (admin_issue_purchase_order down now year approval who path s).1
answer (cancel path) s = (admin_cancel_purchase_order path s).1
answer (receive now id who path body) s = (admin_receive_goods now id who path body s).1
answer (charge now who path body) s = (admin_add_landed_cost_component now who path body s).1

unfoldable pub answer_all : List OrderCall → Office → Office
answer_all [] s = s
answer_all (c ∷ cs) s = answer_all cs (answer c s)
