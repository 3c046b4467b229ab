-- ===== src/Purchasing/Tests.antt =====
-- An order that is raised, issued and received, with and without a rule that covers its issue.
use arcus_invest_backend.Base.{
  ℕ, ◌≡◌, refl, ℤ, pos, ◌≤ℤ◌, true, false, none, some, List, [], ◌∷◌, any, All,
}
use arcus_invest_backend.Base.Text.{codes, text_eq, trim_space, is_space, trim_left}
use arcus_invest_backend.Approvals.Types.{
  ApprovalRule, User, Store, Faults, user, purchase_order_issue,
}
use arcus_invest_backend.Approvals.Queries.{
  match_rule, insert_request, insert_decision, consume_rows, finalise_rows,
}
use arcus_invest_backend.Approvals.Gate.{create_request, raise, consume, gate_covered, gate}
use arcus_invest_backend.Approvals.Desk.{
  eligible_to_decide, open_case, record_decision, close_approved, settle, approve_row,
  admin_approve_request,
}
use arcus_invest_backend.Approvals.Sound.{edit_step, Reach, here, next, start}
use arcus_invest_backend.Approvals.Proofs.Invariant.{Reach-IsSound, start-IsSound}
use arcus_invest_backend.Approvals.Proofs.GateSteps.{gate-Reach, Reach-trans}
use arcus_invest_backend.Approvals.Proofs.DeskSteps.{approve-Reach}
use arcus_invest_backend.Approvals.Proofs.GateLaws.{Spending}
use arcus_invest_backend.Base.Int.{◌+ℤ◌, ◌-ℤ◌, ◌*ℤ◌}
use arcus_invest_backend.Base.Words.{add64, mul64, quot64, rem64, wrap64}
use arcus_invest_backend.LandedCost.Spread.{
  total_weight, floor_shares, slots_from, placed_from, insert_slot, sort_slots, increment, hand_out,
  spread, spread_by, apportion_ngwee,
}
use arcus_invest_backend.LandedCost.Receipt.{
  to_ngwee, cut64, from_ngwee, basis_weight_of, basis_weights, apportion_receipt,
}
use arcus_invest_backend.Stock.Ledger.{Shelf, record_movement, stock_on_hand}
use arcus_invest_backend.Purchasing.Orders.{
  PoStatus, PurchaseOrder, at_rate, line_total, sum_lines, subtotal, subtotal_zmw,
}
use arcus_invest_backend.Purchasing.Receipts.{
  Office, OrderView, received_by_line, brought, amount_zmw, total_components, is_fully_received,
  purchase_order_json, no_lines,
}
use arcus_invest_backend.Purchasing.Desk.{
  shown, ask_issue, is_issuable, next_purchase_order_number, admin_create_purchase_order,
  admin_issue_purchase_order,
}
use arcus_invest_backend.Purchasing.OrderForms.{
  OrderRequest, saved, validate_lines, validate_purchase_order, lines_from_request, lines_clash,
}
use arcus_invest_backend.Purchasing.Arrivals.{
  goods_zmw, unit_cost, post_lines, refreshed, refresh_purchase_order_status, admin_receive_goods,
}
use arcus_invest_backend.Purchasing.Deliveries.{
  ReceiptRequest, component_errors, arrival_error, arrival_errors, receipt_error, receipt_lines,
}
use arcus_invest_backend.Purchasing.Calls.{
  OrderCall, create, issue, cancel, receive, answer, answer_all,
}
use arcus_invest_backend.Purchasing.Edges.{Edge, status_of}
use arcus_invest_backend.Purchasing.Lifecycle.{order_lifecycle}
use arcus_invest_backend.Purchasing.Issue.{issue_authorised}
use arcus_invest_backend.Purchasing.Quantities.{for_order}
use arcus_invest_backend.Purchasing.Stocked.{is_fresh}
use arcus_invest_backend.Purchasing.Outstanding.{received_within_ordered}

abbrev up : Faults
up s = false

-- Ten units at two kwacha each.
abbrev request : OrderRequest
request = record {
  supplier = codes "Volta";
  currency = [];
  exchange_rate = pos 0;
  order_date = none;
  opportunity_id = none;
  lines =
      record {
        product_id = some 7;
        description = codes "Cable";
        quantity = pos 10;
        unit_price = pos 2000000;
      }
      ∷ [];
}

abbrev line_ids : ℕ → ℕ
line_ids i = 40

abbrev delivery : ℤ → ReceiptRequest
delivery n = record {
  received_at = none;
  exchange_rate = pos 0;
  basis = [];
  lines = record { purchase_order_line_id = 40; quantity = n; weight = pos 0 } ∷ [];
  components =
      record {
        kind = codes "freight";
        amount = pos 5000000;
        exchange_rate = pos 0;
        incurred_at = none;
      }
      ∷ [];
}

abbrev empty_shelf : Shelf
empty_shelf = record { products = 7 ∷ []; movements = [] }

abbrev before : Office
before = record { approvals = start; orders = []; receipts = []; shelf = empty_shelf }

-- Four units arrive, then six, then one too many.
abbrev trade : List OrderCall
trade =
    create line_ids 1 30 (user 1) (some request)
    ∷ issue up 2 2024 100 (user 1) (some 30)
    ∷ receive 3 50 (user 1) (some 30) (some (delivery (pos 4)))
    ∷ receive 4 51 (user 1) (some 30) (some (delivery (pos 6)))
    ∷ receive 5 52 (user 1) (some 30) (some (delivery (pos 1)))
    ∷ []

abbrev after : Office
after = answer_all trade before

-- One more request would cancel the order, which has been received.
order_lifecycle_example :
    Edge (status_of 30 after.orders) (status_of 30 (answer (cancel (some 30)) after).orders)
order_lifecycle_example = order_lifecycle start empty_shelf trade (cancel (some 30)) 30

received_within_ordered_example :
    All
      (λ o.
        All (λ l. received_by_line o.id after.receipts l.id ≤ℤ l.quantity) o.lines
        × (is_fresh o.status ≡ true → any (for_order o.id) after.receipts ≡ false))
      after.orders
received_within_ordered_example =
    received_within_ordered start empty_shelf trade
      (tt, (tt, ((refl, tt), ((refl, tt), ((refl, tt), tt)))))

trade_received : status_of 30 after.orders ≡ some PoStatus.received
unfolding answer answer_all admin_create_purchase_order validate_purchase_order validate_lines
    lines_from_request lines_clash admin_issue_purchase_order gate match_rule
    next_purchase_order_number at_rate subtotal_zmw subtotal sum_lines line_total
    admin_receive_goods receipt_error component_errors arrival_errors arrival_error received_by_line
    brought receipt_lines apportion_receipt basis_weights basis_weight_of total_components
    amount_zmw goods_zmw unit_cost post_lines record_movement stock_on_hand refreshed
    refresh_purchase_order_status apportion_ngwee spread total_weight floor_shares slots_from
    placed_from insert_slot sort_slots increment hand_out to_ngwee cut64 from_ngwee ◌+ℤ◌ ◌-ℤ◌ ◌*ℤ◌
    add64 mul64 quot64 rem64 text_eq trim_space trim_left is_space spread_by wrap64
trade_received = refl

-- One receipt that names the line twice, ten units each time.
abbrev doubled : List OrderCall
doubled =
    create line_ids 1 30 (user 1) (some request)
    ∷ issue up 2 2024 100 (user 1) (some 30)
    ∷ receive 3 50 (user 1) (some 30) (
        some (record (delivery (pos 10)) {
          lines =
              record { purchase_order_line_id = 40; quantity = pos 10; weight = pos 0 }
              ∷ record { purchase_order_line_id = 40; quantity = pos 10; weight = pos 0 }
              ∷ [];
        }))
    ∷ []

doubled_received : received_by_line 30 (answer_all doubled before).receipts 40 ≡ pos 20
unfolding answer answer_all admin_create_purchase_order validate_purchase_order validate_lines
    lines_from_request lines_clash admin_issue_purchase_order gate match_rule
    next_purchase_order_number at_rate subtotal_zmw subtotal sum_lines line_total
    admin_receive_goods receipt_error component_errors arrival_errors arrival_error received_by_line
    brought receipt_lines apportion_receipt basis_weights basis_weight_of total_components
    amount_zmw goods_zmw unit_cost post_lines record_movement stock_on_hand refreshed
    refresh_purchase_order_status apportion_ngwee spread total_weight floor_shares slots_from
    placed_from insert_slot sort_slots increment hand_out to_ngwee cut64 from_ngwee ◌+ℤ◌ ◌-ℤ◌ ◌*ℤ◌
    add64 mul64 quot64 rem64 text_eq trim_space trim_left is_space spread_by wrap64
doubled_received = refl

abbrev buyer : User
buyer = record { id = 1; full_name = codes "B"; role = codes "sales" }

abbrev director : User
director = record { id = 2; full_name = codes "D"; role = codes "director" }

abbrev big_orders : ApprovalRule
big_orders = record {
  id = 5;
  action = purchase_order_issue;
  min_amount = pos 1000000;
  required_count = pos 1;
  approver_role = codes "director";
  is_active = true;
  note = [];
}

abbrev ruled : Store
ruled = record start { rules = big_orders ∷ []; users = buyer ∷ director ∷ [] }

abbrev the_order : PurchaseOrder
the_order = record {
  id = 30;
  number = none;
  supplier = codes "Volta";
  currency = codes "ZMW";
  exchange_rate = pos 1000000;
  status = PoStatus.pending_approval;
  order_date = 1;
  opportunity_id = none;
  issued_at = none;
  raised_by_id = some 1;
  lines =
      record {
        id = 40;
        product_id = some 7;
        description = codes "Cable";
        quantity = pos 10;
        unit_price = pos 2000000;
      }
      ∷ [];
}

-- The approval engine after the buyer has asked, and after the director has approved.
abbrev asked : Store
asked = (gate up 2 100 (ask_issue the_order) (user 1) ruled).1

abbrev approved_store : Store
approved_store = (admin_approve_request up 3 (some 100) (user 2) [] asked).1

approved-Reach : Reach start approved_store
approved-Reach =
    Reach-trans
      (Reach-trans (next here (edit_step start (big_orders ∷ []) (buyer ∷ director ∷ []) []))
        (gate-Reach up 2 100 (ask_issue the_order) (user 1) ruled))
      (approve-Reach up 3 (some 100) (user 2) [] asked)

abbrev waiting : Office
waiting = record {
  approvals = approved_store;
  orders = the_order ∷ [];
  receipts = [];
  shelf = empty_shelf;
}

abbrev issued_view : OrderView
issued_view =
    purchase_order_json
      (record the_order {
        status = PoStatus.issued;
        issued_at = some 4;
        number = some (record { year = 2024; sequence = 1 });
      })
      (received_by_line 30 [])

waiting_rule :
    match_rule purchase_order_issue (subtotal_zmw the_order) approved_store.rules ≡ some big_orders
unfolding gate match_rule admin_approve_request open_case text_eq subtotal_zmw at_rate ◌*ℤ◌ subtotal
    sum_lines ◌+ℤ◌ line_total gate_covered raise create_request insert_request approve_row
    record_decision insert_decision close_approved eligible_to_decide settle consume consume_rows
    finalise_rows
waiting_rule = refl

waiting_issued :
    (admin_issue_purchase_order up 4 2024 101 (user 1) (some 30) waiting).0 ≡ saved issued_view
unfolding gate match_rule admin_approve_request open_case text_eq subtotal_zmw at_rate ◌*ℤ◌ subtotal
    sum_lines ◌+ℤ◌ line_total gate_covered raise create_request insert_request approve_row
    record_decision insert_decision close_approved eligible_to_decide settle consume consume_rows
    finalise_rows admin_issue_purchase_order ◌-ℤ◌ next_purchase_order_number shown brought
    is_fully_received purchase_order_json received_by_line
waiting_issued = refl

issue_authorised_example :
    (is_issuable the_order.status ≡ true)
    × (no_lines the_order.lines ≡ false)
    × Spending
        (ask_issue the_order)
        (user 1)
        approved_store
        (admin_issue_purchase_order up 4 2024 101 (user 1) (some 30) waiting).1.approvals
issue_authorised_example =
    issue_authorised up 4 2024 101 (user 1) 30 the_order waiting big_orders issued_view
      (Reach-IsSound start-IsSound approved-Reach) refl waiting_rule waiting_issued
