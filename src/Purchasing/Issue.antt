-- ===== src/Purchasing/Issue.antt =====
-- What issuing an order takes, and what receiving goods leaves.
use arcus_invest_backend.Base.{ℕ, ◌≡◌, refl, subst, inl, inr, true, false, some, find, Bool-cases}
use arcus_invest_backend.Approvals.Types.{ApprovalRule, Faults, Caller, purchase_order_issue}
use arcus_invest_backend.Approvals.Types as Rows
use arcus_invest_backend.Approvals.Queries.{match_rule}
use arcus_invest_backend.Approvals.Gate.{Verdict, proceed, blocked, failed, gate}
use arcus_invest_backend.Approvals.Sound.{IsSound}
use arcus_invest_backend.Approvals.Proofs.GateLaws.{Spending, gate_proceeds}
use arcus_invest_backend.Purchasing.Orders.{PurchaseOrder, subtotal_zmw}
use arcus_invest_backend.Purchasing.Receipts.{Office, OrderView, no_lines}
use arcus_invest_backend.Purchasing.Desk.{
  is_issuable, ask_issue, after_gate, issue_row, admin_issue_purchase_order, with_order,
}
use arcus_invest_backend.Purchasing.OrderForms.{OrderReply, saved, order_is}

abbrev Proceeded : Verdict × Rows.Store → OrderReply × Office → Type 0
Proceeded g m = (g.0 ≡ proceed) × (g.1 ≡ m.1.approvals)

after_gate-saved :
    (now year n : ℕ) (o : PurchaseOrder) (g : Verdict × Rows.Store) (s : Office) {v : OrderView}
    → (after_gate now year n o g s).0 ≡ saved v
    → Proceeded g (after_gate now year n o g s)
after_gate-saved now year n o (failed, a) s h = absurd cc
after_gate-saved now year n o (blocked r, a) s h = absurd cc
after_gate-saved now year n o (proceed, a) s h = (refl, refl)

-- What a successful issue establishes of the order that was found.
issue_row-saved :
    (down : Faults) (now year approval : ℕ) (who : Caller) (n : ℕ) (o : PurchaseOrder) (s : Office)
    {v : OrderView}
    → (issue_row down now year approval who n o s).0 ≡ saved v
    → (is_issuable o.status ≡ true)
      × (no_lines o.lines ≡ false)
      × Proceeded
          (gate down now approval (ask_issue o) who s.approvals)
          (issue_row down now year approval who n o s)
issue_row-saved down now year approval who n o s {v} = elim (Bool-cases (is_issuable o.status)) [
  | inr e ↦ rw (e, issue_row) (λ h. absurd cc)
  | inl e ↦ elim (Bool-cases (no_lines o.lines)) [
    | inl c ↦ rw (e, c, issue_row) (λ h. absurd cc)
    | inr c ↦
        rw (e, c, issue_row)
          (λ h. (
            refl,
            refl,
            after_gate-saved now year n o (gate down now approval (ask_issue o) who s.approvals) s
                h,
          ))
  ]
]

-- In sound tables of the approval engine, where a rule covers the issue of an order at its value in
-- kwacha, and whatever statements the database fails: an issue of it that is granted has found the
-- order issuable and with a line, and has spent an approved request of the caller to issue this
-- order, for at least its value.
pub issue_authorised :
    (down : Faults) (now year approval : ℕ) (who : Caller) (n : ℕ) (o : PurchaseOrder) (s : Office)
    (rule : ApprovalRule) (v : OrderView)
    → IsSound s.approvals
    → find (order_is n) s.orders ≡ some o
    → match_rule purchase_order_issue (subtotal_zmw o) s.approvals.rules ≡ some rule
    → (admin_issue_purchase_order down now year approval who (some n) s).0 ≡ saved v
    → (is_issuable o.status ≡ true)
      × (no_lines o.lines ≡ false)
      × Spending
          (ask_issue o)
          who
          s.approvals
          (admin_issue_purchase_order down now year approval who (some n) s).1.approvals
unfolding admin_issue_purchase_order
issue_authorised down now year approval who n o s rule v sound found m =
    rw (found, admin_issue_purchase_order, with_order)
      (λ h.
        let (ready, lines, through) = issue_row-saved down now year approval who n o s {v = v} h in
        (
          ready,
          lines,
          subst (Spending (ask_issue o) who s.approvals) through.1 (
              gate_proceeds down now approval rule (ask_issue o) who s.approvals sound m through.0),
        ))
