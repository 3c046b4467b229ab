-- ===== src/Payables/Tests.antt =====
-- Expenses that are recorded, settled and edited where no rule covers them.
use arcus_invest_backend.Base.{
  ◌*◌, ◌≡◌, refl, ℤ, pos, ◌≤ℤ◌, false, none, some, List, [], ◌∷◌, length, All, map,
}
use arcus_invest_backend.Base.Int.{◌+ℤ◌, ◌-ℤ◌}
use arcus_invest_backend.Base.Text.{codes, text_eq, trim_space}
use arcus_invest_backend.Approvals.Types.{Faults, user}
use arcus_invest_backend.Approvals.Sound.{start}
use arcus_invest_backend.Approvals.Queries.{match_rule}
use arcus_invest_backend.Approvals.Gate.{gate}
use arcus_invest_backend.Payables.Expenses.{gross, settled, sum_settlements, outstanding}
use arcus_invest_backend.Payables.Handlers.{
  Books, ExpenseRequest, SettleRequest, validate_expense, settle_error, admin_create_expense,
  admin_update_expense, admin_settle_expense,
}
use arcus_invest_backend.Payables.Overpayment.{
  ExpenseCall, create, update, settle, answer, answer_all, overpayment_bounded,
}

abbrev up : Faults
up s = false

abbrev rent : ExpenseRequest
rent = record {
  supplier = codes "Landlord";
  category = codes "rent";
  smart_invoice_ref = [];
  customs_assessment_ref = [];
  purchase_order_id = none;
  net_amount = pos 3000000;
  vat_amount = pos 0;
  vat_treatment = codes "exempt";
  incurred_at = none;
  due_date = some 100;
  opportunity_id = none;
}

abbrev payment : ℤ → SettleRequest
payment n = record { amount = n; method = []; paid_at = none }

-- Two kwacha, one kwacha and half a ngwee, a hundredth of a kwacha, and half a ngwee again.
abbrev calls : List ExpenseCall
calls =
    create up 1 100 20 (user 1) (some rent)
    ∷ settle up 2 101 (user 1) (some 20) (some (payment (pos 2000000)))
    ∷ settle up 3 102 (user 1) (some 20) (some (payment (pos 1005000)))
    ∷ settle up 4 103 (user 1) (some 20) (some (payment (pos 10000)))
    ∷ settle up 5 104 (user 1) (some 20) (some (payment (pos 5000)))
    ∷ update (some 20) (some (record rent { net_amount = pos 4000000 }))
    ∷ []

abbrev after : Books
after = answer_all calls (record { approvals = start; expenses = [] })

overpayment_bounded_example :
    All (λ e. settled e ≤ℤ gross e +ℤ pos (5000 * length e.settlements)) after.expenses
overpayment_bounded_example = overpayment_bounded start calls

overpaid : map settled after.expenses ≡ pos 3010000 ∷ []
unfolding answer answer_all admin_update_expense admin_settle_expense admin_create_expense
    validate_expense trim_space text_eq gate match_rule settle_error ◌+ℤ◌ outstanding ◌-ℤ◌ gross
    settled sum_settlements
overpaid = refl
