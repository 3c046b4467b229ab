-- ===== src/Payables/Handlers.antt =====
-- The handlers of internal/handlers/payables.go that write expenses and settlements, the gated ones
-- by way of the approval engine. The summary of a request for approval is left empty.
use arcus_invest_backend.Base.{
  ℕ, ℤ, pos, ◌+ℤ◌, ltb_ℤ, leb_ℤ, eqb_ℤ, Bool, ◌&&◌, not, Option, none, some, List, [], ◌∷◌, ◌==◌,
  find, any, update_where, if◌then◌else◌,
}
use arcus_invest_backend.Base.Text.{Text, codes, text_eq, is_empty, trim_space}
use arcus_invest_backend.Base.Tables.{delete_where}
use arcus_invest_backend.Approvals.Types.{
  ApprovalRequest, Faults, Caller, User, expense_record, expense_settle,
}
use arcus_invest_backend.Approvals.Types as Rows
use arcus_invest_backend.Approvals.Queries.{find_user}
use arcus_invest_backend.Approvals.Gate.{Ask, Verdict, proceed, blocked, failed, gate}
use arcus_invest_backend.Payables.Expenses.{
  Expense, ExpenseSettlement, gross, settled, outstanding, vat_standard, valid_expense_category,
  valid_vat_treatment,
}

-- The expenses with the tables of the approval engine.
pub record Books : Type 0 where
  pub approvals : Rows.Store
  pub expenses : List Expense

pub record ExpenseRequest : Type 0 where
  pub supplier : Text
  pub category : Text
  pub smart_invoice_ref : Text
  pub customs_assessment_ref : Text
  pub purchase_order_id : Option ℕ
  pub net_amount : ℤ
  pub vat_amount : ℤ
  pub vat_treatment : Text
  pub incurred_at : Option ℕ
  pub due_date : Option ℕ
  pub opportunity_id : Option ℕ

pub data ExpenseReply : Type 0 where
  invalid_id not_found invalid_body : ExpenseReply
  no_supplier no_net_amount negative_vat bad_category bad_treatment vat_not_standard : ExpenseReply
  part_paid has_payments no_amount too_large bad_method : ExpenseReply
  gate_failed save_failed deleted : ExpenseReply
  awaiting : ApprovalRequest → ExpenseReply
  saved : Expense → ExpenseReply

-- `validateExpense`: the complaint, if there is one.
unfoldable pub validate_expense : ExpenseRequest → Option ExpenseReply
validate_expense r =
    if is_empty (trim_space r.supplier)
    then some no_supplier
    else (if leb_ℤ r.net_amount (pos 0)
        then some no_net_amount
        else (if ltb_ℤ r.vat_amount (pos 0)
            then some negative_vat
            else (if not (valid_expense_category r.category)
                then some bad_category
                else (if not (valid_vat_treatment r.vat_treatment)
                    then some bad_treatment
                    else (if not (text_eq r.vat_treatment vat_standard)
                          && not (eqb_ℤ r.vat_amount (pos 0))
                        then some vat_not_standard
                        else none)))))

-- `uuid.Nil`
abbrev pub nil_id : ℕ
nil_id = 0

abbrev pub ask_for : Text → ℕ → ℤ → Ask
ask_for action entity amount = record {
  action = action;
  entity_type = codes "expenses";
  entity_id = entity;
  amount = amount;
  summary = [];
}

abbrev pub actor : Caller → Books → Option ℕ
actor who s = elim (find_user who s.approvals) [ none ↦ none | some u ↦ some u.id ]

abbrev pub or_now : Option ℕ → ℕ → ℕ
or_now none now = now
or_now (some t) now = t

abbrev pub new_expense : ℕ → ℕ → ExpenseRequest → Option ℕ → Expense
new_expense now id r by = record {
  id = id;
  supplier = trim_space r.supplier;
  category = r.category;
  smart_invoice_ref = trim_space r.smart_invoice_ref;
  customs_assessment_ref = trim_space r.customs_assessment_ref;
  purchase_order_id = r.purchase_order_id;
  net_amount = r.net_amount;
  vat_amount = r.vat_amount;
  vat_treatment = r.vat_treatment;
  incurred_at = or_now r.incurred_at now;
  due_date = r.due_date;
  opportunity_id = r.opportunity_id;
  recorded_by_id = by;
  settlements = [];
}

-- A gated handler: what it does once the gate has let it through, in the store that the gate left.
abbrev pub gated :
    Verdict × Rows.Store → (Books → ExpenseReply × Books) → Books → ExpenseReply × Books
gated (failed, a) act s = (gate_failed, record s { approvals = a })
gated (blocked r, a) act s = (awaiting r, record s { approvals = a })
gated (proceed, a) act s = act (record s { approvals = a })

abbrev pub expense_is : ℕ → Expense → Bool
expense_is n e = e.id == n

abbrev pub add_expense : ℕ → ℕ → ExpenseRequest → Caller → Books → ExpenseReply × Books
add_expense now id r who s =
    if any (expense_is id) s.expenses
    then (save_failed, s)
    else (let e = new_expense now id r (actor who s) in
        (saved e, record s { expenses = e ∷ s.expenses }))

-- `AdminCreateExpense`, with the identifiers of the approval request and of the expense.
unfoldable pub admin_create_expense :
    Faults → ℕ → ℕ → ℕ → Caller → Option ExpenseRequest → Books → ExpenseReply × Books
admin_create_expense down now approval id who none s = (invalid_body, s)
admin_create_expense down now approval id who (some r) s = elim (validate_expense r) [
  | some e ↦ (e, s)
  | none ↦
      gated
        (gate down now approval (ask_for expense_record nil_id (r.net_amount +ℤ r.vat_amount)) who
          s.approvals)
        (add_expense now id r who) s
]

abbrev pub rewrite : ExpenseRequest → Expense → Expense
rewrite r e = record e {
  supplier = trim_space r.supplier;
  category = r.category;
  smart_invoice_ref = trim_space r.smart_invoice_ref;
  customs_assessment_ref = trim_space r.customs_assessment_ref;
  purchase_order_id = r.purchase_order_id;
  net_amount = r.net_amount;
  vat_amount = r.vat_amount;
  vat_treatment = r.vat_treatment;
  due_date = r.due_date;
  opportunity_id = r.opportunity_id;
  incurred_at = or_now r.incurred_at e.incurred_at;
}

abbrev pub change_expense : ℕ → ExpenseRequest → Expense → Books → ExpenseReply × Books
change_expense n r row s =
    if ltb_ℤ (pos 0) (settled row) && not (eqb_ℤ (r.net_amount +ℤ r.vat_amount) (gross row))
    then (part_paid, s)
    else (
      saved (rewrite r row),
      record s { expenses = update_where (expense_is n) (rewrite r) s.expenses },
    )

abbrev pub update_row : ℕ → Option ExpenseRequest → Expense → Books → ExpenseReply × Books
update_row n none row s = (invalid_body, s)
update_row n (some r) row s = elim (validate_expense r) [
  | some e ↦ (e, s)
  | none ↦ change_expense n r row s
]

-- The row of a path: its errors, or what is done with it.
abbrev pub with_row :
    Option ℕ → (ℕ → Expense → Books → ExpenseReply × Books) → Books → ExpenseReply × Books
with_row none act s = (invalid_id, s)
with_row (some n) act s = elim (find (expense_is n) s.expenses) [
  | none ↦ (not_found, s)
  | some row ↦ act n row s
]

-- `AdminUpdateExpense`
unfoldable pub admin_update_expense :
    Option ℕ → Option ExpenseRequest → Books → ExpenseReply × Books
admin_update_expense path body s = with_row path (λ n row. update_row n body row) s

abbrev pub delete_row : ℕ → Expense → Books → ExpenseReply × Books
delete_row n row s =
    if ltb_ℤ (pos 0) (settled row)
    then (has_payments, s)
    else (deleted, record s { expenses = delete_where (λ e. e.id) (expense_is n) s.expenses })

-- `AdminDeleteExpense`
unfoldable pub admin_delete_expense : Option ℕ → Books → ExpenseReply × Books
admin_delete_expense path s = with_row path delete_row s

pub record SettleRequest : Type 0 where
  pub amount : ℤ
  pub method : Text
  pub paid_at : Option ℕ

abbrev valid_payment_methods : List Text
valid_payment_methods =
    codes "cash"
    ∷ codes "bank_transfer"
    ∷ codes "mobile_money"
    ∷ codes "cheque"
    ∷ codes "card"
    ∷ codes "other"
    ∷ []

abbrev method_or_transfer : Text → Text
method_or_transfer m = if is_empty (trim_space m) then codes "bank_transfer" else trim_space m

abbrev pub pay : ExpenseSettlement → Expense → Expense
pay p e = record e { settlements = p ∷ e.settlements }

abbrev pub add_settlement : ℕ → SettleRequest → Caller → ℕ → Expense → Books → ExpenseReply × Books
add_settlement now r who n row s =
    let p : ExpenseSettlement = record {
      amount = r.amount;
      method = method_or_transfer r.method;
      paid_at = or_now r.paid_at now;
      recorded_by_id = actor who s;
    } in
    (saved (pay p row), record s { expenses = update_where (expense_is n) (pay p) s.expenses })

-- The checks of a settlement. Half a ngwee over what is outstanding is let through.
unfoldable pub settle_error : SettleRequest → Expense → Option ExpenseReply
settle_error r row =
    if leb_ℤ r.amount (pos 0)
    then some no_amount
    else (if ltb_ℤ (outstanding row +ℤ pos 5000) r.amount
        then some too_large
        else (if any (λ v. text_eq v (method_or_transfer r.method)) valid_payment_methods
            then none
            else some bad_method))

abbrev pub settle_row :
    Faults → ℕ → ℕ → Caller → Option SettleRequest → ℕ → Expense → Books → ExpenseReply × Books
settle_row down now approval who none n row s = (invalid_body, s)
settle_row down now approval who (some r) n row s = elim (settle_error r row) [
  | some e ↦ (e, s)
  | none ↦
      gated (gate down now approval (ask_for expense_settle row.id r.amount) who s.approvals)
        (add_settlement now r who n row) s
]

-- `AdminSettleExpense`
unfoldable pub admin_settle_expense :
    Faults → ℕ → ℕ → Caller → Option ℕ → Option SettleRequest → Books → ExpenseReply × Books
admin_settle_expense down now approval who path body s =
    with_row path (settle_row down now approval who body) s
