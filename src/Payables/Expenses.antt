-- ===== src/Payables/Expenses.antt =====
-- Expenses and settlements (internal/models/payables_models.go). Amounts are in millionths of a
-- kwacha; the columns that nothing decides by are left out.
use arcus_invest_backend.Base.{
  ℕ, ℤ, pos, ◌+ℤ◌, ◌-ℤ◌, ltb_ℤ, Bool, ◌&&◌, Option, List, [], ◌∷◌, any, if◌then◌else◌,
}
use arcus_invest_backend.Base.Text.{Text, codes, text_eq, is_empty}

abbrev pub vat_standard : Text
vat_standard = codes "standard"

abbrev all_vat_treatments : List Text
all_vat_treatments = vat_standard ∷ codes "zero_rated" ∷ codes "exempt" ∷ codes "none" ∷ []

abbrev all_expense_categories : List Text
all_expense_categories =
    codes "purchases"
    ∷ codes "salaries"
    ∷ codes "rent"
    ∷ codes "utilities"
    ∷ codes "transport"
    ∷ codes "repairs"
    ∷ codes "professional"
    ∷ codes "bank_charges"
    ∷ codes "marketing"
    ∷ codes "insurance"
    ∷ codes "statutory"
    ∷ codes "equipment"
    ∷ codes "other"
    ∷ []

abbrev pub valid_vat_treatment : Text → Bool
valid_vat_treatment t = any (λ v. text_eq v t) all_vat_treatments

abbrev pub valid_expense_category : Text → Bool
valid_expense_category t = any (λ v. text_eq v t) all_expense_categories

pub record ExpenseSettlement : Type 0 where
  pub amount : ℤ
  pub method : Text
  pub paid_at : ℕ
  pub recorded_by_id : Option ℕ

pub record Expense : Type 0 where
  pub id : ℕ
  pub supplier : Text
  pub category : Text
  pub smart_invoice_ref : Text
  pub customs_assessment_ref : Text
  pub purchase_order_id : Option ℕ
  pub net_amount : ℤ
  pub vat_amount : ℤ
  pub vat_treatment : Text
  pub incurred_at : ℕ
  pub due_date : Option ℕ
  pub opportunity_id : Option ℕ
  pub recorded_by_id : Option ℕ
  pub settlements : List ExpenseSettlement

unfoldable pub gross : Expense → ℤ
gross e = e.net_amount +ℤ e.vat_amount

unfoldable pub reclaimable_vat : Expense → ℤ
reclaimable_vat e =
    if text_eq e.vat_treatment vat_standard
    then (if is_empty e.smart_invoice_ref && is_empty e.customs_assessment_ref
        then pos 0
        else e.vat_amount)
    else pos 0

unfoldable pub sum_settlements : List ExpenseSettlement → ℤ
sum_settlements [] = pos 0
sum_settlements (s ∷ ss) = s.amount +ℤ sum_settlements ss

unfoldable pub settled : Expense → ℤ
settled e = sum_settlements e.settlements

unfoldable pub outstanding : Expense → ℤ
outstanding e = let out = gross e -ℤ settled e in if ltb_ℤ out (pos 0) then pos 0 else out
