-- ===== src/Reports/Position.antt =====
-- What the business owes, and its position: `buildPayables`, `AdminPayables` and `AdminPosition` of
-- internal/handlers/payables.go.
use arcus_invest_backend.Base.{
  ℕ, ℤ, pos, ◌+ℤ◌, ◌-ℤ◌, leb_ℤ, Option, none, some, List, [], ◌∷◌, if◌then◌else◌,
}
use arcus_invest_backend.Base.Text.{Text, text_eq}
use arcus_invest_backend.Payables.Expenses.{Expense, gross, settled, outstanding, reclaimable_vat}
use arcus_invest_backend.Reports.Ageing.{
  AgeBand, AgedReport, age_bucket, days_since, total_owed, band_total,
}
use arcus_invest_backend.Reports.Receivables.{
  Opportunity, Payment, ReceivableRow, build_receivables,
}

pub record PayableRow : Type 0 where
  pub expense_id : ℕ
  pub supplier : Text
  pub category : Text
  pub incurred_at : ℕ
  pub due_date : Option ℕ
  pub gross : ℤ
  pub settled : ℤ
  pub outstanding : ℤ
  pub bucket : AgeBand
  pub days_overdue : ℕ
  pub vat_treatment : Text

abbrev date_or : Option ℕ → ℕ → ℕ
date_or none t = t
date_or (some d) t = d

abbrev aging_date : Expense → ℕ
aging_date e = date_or e.due_date e.incurred_at

abbrev payable_row : ℕ → Expense → PayableRow
payable_row now e = record {
  expense_id = e.id;
  supplier = e.supplier;
  category = e.category;
  incurred_at = e.incurred_at;
  due_date = e.due_date;
  gross = gross e;
  settled = settled e;
  outstanding = outstanding e;
  bucket = age_bucket (some (aging_date e)) now;
  days_overdue = days_since (aging_date e) now;
  vat_treatment = e.vat_treatment;
}

unfoldable pub payable_rows : ℕ → List Expense → List PayableRow
payable_rows now [] = []
payable_rows now (e ∷ es) =
    let rest = payable_rows now es in
    if leb_ℤ (outstanding e) (pos 0) then rest else payable_row now e ∷ rest

-- `buildPayables`, with the sort of `sort.Slice` as an argument.
abbrev pub build_payables : (List PayableRow → List PayableRow) → ℕ → List Expense → List PayableRow
build_payables sort now es = sort (payable_rows now es)

unfoldable pub admin_payables :
    (List PayableRow → List PayableRow) → ℕ → List Expense → AgedReport PayableRow
admin_payables sort now es =
    let rows = build_payables sort now es in
    record {
      rows = rows;
      buckets = λ b. band_total (λ r. r.outstanding) (λ r. r.bucket) b rows;
      total_outstanding = total_owed (λ r. r.outstanding) rows;
    }

-- `byCategory[c] += n`, on the entries of the map.
unfoldable pub add_spend : Text → ℤ → List (Text × ℤ) → List (Text × ℤ)
add_spend c n [] = (c, n) ∷ []
add_spend c n ((k, m) ∷ es) = if text_eq k c then (k, n +ℤ m) ∷ es else (k, m) ∷ add_spend c n es

unfoldable pub spend_by_category : List Expense → List (Text × ℤ)
spend_by_category [] = []
spend_by_category (e ∷ es) = add_spend e.category e.net_amount (spend_by_category es)

unfoldable pub recoverable_vat : List Expense → ℤ
recoverable_vat [] = pos 0
recoverable_vat (e ∷ es) = reclaimable_vat e +ℤ recoverable_vat es

unfoldable pub sunk_vat : List Expense → ℤ
sunk_vat [] = pos 0
sunk_vat (e ∷ es) = (e.vat_amount -ℤ reclaimable_vat e) +ℤ sunk_vat es

pub record PositionView : Type 0 where
  pub owed_to_us : ℤ
  pub owed_by_us : ℤ
  pub net : ℤ
  pub spend : List (Text × ℤ)
  pub recoverable_input_vat : ℤ
  pub irrecoverable_input_vat : ℤ

unfoldable pub admin_position :
    (List ReceivableRow → List ReceivableRow)
    → (List PayableRow → List PayableRow)
    → ℕ
    → List Payment
    → List Opportunity
    → List Expense
    → PositionView
admin_position sort_in sort_out now ps os es =
    let to_us = total_owed (λ r. r.outstanding) (build_receivables sort_in now ps os) in
    let by_us = total_owed (λ r. r.outstanding) (build_payables sort_out now es) in
    record {
      owed_to_us = to_us;
      owed_by_us = by_us;
      net = to_us -ℤ by_us;
      spend = spend_by_category es;
      recoverable_input_vat = recoverable_vat es;
      irrecoverable_input_vat = sunk_vat es;
    }
