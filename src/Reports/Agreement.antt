-- ===== src/Reports/Agreement.antt =====
-- The reports and the position, against the deals, payments and expenses that they are made from.
use mathlib.Core.List.{Permᴰ}
use arcus_invest_backend.Base.{ℕ, ◌≡◌, refl, ◌∙◌, ℤ, ◌+ℤ◌, ◌-ℤ◌, List}
use arcus_invest_backend.Payables.Expenses.{Expense}
use arcus_invest_backend.Reports.Ageing.{AgedReport, current, from_30, from_60, from_90}
use arcus_invest_backend.Reports.Receivables.{
  Opportunity, Payment, ReceivableRow, receivable_rows, build_receivables, admin_receivables,
}
use arcus_invest_backend.Reports.Position.{
  PayableRow, PositionView, payable_rows, build_payables, admin_payables, admin_position,
}
use arcus_invest_backend.Reports.Sums.{
  total_owed-perm, bands_total, owed_by_all, payable_rows-total, owed_on_all, receivable_rows-total,
  total_vat, vat_split, total_net, sum_spend, spend_total,
}

-- The four buckets of a report add up to its total, and the total is the amount.
pub record IsBalanced {A : Type 0} (r : AgedReport A) (amount : ℤ) : Type 0 where
  pub bands :
      r.buckets current +ℤ r.buckets from_30 +ℤ r.buckets from_60 +ℤ r.buckets from_90
      ≡ r.total_outstanding
  pub total : r.total_outstanding ≡ amount

-- The position agrees with both reports, and splits the spend and the VAT of all expenses.
pub record Agrees (v : PositionView) (receivables : AgedReport ReceivableRow)
    (payables : AgedReport PayableRow) (es : List Expense) : Type 0 where
  pub to_us : v.owed_to_us ≡ receivables.total_outstanding
  pub by_us : v.owed_by_us ≡ payables.total_outstanding
  pub net : v.net ≡ receivables.total_outstanding -ℤ payables.total_outstanding
  pub spend : sum_spend v.spend ≡ total_net es
  pub vat : v.recoverable_input_vat +ℤ v.irrecoverable_input_vat ≡ total_vat es

receivables-IsBalanced :
    (sort : List ReceivableRow → List ReceivableRow) (now : ℕ) (ps : List Payment)
    (os : List Opportunity)
    → ((rs : List ReceivableRow) → Permᴰ (sort rs) rs)
    → IsBalanced (admin_receivables sort now ps os) (owed_on_all ps os)
unfolding admin_receivables
receivables-IsBalanced sort now ps os perm = record {
  bands = bands_total (λ r. r.outstanding) (λ r. r.bucket) (build_receivables sort now ps os);
  total =
      total_owed-perm (λ r. r.outstanding) (perm (receivable_rows now ps os))
      ∙ receivable_rows-total now ps os;
}

payables-IsBalanced :
    (sort : List PayableRow → List PayableRow) (now : ℕ) (es : List Expense)
    → ((rs : List PayableRow) → Permᴰ (sort rs) rs)
    → IsBalanced (admin_payables sort now es) (owed_by_all es)
unfolding admin_payables
payables-IsBalanced sort now es perm = record {
  bands = bands_total (λ r. r.outstanding) (λ r. r.bucket) (build_payables sort now es);
  total =
      total_owed-perm (λ r. r.outstanding) (perm (payable_rows now es)) ∙ payable_rows-total now es;
}

-- Whatever order the two sorts put the rows in: the four buckets of the aged receivables add up to
-- their total, which is what all billed deals still owe. Those of the aged payables add up to
-- theirs, which is what all expenses still owe. The position has both totals and their difference,
-- its spend by category adds up to the net amount of all expenses, and its two VAT figures to their
-- VAT.
pub position_adds_up :
    (sort_in : List ReceivableRow → List ReceivableRow)
    (sort_out : List PayableRow → List PayableRow) (now : ℕ) (ps : List Payment)
    (os : List Opportunity) (es : List Expense)
    → ((rs : List ReceivableRow) → Permᴰ (sort_in rs) rs)
    → ((rs : List PayableRow) → Permᴰ (sort_out rs) rs)
    → IsBalanced (admin_receivables sort_in now ps os) (owed_on_all ps os)
      × IsBalanced (admin_payables sort_out now es) (owed_by_all es)
      × Agrees
          (admin_position sort_in sort_out now ps os es)
          (admin_receivables sort_in now ps os)
          (admin_payables sort_out now es)
          es
unfolding admin_position admin_receivables admin_payables
position_adds_up sort_in sort_out now ps os es perm_in perm_out = (
  receivables-IsBalanced sort_in now ps os perm_in,
  payables-IsBalanced sort_out now es perm_out,
  record { to_us = refl; by_us = refl; net = refl; spend = spend_total es; vat = vat_split es },
)
