-- ===== src/Reports/Tests.antt =====
-- A deal and an expense in the reports, with rows sorted by insertion, and a product bought twice.
use mathlib.Core.List.{Permᴰ}
use mathlib.Core.List.Permᴰ
use arcus_invest_backend.Base.{
  ℕ, ◌*◌, ◌≤◌, ◌≡◌, refl, inl, inr, ltb, pos, true, none, some, List, [], ◌∷◌, arith, Bool-cases,
  if◌then◌else◌,
}
use arcus_invest_backend.Base.Int.{◌+ℤ◌, ◌-ℤ◌, ◌*ℤ◌}
use arcus_invest_backend.Base.Text.{codes, text_eq}
use arcus_invest_backend.Purchasing.Orders.{at_rate}
use arcus_invest_backend.Payables.Expenses.{Expense}
use arcus_invest_backend.Stock.Ledger.{StockKind, StockMovement}
use arcus_invest_backend.Reports.Ageing.{AgeBand, age_bucket, days_since, band_total}
use arcus_invest_backend.Reports.Receivables.{
  Opportunity, Payment, ReceivableRow, admin_receivables, receivable_rows, invoiced_total,
  items_total, paid_total, payments_of,
}
use arcus_invest_backend.Reports.Receivables as Receivables
use arcus_invest_backend.Reports.Position.{PayableRow, admin_payables, admin_position}
use arcus_invest_backend.Reports.Costing.{weighted_average_cost, priced_quantity, priced_value}
use arcus_invest_backend.Reports.Sums.{owed_by_all, owed_on_all}
use arcus_invest_backend.Reports.Agreement.{IsBalanced, Agrees, position_adds_up}
use arcus_invest_backend.Reports.Average.{average_between}

module _ {A : Type 0} (days : A → ℕ) where
  insert_row : A → List A → List A
  insert_row x [] = x ∷ []
  insert_row x (y ∷ ys) = if ltb (days x) (days y) then y ∷ insert_row x ys else x ∷ y ∷ ys

  sort_rows : List A → List A
  sort_rows [] = []
  sort_rows (x ∷ xs) = insert_row x (sort_rows xs)

  insert_row-perm : (x : A) (ys : List A) → Permᴰ (insert_row x ys) (x ∷ ys)
  unfolding insert_row
  insert_row-perm x [] = Permᴰ.refl (x ∷ [])
  insert_row-perm x (y ∷ ys) = elim (Bool-cases (ltb (days x) (days y))) [
    | inl e ↦ rw e (Permᴰ.trans (Permᴰ.cons refl (insert_row-perm x ys)) (Permᴰ.swap refl refl))
    | inr e ↦ rw e (Permᴰ.refl (x ∷ y ∷ ys))
  ]

  sort_rows-perm : (xs : List A) → Permᴰ (sort_rows xs) xs
  unfolding sort_rows
  sort_rows-perm [] = Permᴰ.nil
  sort_rows-perm (x ∷ xs) =
      Permᴰ.trans (insert_row-perm x (sort_rows xs)) (Permᴰ.cons refl (sort_rows-perm xs))

-- Two units at a hundred kwacha with VAT, of which a hundred kwacha is paid.
abbrev deal : Opportunity
deal = record {
  id = 1;
  account_name = codes "A";
  stage = codes "won";
  deal_value = pos 0;
  invoiced_at = some 0;
  apply_vat = true;
  line_items = record { quantity = pos 2000000; unit_price = pos 100000000 } ∷ [];
}

abbrev part_payment : Payment
part_payment = record { id = 2; opportunity_id = 1; amount = pos 100000000 }

abbrev rent : Expense
rent = record {
  id = 3;
  supplier = codes "Landlord";
  category = codes "rent";
  smart_invoice_ref = [];
  customs_assessment_ref = [];
  purchase_order_id = none;
  net_amount = pos 3000000;
  vat_amount = pos 480000;
  vat_treatment = codes "standard";
  incurred_at = 0;
  due_date = none;
  opportunity_id = none;
  recorded_by_id = none;
  settlements = [];
}

-- Forty-five days later.
abbrev now : ℕ
now = 45 * 86400

abbrev by_days_in : List ReceivableRow → List ReceivableRow
by_days_in rs = sort_rows (λ r. r.days_overdue) rs

abbrev by_days_out : List PayableRow → List PayableRow
by_days_out rs = sort_rows (λ r. r.days_overdue) rs

position_adds_up_example :
    IsBalanced
      (admin_receivables by_days_in now (part_payment ∷ []) (deal ∷ []))
      (owed_on_all (part_payment ∷ []) (deal ∷ []))
    × IsBalanced (admin_payables by_days_out now (rent ∷ [])) (owed_by_all (rent ∷ []))
    × Agrees
        (admin_position by_days_in by_days_out now (part_payment ∷ []) (deal ∷ []) (rent ∷ []))
        (admin_receivables by_days_in now (part_payment ∷ []) (deal ∷ []))
        (admin_payables by_days_out now (rent ∷ []))
        (rent ∷ [])
position_adds_up_example =
    position_adds_up by_days_in by_days_out now (part_payment ∷ []) (deal ∷ []) (rent ∷ [])
      (sort_rows-perm (λ r. r.days_overdue)) (sort_rows-perm (λ r. r.days_overdue))

deal_owes :
    (admin_receivables by_days_in now (part_payment ∷ []) (deal ∷ [])).buckets AgeBand.from_30
    ≡ pos 132000000
unfolding admin_receivables band_total sort_rows receivable_rows text_eq Receivables.outstanding
    ◌-ℤ◌ invoiced_total ◌+ℤ◌ items_total at_rate ◌*ℤ◌ paid_total payments_of insert_row age_bucket
    days_since
deal_owes = refl

abbrev bought : ℕ → ℕ → StockMovement
bought n cost = record {
  product_id = 7;
  kind = StockKind.receipt;
  quantity = pos n;
  reason = [];
  unit_cost = pos cost;
  opportunity_id = none;
  expense_id = none;
  counter_sale_id = none;
  occurred_at = 1;
  actor_id = none;
}

abbrev purchases : List StockMovement
purchases = bought 3 2000000 ∷ bought 1 4000000 ∷ []

average_cost : weighted_average_cost 7 purchases ≡ some (pos 2500000)
unfolding weighted_average_cost priced_quantity priced_value ◌+ℤ◌ ◌*ℤ◌
average_cost = refl

average_between_example : (c : ℕ) × (pos 2500000 ≡ pos c) × (2000000 ≤ c) × (c ≤ 4000000)
average_between_example =
    average_between 7 2000000 4000000 purchases (pos 2500000)
      (
        (λ e. (2000000, refl, omega arith, omega arith)),
        ((λ e. (4000000, refl, omega arith, omega arith)), tt),
      )
      average_cost
