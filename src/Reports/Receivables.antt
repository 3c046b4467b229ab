-- ===== src/Reports/Receivables.antt =====
-- What clients owe: internal/services/receivables.go, and `buildReceivables`, `AdminReceivables`,
-- `AdminAccountPayments` and `AdminMarkInvoiced` of internal/handlers/receivables.go. Figures are in
-- millionths, and `none` stands for a path that is no id and for a body that cannot be bound.
use arcus_invest_backend.Base.{
  ℕ, ℤ, pos, ◌+ℤ◌, ◌-ℤ◌, ◌*ℤ◌, ltb_ℤ, leb_ℤ, eqb_ℤ, Bool, ◌&&◌, not, Option, none, some, is_some,
  List, [], ◌∷◌, ◌==◌, find, any, update_where, if◌then◌else◌,
}
use arcus_invest_backend.Base.Text.{Text, codes, text_eq, is_empty}
use arcus_invest_backend.Purchasing.Orders.{at_rate, quot_ℤ}
use arcus_invest_backend.Reports.Ageing.{
  AgeBand, AgedReport, age_bucket, days_since, total_owed, band_total,
}

pub record OpportunityLineItem : Type 0 where
  pub quantity : ℤ
  pub unit_price : ℤ

pub record Opportunity : Type 0 where
  pub id : ℕ
  pub account_name : Text
  pub stage : Text
  pub deal_value : ℤ
  pub invoiced_at : Option ℕ
  pub apply_vat : Bool
  pub line_items : List OpportunityLineItem

pub record Payment : Type 0 where
  pub id : ℕ
  pub opportunity_id : ℕ
  pub amount : ℤ

abbrev stage_lost : Text
stage_lost = codes "lost"

unfoldable pub items_total : List OpportunityLineItem → ℤ
items_total [] = pos 0
items_total (l ∷ ls) = at_rate l.quantity l.unit_price +ℤ items_total ls

abbrev pub billed : Opportunity → ℤ
billed o =
    if eqb_ℤ (items_total o.line_items) (pos 0) then o.deal_value else items_total o.line_items

-- VAT is 16 parts in a hundred.
unfoldable pub invoiced_total : Opportunity → ℤ
invoiced_total o = if o.apply_vat then billed o +ℤ quot_ℤ (billed o *ℤ pos 16) 100 else billed o

unfoldable pub paid_total : List Payment → ℤ
paid_total [] = pos 0
paid_total (p ∷ ps) = p.amount +ℤ paid_total ps

unfoldable pub outstanding : Opportunity → List Payment → ℤ
outstanding o ps =
    let balance = invoiced_total o -ℤ paid_total ps in
    if ltb_ℤ balance (pos 0) then pos 0 else balance

unfoldable pub payments_of : ℕ → List Payment → List Payment
payments_of n [] = []
payments_of n (p ∷ ps) = if p.opportunity_id == n then p ∷ payments_of n ps else payments_of n ps

pub record ReceivableRow : Type 0 where
  pub opportunity_id : ℕ
  pub invoiced_at : Option ℕ
  pub invoiced : ℤ
  pub paid : ℤ
  pub outstanding : ℤ
  pub bucket : AgeBand
  pub days_overdue : ℕ
  pub apply_vat : Bool

abbrev pub is_billed : Opportunity → Bool
is_billed o = is_some o.invoiced_at && not (text_eq o.stage stage_lost)

-- What is owed on a deal, by the payments that are recorded against it.
abbrev pub owed_on : List Payment → Opportunity → ℤ
owed_on ps o = outstanding o (payments_of o.id ps)

abbrev pub days_overdue : Option ℕ → ℕ → ℕ
days_overdue none now = 0
days_overdue (some from) now = days_since from now

abbrev pub receivable_row : ℕ → List Payment → Opportunity → ReceivableRow
receivable_row now ps o = record {
  opportunity_id = o.id;
  invoiced_at = o.invoiced_at;
  invoiced = invoiced_total o;
  paid = paid_total (payments_of o.id ps);
  outstanding = owed_on ps o;
  bucket = age_bucket o.invoiced_at now;
  days_overdue = days_overdue o.invoiced_at now;
  apply_vat = o.apply_vat;
}

unfoldable pub receivable_rows : ℕ → List Payment → List Opportunity → List ReceivableRow
receivable_rows now ps [] = []
receivable_rows now ps (o ∷ os) =
    let rest = receivable_rows now ps os in
    if is_billed o && not (leb_ℤ (owed_on ps o) (pos 0))
    then receivable_row now ps o ∷ rest
    else rest

-- `buildReceivables`; `sort.Slice` leaves rows of the same age in no particular order, so the sort
-- is an argument.
abbrev pub build_receivables :
    (List ReceivableRow → List ReceivableRow)
    → ℕ
    → List Payment
    → List Opportunity
    → List ReceivableRow
build_receivables sort now ps os = sort (receivable_rows now ps os)

unfoldable pub admin_receivables :
    (List ReceivableRow → List ReceivableRow)
    → ℕ
    → List Payment
    → List Opportunity
    → AgedReport ReceivableRow
admin_receivables sort now ps os =
    let rows = build_receivables sort now ps os in
    record {
      rows = rows;
      buckets = λ b. band_total (λ r. r.outstanding) (λ r. r.bucket) b rows;
      total_outstanding = total_owed (λ r. r.outstanding) rows;
    }

pub data MarkReply : Type 0 where
  invalid_id not_found invalid_body : MarkReply
  marked : Opportunity → MarkReply

pub record MarkRequest : Type 0 where
  pub invoiced_at : Option ℕ
  pub clear : Bool
  pub apply_vat : Option Bool

abbrev invoice_date : ℕ → MarkRequest → Option ℕ
invoice_date now r =
    if r.clear then none else elim r.invoiced_at [ none ↦ some now | some t ↦ some t ]

abbrev pub or_kept : Bool → Option Bool → Bool
or_kept old none = old
or_kept old (some b) = b

abbrev mark : ℕ → MarkRequest → Opportunity → Opportunity
mark now r o = record o {
  invoiced_at = invoice_date now r;
  apply_vat = or_kept o.apply_vat r.apply_vat;
}

abbrev pub deal_is : ℕ → Opportunity → Bool
deal_is n o = o.id == n

abbrev mark_row :
    ℕ → ℕ → Option MarkRequest → Opportunity → List Opportunity → MarkReply × List Opportunity
mark_row now n none o os = (invalid_body, os)
mark_row now n (some r) o os = (marked (mark now r o), update_where (deal_is n) (mark now r) os)

-- `AdminMarkInvoiced`
unfoldable pub admin_mark_invoiced :
    ℕ → Option ℕ → Option MarkRequest → List Opportunity → MarkReply × List Opportunity
admin_mark_invoiced now none body os = (invalid_id, os)
admin_mark_invoiced now (some n) body os = elim (find (deal_is n) os) [
  | none ↦ (not_found, os)
  | some o ↦ mark_row now n body o os
]

abbrev of_account : Text → Opportunity → Bool
of_account account o = text_eq o.account_name account

-- `opportunity_id IN ?`, over the deals of an account.
unfoldable pub account_payments : Text → List Opportunity → List Payment → List Payment
account_payments account os [] = []
account_payments account os (p ∷ ps) =
    let rest = account_payments account os ps in
    if any (λ o. of_account account o && (o.id == p.opportunity_id)) os then p ∷ rest else rest

pub data PaymentsReply : Type 0 where
  no_account : PaymentsReply
  payments : List Payment → ℤ → PaymentsReply

-- `AdminAccountPayments`, without the order of the rows.
unfoldable pub admin_account_payments : Text → List Payment → List Opportunity → PaymentsReply
admin_account_payments account ps os =
    if is_empty account
    then no_account
    else (let rows = account_payments account os ps in payments rows (paid_total rows))
