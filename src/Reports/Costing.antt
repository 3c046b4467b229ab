-- ===== src/Reports/Costing.antt =====
-- The costing of a deal: internal/services/jobcosting.go, over the stock ledger and the expenses.
-- Unit costs are in millionths, a quotient is cut to them, and a percentage to its millionths.
use arcus_invest_backend.Base.{
  ℕ, ℤ, pos, neg_ℤ, ◌+ℤ◌, ◌-ℤ◌, ◌*ℤ◌, ltb_ℤ, eqb_ℤ, Bool, true, false, ◌&&◌, Option, none, some,
  is_id, List, [], ◌∷◌, ◌==◌, find, if◌then◌else◌,
}
use arcus_invest_backend.Purchasing.Arrivals.{over}
use arcus_invest_backend.Stock.Ledger.{StockKind, StockMovement}
use arcus_invest_backend.Payables.Expenses.{Expense, reclaimable_vat}
use arcus_invest_backend.Reports.Receivables.{Opportunity, deal_is}

pub record DealCosting : Type 0 where
  pub deal_value : ℤ
  pub cost_of_goods : ℤ
  pub direct_expenses : ℤ
  pub irrecoverable_vat : ℤ
  pub total_cost : ℤ
  pub margin : ℤ
  pub margin_percent : ℤ
  pub goods_at_cost_unknown : ℤ

abbrev brings_cost : StockKind → Bool
brings_cost StockKind.opening = true
brings_cost StockKind.receipt = true
brings_cost StockKind.return_in = true
brings_cost _ = false

-- The rows that price a product.
abbrev pub prices : ℕ → StockMovement → Bool
prices p m = (m.product_id == p) && (ltb_ℤ (pos 0) m.quantity && brings_cost m.kind)

unfoldable pub priced_quantity : ℕ → List StockMovement → ℤ
priced_quantity p [] = pos 0
priced_quantity p (m ∷ ms) =
    let rest = priced_quantity p ms in if prices p m then m.quantity +ℤ rest else rest

unfoldable pub priced_value : ℕ → List StockMovement → ℤ
priced_value p [] = pos 0
priced_value p (m ∷ ms) =
    let rest = priced_value p ms in if prices p m then m.quantity *ℤ m.unit_cost +ℤ rest else rest

-- `weightedAverageCost`, read at one product, where `none` is a missing key.
unfoldable pub weighted_average_cost : ℕ → List StockMovement → Option ℤ
weighted_average_cost p ms =
    if ltb_ℤ (pos 0) (priced_quantity p ms) && ltb_ℤ (pos 0) (priced_value p ms)
    then some (over (priced_value p ms) (priced_quantity p ms))
    else none

abbrev is_issued : ℕ → StockMovement → Bool
is_issued deal m = is_id m.opportunity_id deal && ltb_ℤ m.quantity (pos 0)

abbrev cost_or : ℤ → Option ℤ → ℤ
cost_or units none = pos 0
cost_or units (some c) = units *ℤ c

abbrev units_or : ℤ → Option ℤ → ℤ
units_or units none = units
units_or units (some c) = pos 0

-- The loop over the movements of a deal, on the priced ledger.
unfoldable pub cost_of_goods : ℕ → List StockMovement → List StockMovement → ℤ
cost_of_goods deal ledger [] = pos 0
cost_of_goods deal ledger (m ∷ ms) =
    let rest = cost_of_goods deal ledger ms in
    if is_issued deal m
    then cost_or (neg_ℤ m.quantity) (weighted_average_cost m.product_id ledger) +ℤ rest
    else rest

unfoldable pub goods_at_cost_unknown : ℕ → List StockMovement → List StockMovement → ℤ
goods_at_cost_unknown deal ledger [] = pos 0
goods_at_cost_unknown deal ledger (m ∷ ms) =
    let rest = goods_at_cost_unknown deal ledger ms in
    if is_issued deal m
    then units_or (neg_ℤ m.quantity) (weighted_average_cost m.product_id ledger) +ℤ rest
    else rest

unfoldable pub direct_expenses : ℕ → List Expense → ℤ
direct_expenses deal [] = pos 0
direct_expenses deal (e ∷ es) =
    let rest = direct_expenses deal es in
    if is_id e.opportunity_id deal then e.net_amount +ℤ rest else rest

unfoldable pub irrecoverable_vat : ℕ → List Expense → ℤ
irrecoverable_vat deal [] = pos 0
irrecoverable_vat deal (e ∷ es) =
    let rest = irrecoverable_vat deal es in
    if is_id e.opportunity_id deal then (e.vat_amount -ℤ reclaimable_vat e) +ℤ rest else rest

abbrev percent : ℤ → ℤ → ℤ
percent margin value = if eqb_ℤ value (pos 0) then pos 0 else over (margin *ℤ pos 100000000) value

unfoldable pub cost_deal : Opportunity → List StockMovement → List Expense → DealCosting
cost_deal o ms es =
    let goods = cost_of_goods o.id ms ms in
    let direct = direct_expenses o.id es in
    let vat = irrecoverable_vat o.id es in
    let total = goods +ℤ direct +ℤ vat in
    let margin = o.deal_value -ℤ total in
    record {
      deal_value = o.deal_value;
      cost_of_goods = goods;
      direct_expenses = direct;
      irrecoverable_vat = vat;
      total_cost = total;
      margin = margin;
      margin_percent = percent margin o.deal_value;
      goods_at_cost_unknown = goods_at_cost_unknown o.id ms ms;
    }

pub data CostingReply : Type 0 where
  invalid_id not_found : CostingReply
  costing : DealCosting → CostingReply

-- `AdminDealCosting`
unfoldable pub admin_deal_costing :
    Option ℕ → List Opportunity → List StockMovement → List Expense → CostingReply
admin_deal_costing none os ms es = invalid_id
admin_deal_costing (some n) os ms es = elim (find (deal_is n) os) [
  | none ↦ not_found
  | some o ↦ costing (cost_deal o ms es)
]
