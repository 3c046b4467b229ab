-- ===== src/Purchasing/Orders.antt =====
-- Purchase orders and their lines (internal/models/purchase_models.go). Prices and rates are in
-- millionths, and a product of the two is cut to millionths. The columns that nothing decides by
-- are left out.
use arcus_invest_backend.Base.{
  ℕ, ◌/◌, suc, ℤ, pos, negsuc, neg_ℤ, ◌+ℤ◌, ◌*ℤ◌, Bool, true, false, Option, List, [], ◌∷◌,
}
use arcus_invest_backend.Base.Text.{Text}

-- Integer division that cuts towards zero.
abbrev pub quot_ℤ : ℤ → ℕ → ℤ
quot_ℤ (pos n) d = pos (n / d)
quot_ℤ (negsuc n) d = neg_ℤ (pos (suc n / d))

-- The product of an amount and a rate, or of an amount and a factor.
unfoldable pub at_rate : ℤ → ℤ → ℤ
at_rate amount rate = quot_ℤ (amount *ℤ rate) 1000000

pub data PoStatus : Type 0 where
  draft pending_approval approved rejected issued partly_received received closed cancelled :
      PoStatus

abbrev po_status_is_open : PoStatus → Bool
po_status_is_open PoStatus.issued = true
po_status_is_open PoStatus.partly_received = true
po_status_is_open _ = false

pub record PurchaseOrderLine : Type 0 where
  pub id : ℕ
  pub product_id : Option ℕ
  pub description : Text
  pub quantity : ℤ
  pub unit_price : ℤ

-- The year and the place in the year's sequence of `PO-%d-%04d`.
pub record OrderNumber : Type 0 where
  pub year : ℕ
  pub sequence : ℕ

pub record PurchaseOrder : Type 0 where
  pub id : ℕ
  pub number : Option OrderNumber
  pub supplier : Text
  pub currency : Text
  pub exchange_rate : ℤ
  pub status : PoStatus
  pub order_date : ℕ
  pub opportunity_id : Option ℕ
  pub issued_at : Option ℕ
  pub raised_by_id : Option ℕ
  -- by position
  pub lines : List PurchaseOrderLine

unfoldable pub line_total : PurchaseOrderLine → ℤ
line_total l = l.quantity *ℤ l.unit_price

unfoldable pub sum_lines : List PurchaseOrderLine → ℤ
sum_lines [] = pos 0
sum_lines (l ∷ ls) = line_total l +ℤ sum_lines ls

unfoldable pub subtotal : PurchaseOrder → ℤ
subtotal o = sum_lines o.lines

unfoldable pub subtotal_zmw : PurchaseOrder → ℤ
subtotal_zmw o = at_rate (subtotal o) o.exchange_rate
