-- ===== src/Purchasing/OrderForms.antt =====
-- What a request for an order holds, and its checks (internal/handlers/purchasing.go).
use arcus_invest_backend.Base.{
  ℕ, suc, ◌-◌, leb, ℤ, pos, ltb_ℤ, leb_ℤ, Bool, false, ◌&&◌, ◌||◌, Option, none, some, List, [],
  ◌∷◌, ◌==◌, any, if◌then◌else◌,
}
use arcus_invest_backend.Base.Text.{Text, is_empty, trim_space}
use arcus_invest_backend.Approvals.Types.{
  ApprovalRequest, Faults, Caller, purchase_order_issue, is_pending, is_rejected,
}
use arcus_invest_backend.Approvals.Types as Rows
use arcus_invest_backend.Approvals.Queries.{find_user}
use arcus_invest_backend.Purchasing.Orders.{PurchaseOrder, PurchaseOrderLine}
use arcus_invest_backend.Purchasing.Receipts.{OrderView}

pub record LineRequest : Type 0 where
  pub product_id : Option ℕ
  pub description : Text
  pub quantity : ℤ
  pub unit_price : ℤ

pub record OrderRequest : Type 0 where
  pub supplier : Text
  pub currency : Text
  pub exchange_rate : ℤ
  pub order_date : Option ℕ
  pub opportunity_id : Option ℕ
  pub lines : List LineRequest

pub data OrderReply : Type 0 where
  invalid_id not_found invalid_body : OrderReply
  no_supplier empty_order no_currency bad_rate : OrderReply
  -- the number of the line at fault, from 1
  no_description bad_quantity bad_price : ℕ → OrderReply
  not_editable not_issuable has_receipts : OrderReply
  gate_failed save_failed load_failed : OrderReply
  awaiting : ApprovalRequest → OrderReply
  saved : OrderView → OrderReply

-- The loop over the lines, from line `i`.
unfoldable pub validate_lines : ℕ → List LineRequest → Option OrderReply
validate_lines i [] = none
validate_lines i (l ∷ ls) =
    let rest = validate_lines (suc i) ls in
    if is_empty (trim_space l.description)
    then some (no_description i)
    else (if leb_ℤ l.quantity (pos 0)
        then some (bad_quantity i)
        else (if ltb_ℤ l.unit_price (pos 0) then some (bad_price i) else rest))

unfoldable pub validate_purchase_order : OrderRequest → Option OrderReply
validate_purchase_order r =
    if is_empty (trim_space r.supplier) then some no_supplier else elim r.lines [
      | [] ↦ some empty_order
      | l ∷ ls ↦
          if is_empty (trim_space r.currency)
          then some no_currency
          else (if leb_ℤ r.exchange_rate (pos 0) then some bad_rate else validate_lines 1 (l ∷ ls))
    ]

-- The identifiers of the new rows are a function of their positions.
unfoldable pub lines_from_request : (ℕ → ℕ) → ℕ → List LineRequest → List PurchaseOrderLine
lines_from_request ids i [] = []
lines_from_request ids i (l ∷ ls) =
    record {
      id = ids i;
      product_id = l.product_id;
      description = trim_space l.description;
      quantity = l.quantity;
      unit_price = l.unit_price;
    }
    ∷ lines_from_request ids (suc i) ls

abbrev pub order_is : ℕ → PurchaseOrder → Bool
order_is n o = o.id == n

abbrev pub line_is : ℕ → PurchaseOrderLine → Bool
line_is n l = l.id == n

abbrev line_taken : ℕ → List PurchaseOrder → Bool
line_taken n os = any (λ o. any (line_is n) o.lines) os

-- The primary key of the lines refuses an identifier that is taken.
unfoldable pub lines_clash : List PurchaseOrderLine → List PurchaseOrder → Bool
lines_clash [] os = false
lines_clash (l ∷ ls) os = line_taken l.id os || (any (line_is l.id) ls || lines_clash ls os)

-- `strings.ToUpper`, on the letters of ASCII; the others are left alone.
abbrev pub to_upper : Text → Text
to_upper [] = []
to_upper (c ∷ t) = (if leb 97 c && leb c 122 then c - 32 else c) ∷ to_upper t

abbrev pub actor : Caller → Rows.Store → Option ℕ
actor who s = elim (find_user who s) [ none ↦ none | some u ↦ some u.id ]

abbrev pub or_now : Option ℕ → ℕ → ℕ
or_now none now = now
or_now (some t) now = t
