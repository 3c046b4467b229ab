-- ===== src/Purchasing/Deliveries.antt =====
-- What a request for a receipt holds, and its checks (internal/handlers/purchasing.go).
use arcus_invest_backend.Base.{
  ℕ, suc, ℤ, pos, ltb_ℤ, leb_ℤ, eqb_ℤ, ◌-ℤ◌, Bool, true, false, not, Option, none, some, List, [],
  ◌∷◌, find, if◌then◌else◌,
}
use arcus_invest_backend.Base.Text.{Text, is_empty}
use arcus_invest_backend.LandedCost.Receipt.{basis_value}
use arcus_invest_backend.Purchasing.Orders.{PoStatus, PurchaseOrderLine}
use arcus_invest_backend.Purchasing.Receipts.{
  GoodsReceiptLine, LandedCostComponent, OrderView, valid_landed_cost_kind,
  valid_apportionment_basis,
}
use arcus_invest_backend.Purchasing.OrderForms.{line_is, or_now}

pub record ReceiptLineRequest : Type 0 where
  pub purchase_order_line_id : ℕ
  pub quantity : ℤ
  pub weight : ℤ

pub record ComponentRequest : Type 0 where
  pub kind : Text
  pub amount : ℤ
  pub exchange_rate : ℤ
  pub incurred_at : Option ℕ

pub record ReceiptRequest : Type 0 where
  pub received_at : Option ℕ
  pub exchange_rate : ℤ
  pub basis : Text
  pub lines : List ReceiptLineRequest
  pub components : List ComponentRequest

pub data ReceiptReply : Type 0 where
  invalid_id not_found not_receivable invalid_body empty_receipt bad_rate bad_basis : ReceiptReply
  bad_kind negative_component : ReceiptReply
  -- the number of the line at fault, from 1, and what is outstanding on it
  not_on_order no_quantity : ℕ → ReceiptReply
  too_many : ℕ → ℤ → ReceiptReply
  stock_conflict receipt_failed load_failed component_added : ReceiptReply
  received_goods : OrderView → ReceiptReply

abbrev pub is_receivable : PoStatus → Bool
is_receivable PoStatus.issued = true
is_receivable PoStatus.partly_received = true
is_receivable _ = false

abbrev pub component_error : ComponentRequest → Option ReceiptReply
component_error c =
    if not (valid_landed_cost_kind c.kind)
    then some bad_kind
    else (if ltb_ℤ c.amount (pos 0) then some negative_component else none)

unfoldable pub component_errors : List ComponentRequest → Option ReceiptReply
component_errors [] = none
component_errors (c ∷ cs) =
    let rest = component_errors cs in elim (component_error c) [ some e ↦ some e | none ↦ rest ]

unfoldable pub arrival_error :
    (ℕ → ℤ) → List PurchaseOrderLine → ℕ → ReceiptLineRequest → Option ReceiptReply
arrival_error already order i l = elim (find (line_is l.purchase_order_line_id) order) [
  | none ↦ some (not_on_order i)
  | some ol ↦
      if leb_ℤ l.quantity (pos 0)
      then some (no_quantity i)
      else (if ltb_ℤ (ol.quantity -ℤ already ol.id) l.quantity
          then some (too_many i (ol.quantity -ℤ already ol.id))
          else none)
]

-- The loop over the lines, from line `i`: each against what was outstanding before the receipt.
unfoldable pub arrival_errors :
    (ℕ → ℤ) → List PurchaseOrderLine → ℕ → List ReceiptLineRequest → Option ReceiptReply
arrival_errors already order i [] = none
arrival_errors already order i (l ∷ ls) =
    let rest = arrival_errors already order (suc i) ls in
    elim (arrival_error already order i l) [ some e ↦ some e | none ↦ rest ]

abbrev default_rate : ℤ → ℤ → ℤ
default_rate rate given = if eqb_ℤ given (pos 0) then rate else given

abbrev pub receipt_defaults : ℤ → ReceiptRequest → ReceiptRequest
receipt_defaults rate r = record r {
  exchange_rate = default_rate rate r.exchange_rate;
  basis = if is_empty r.basis then basis_value else r.basis;
}

unfoldable pub receipt_error :
    (ℕ → ℤ) → List PurchaseOrderLine → ReceiptRequest → Option ReceiptReply
receipt_error already order r = elim r.lines [
  | [] ↦ some empty_receipt
  | l ∷ ls ↦
      if leb_ℤ r.exchange_rate (pos 0)
      then some bad_rate
      else (if not (valid_apportionment_basis r.basis)
          then some bad_basis
          else elim (component_errors r.components) [
            | some e ↦ some e
            | none ↦ arrival_errors already order 1 (l ∷ ls)
          ])
]

abbrev pub component_row : ℕ → Option ℕ → ComponentRequest → LandedCostComponent
component_row at by c = record {
  kind = c.kind;
  amount = c.amount;
  exchange_rate = default_rate (pos 1000000) c.exchange_rate;
  incurred_at = or_now c.incurred_at at;
  recorded_by_id = by;
}

abbrev pub component_rows : ℕ → Option ℕ → List ComponentRequest → List LandedCostComponent
component_rows at by [] = []
component_rows at by (c ∷ cs) = component_row at by c ∷ component_rows at by cs

unfoldable pub receipt_lines : List ReceiptLineRequest → List GoodsReceiptLine
receipt_lines [] = []
receipt_lines (l ∷ ls) =
    record {
      purchase_order_line_id = l.purchase_order_line_id;
      quantity = l.quantity;
      weight = l.weight;
      unit_cost_zmw = pos 0;
      apportioned_zmw = pos 0;
      stock_movement_id = none;
    }
    ∷ receipt_lines ls
