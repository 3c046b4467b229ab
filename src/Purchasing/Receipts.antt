-- ===== src/Purchasing/Receipts.antt =====
-- Goods receipts, their lines and their charges (internal/models/landed_cost_models.go), and what
-- has been received of an order. The lines and the charges of a receipt stand in its row; a stock
-- movement is known by the number of movements before it.
use arcus_invest_backend.Base.{
  ℕ, ℤ, pos, ◌+ℤ◌, ltb_ℤ, ◌-ℤ◌, Bool, true, false, ◌&&◌, not, Option, List, [], ◌∷◌, ◌==◌, any,
  if◌then◌else◌,
}
use arcus_invest_backend.Base.Text.{Text, codes, text_eq}
use arcus_invest_backend.LandedCost.Receipt.{basis_value, basis_quantity, basis_weight}
use arcus_invest_backend.Approvals.Types as Rows
use arcus_invest_backend.Stock.Ledger.{Shelf}
use arcus_invest_backend.Purchasing.Orders.{
  PurchaseOrder, PurchaseOrderLine, at_rate, subtotal, subtotal_zmw,
}

abbrev all_landed_cost_kinds : List Text
all_landed_cost_kinds =
    codes "freight"
    ∷ codes "insurance"
    ∷ codes "duty"
    ∷ codes "clearing"
    ∷ codes "handling"
    ∷ codes "other"
    ∷ []

abbrev all_apportionment_bases : List Text
all_apportionment_bases = basis_value ∷ basis_quantity ∷ basis_weight ∷ []

abbrev pub valid_landed_cost_kind : Text → Bool
valid_landed_cost_kind t = any (λ k. text_eq k t) all_landed_cost_kinds

abbrev pub valid_apportionment_basis : Text → Bool
valid_apportionment_basis t = any (λ b. text_eq b t) all_apportionment_bases

pub record GoodsReceiptLine : Type 0 where
  pub purchase_order_line_id : ℕ
  pub quantity : ℤ
  -- in milligrams
  pub weight : ℤ
  pub unit_cost_zmw : ℤ
  pub apportioned_zmw : ℤ
  pub stock_movement_id : Option ℕ

pub record LandedCostComponent : Type 0 where
  pub kind : Text
  pub amount : ℤ
  pub exchange_rate : ℤ
  pub incurred_at : ℕ
  pub recorded_by_id : Option ℕ

pub record GoodsReceipt : Type 0 where
  pub id : ℕ
  pub purchase_order_id : ℕ
  pub received_at : ℕ
  pub exchange_rate : ℤ
  pub basis : Text
  pub apportioned_at : Option ℕ
  pub received_by_id : Option ℕ
  pub lines : List GoodsReceiptLine
  pub components : List LandedCostComponent

unfoldable pub amount_zmw : LandedCostComponent → ℤ
amount_zmw c = at_rate c.amount c.exchange_rate

unfoldable pub total_components : List LandedCostComponent → ℤ
total_components [] = pos 0
total_components (c ∷ cs) = amount_zmw c +ℤ total_components cs

unfoldable pub total_components_zmw : GoodsReceipt → ℤ
total_components_zmw r = total_components r.components

-- What the lines of one receipt bring of an order line.
unfoldable pub brought : ℕ → List GoodsReceiptLine → ℤ
brought line [] = pos 0
brought line (l ∷ ls) =
    let rest = brought line ls in
    if l.purchase_order_line_id == line then l.quantity +ℤ rest else rest

-- `receivedByLine`, read at one line, where a missing key is 0.
unfoldable pub received_by_line : ℕ → List GoodsReceipt → ℕ → ℤ
received_by_line order [] line = pos 0
received_by_line order (r ∷ rs) line =
    let rest = received_by_line order rs line in
    if r.purchase_order_id == order then brought line r.lines +ℤ rest else rest

-- The tables of purchasing, with those of the approval engine and the stock ledger.
pub record Office : Type 0 where
  pub approvals : Rows.Store
  pub orders : List PurchaseOrder
  pub receipts : List GoodsReceipt
  pub shelf : Shelf

pub record LineView : Type 0 where
  pub line : PurchaseOrderLine
  pub received_quantity : ℤ
  pub outstanding_quantity : ℤ

-- The order with its derived figures.
pub record OrderView : Type 0 where
  pub order : PurchaseOrder
  pub order_subtotal : ℤ
  pub order_subtotal_zmw : ℤ
  pub fully_received : Bool
  pub partly_received : Bool
  pub order_lines : List LineView

abbrev pub got_less : (ℕ → ℤ) → PurchaseOrderLine → Bool
got_less received l = ltb_ℤ (received l.id) l.quantity

abbrev pub got_some : (ℕ → ℤ) → PurchaseOrderLine → Bool
got_some received l = ltb_ℤ (pos 0) (received l.id)

abbrev pub no_lines : List PurchaseOrderLine → Bool
no_lines [] = true
no_lines (l ∷ ls) = false

abbrev line_view : (ℕ → ℤ) → PurchaseOrderLine → LineView
line_view received l = record {
  line = l;
  received_quantity = received l.id;
  outstanding_quantity = if got_less received l then l.quantity -ℤ received l.id else pos 0;
}

abbrev line_views : (ℕ → ℤ) → List PurchaseOrderLine → List LineView
line_views received [] = []
line_views received (l ∷ ls) = line_view received l ∷ line_views received ls

unfoldable pub is_fully_received : (ℕ → ℤ) → List PurchaseOrderLine → Bool
is_fully_received received ls = not (any (got_less received) ls) && not (no_lines ls)

-- `purchaseOrderJSON`
unfoldable pub purchase_order_json : PurchaseOrder → (ℕ → ℤ) → OrderView
purchase_order_json o received =
    let full = is_fully_received received o.lines in
    record {
      order = o;
      order_subtotal = subtotal o;
      order_subtotal_zmw = subtotal_zmw o;
      fully_received = full;
      partly_received = any (got_some received) o.lines && not full;
      order_lines = line_views received o.lines;
    }
