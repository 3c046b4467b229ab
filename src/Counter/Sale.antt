-- ===== src/Counter/Sale.antt =====
-- `AdminCreateCounterSale`: the checks, and the transaction that writes the sale and takes the goods
-- out of stock.
use arcus_invest_backend.Base.{
  ℕ, ℤ, pos, neg_ℤ, ◌+ℤ◌, ltb_ℤ, Bool, ◌&&◌, ◌||◌, not, Option, none, some, List, [], ◌∷◌, find,
  is_some, if◌then◌else◌,
}
use arcus_invest_backend.Base.Text.{Text, codes, text_eq, is_empty, trim_space}
use arcus_invest_backend.Stock.Ledger.{
  StockKind, StockMovement, Shelf, Recorded, recorded, not_recorded, record_movement,
  unknown_product, insufficient_stock,
}
use arcus_invest_backend.Counter.Till.{
  CounterMethod, TillSession, CounterSaleLine, CounterSale, Shop, total, is_cash, is_open,
  session_is, open_session_for, actor,
}

pub record LineRequest : Type 0 where
  pub product_id : Option ℕ
  pub description : Text
  pub quantity : ℤ
  pub unit_price : ℤ

pub record SaleRequest : Type 0 where
  pub till_session_id : Option ℕ
  pub apply_vat : Bool
  pub payment_method : Text
  pub amount_tendered : ℤ
  pub lines : List LineRequest

pub data SaleReply : Type 0 where
  unauthorized invalid_body no_items invalid_method no_till : SaleReply
  bad_quantity bad_price no_description short_tender : SaleReply
  out_of_stock failed : SaleReply
  sold : CounterSale → SaleReply

-- The method after trimming, where an empty one is cash.
unfoldable pub method_of : Text → Option CounterMethod
method_of t =
    if is_empty t || text_eq t (codes "cash")
    then some CounterMethod.cash
    else (if text_eq t (codes "mobile_money")
        then some CounterMethod.mobile_money
        else (if text_eq t (codes "card")
            then some CounterMethod.card
            else (if text_eq t (codes "bank_transfer")
                then some CounterMethod.bank_transfer
                else none)))

-- `resolveSession`
unfoldable pub resolve_session : ℕ → Option ℕ → Shop → Option TillSession
resolve_session n none s = open_session_for n s
resolve_session n (some id) s = find (λ t. session_is id t && is_open t) s.sessions

-- The complaint about a line, if there is one.
unfoldable pub line_error : LineRequest → Option SaleReply
line_error l =
    if ltb_ℤ (pos 0) l.quantity
    then (if ltb_ℤ l.unit_price (pos 0)
        then some bad_price
        else (if is_empty (trim_space l.description) && not (is_some l.product_id)
            then some no_description
            else none))
    else some bad_quantity

unfoldable pub lines_error : List LineRequest → Option SaleReply
lines_error [] = none
lines_error (l ∷ ls) = elim (line_error l) [ some e ↦ some e | none ↦ lines_error ls ]

abbrev pub sale_lines : List LineRequest → List CounterSaleLine
sale_lines [] = []
sale_lines (l ∷ ls) =
    record { product_id = l.product_id; quantity = l.quantity; unit_price = l.unit_price }
    ∷ sale_lines ls

abbrev pub new_sale : ℕ → ℕ → ℕ → CounterMethod → SaleRequest → Shop → CounterSale
new_sale id n session method req s = record {
  id = id;
  till_session_id = session;
  apply_vat = req.apply_vat;
  payment_method = method;
  amount_tendered = req.amount_tendered;
  sold_by_id = actor n s;
  lines = sale_lines req.lines;
}

-- The movement of one line. Its reason names the customer, which is left out.
abbrev pub sale_movement : ℕ → CounterSale → ℕ → ℤ → StockMovement
sale_movement now sale p q = record {
  product_id = p;
  kind = StockKind.sale;
  quantity = neg_ℤ q;
  reason = codes "Counter sale";
  unit_cost = pos 0;
  opportunity_id = none;
  expense_id = none;
  counter_sale_id = some sale.id;
  occurred_at = now;
  actor_id = sale.sold_by_id;
}

-- The loop of the transaction: lines without a product are passed over, and the first movement that
-- is refused ends it.
unfoldable pub take_stock : ℕ → CounterSale → List CounterSaleLine → Shelf → Recorded
take_stock now sale [] f = recorded f
take_stock now sale (l ∷ ls) f = elim l.product_id [
  | none ↦ take_stock now sale ls f
  | some p ↦ elim (record_movement (sale_movement now sale p l.quantity) f) [
    | recorded g ↦ take_stock now sale ls g
    | not_recorded e ↦ not_recorded e
  ]
]

abbrev pub commit : CounterSale → Shop → Recorded → SaleReply × Shop
commit sale s (recorded f) = (sold sale, record s { sales = sale ∷ s.sales; shelf = f })
commit sale s (not_recorded insufficient_stock) = (out_of_stock, s)
commit sale s (not_recorded unknown_product) = (failed, s)

-- The comparison allows half a ngwee.
unfoldable pub is_short : CounterSale → Bool
is_short sale = is_cash sale.payment_method && ltb_ℤ (sale.amount_tendered +ℤ pos 5000) (total sale)

abbrev pub sell : ℕ → CounterSale → Shop → SaleReply × Shop
sell now sale s =
    if is_short sale
    then (short_tender, s)
    else commit sale s (take_stock now sale sale.lines s.shelf)

abbrev pub sell_at : ℕ → ℕ → ℕ → CounterMethod → SaleRequest → TillSession → Shop → SaleReply × Shop
sell_at now id n method req t s = elim (lines_error req.lines) [
  | some e ↦ (e, s)
  | none ↦ sell now (new_sale id n t.id method req s) s
]

abbrev pub sell_by : ℕ → ℕ → ℕ → CounterMethod → SaleRequest → Shop → SaleReply × Shop
sell_by now id n method req s = elim (resolve_session n req.till_session_id s) [
  | none ↦ (no_till, s)
  | some t ↦ sell_at now id n method req t s
]

abbrev pub sell_request : ℕ → ℕ → ℕ → SaleRequest → Shop → SaleReply × Shop
sell_request now id n req s = elim req.lines [
  | [] ↦ (no_items, s)
  | l ∷ ls ↦ elim (method_of (trim_space req.payment_method)) [
    | none ↦ (invalid_method, s)
    | some method ↦ sell_by now id n method req s
  ]
]

unfoldable pub admin_create_counter_sale :
    ℕ → ℕ → Option ℕ → Option SaleRequest → Shop → SaleReply × Shop
admin_create_counter_sale now id none body s = (unauthorized, s)
admin_create_counter_sale now id (some n) none s = (invalid_body, s)
admin_create_counter_sale now id (some n) (some req) s = sell_request now id n req s
