-- ===== src/Counter/Tests.antt =====
-- A till with one sale.
use arcus_invest_backend.Base.{
  ℕ, ◌≤◌, ◌==◌, ◌≡◌, ◌⊎◌, refl, ℤ, pos, ◌+ℤ◌, ◌≤ℤ◌, Bool, true, false, Option, none, some, List, [],
  ◌∷◌, arith, count, ==_iff,
}
use arcus_invest_backend.Base.Text.{codes}
use arcus_invest_backend.Stock.Ledger.{StockKind, Shelf, stock_on_hand}
use arcus_invest_backend.Stock.Balance.{NonNegative}
use arcus_invest_backend.Counter.Till.{
  CounterMethod, TillStatus, TillSession, CounterSale, Shop, till_totals, till_summary, is_open_by,
}
use arcus_invest_backend.Counter.Sale.{SaleRequest, sold, is_short, admin_create_counter_sale}
use arcus_invest_backend.Counter.Takings.{
  sales_total, takings_complete, OneTillEach, TillRequest, handle_all, one_open_till,
}
use arcus_invest_backend.Counter.Laws.{sold_of, is_sold, sale_atomic, sale_keeps_stock}

abbrev till : TillSession
till = record {
  id = 3;
  status = TillStatus.till_open;
  opened_by_id = some 1;
  opening_float = pos 1000000;
  closed_by_id = none;
  counted_cash = none;
}

abbrev shelf : Shelf
shelf = record {
  products = 7 ∷ [];
  movements =
      record {
        product_id = 7;
        kind = StockKind.receipt;
        quantity = pos 5;
        reason = [];
        unit_cost = pos 0;
        opportunity_id = none;
        expense_id = none;
        counter_sale_id = none;
        occurred_at = 1;
        actor_id = none;
      }
      ∷ [];
}

abbrev shop : Shop
shop = record { sessions = till ∷ []; sales = []; shelf = shelf; users = 1 ∷ [] }

abbrev two_units : SaleRequest
two_units = record {
  till_session_id = none;
  apply_vat = true;
  payment_method = codes "card";
  amount_tendered = pos 0;
  lines =
      record { product_id = some 7; description = []; quantity = pos 2; unit_price = pos 500000 }
      ∷ [];
}

abbrev sale_of_two : CounterSale
sale_of_two = record {
  id = 4;
  till_session_id = 3;
  apply_vat = true;
  payment_method = CounterMethod.card;
  amount_tendered = pos 0;
  sold_by_id = some 1;
  lines = record { product_id = some 7; quantity = pos 2; unit_price = pos 500000 } ∷ [];
}

sale_atomic_example :
    ((is_sold (admin_create_counter_sale 9 4 (some 1) (some two_units) shop).0 ≡ false)
      × ((admin_create_counter_sale 9 4 (some 1) (some two_units) shop).1 ≡ shop))
    ⊎ ((sale : CounterSale) × (g : Shelf) × (admin_create_counter_sale 9 4
            (some 1)
            (some two_units)
            shop
          ≡ (sold sale, record shop { sales = sale ∷ []; shelf = g }))
        × (is_short sale ≡ false)
        × (stock_on_hand 7 g.movements +ℤ sold_of 7 sale.lines ≡ stock_on_hand 7 shelf.movements))
sale_atomic_example = sale_atomic 9 4 (some 1) (some two_units) shop 7

shelf-NonNegative : NonNegative shelf.movements
unfolding stock_on_hand arcus_invest_backend.Base.Int.◌+ℤ◌
shelf-NonNegative p = ground arith

sale_keeps_stock_example :
    pos 0
    ≤ℤ stock_on_hand 7
        (admin_create_counter_sale 9 4 (some 1) (some two_units) shop).1.shelf.movements
sale_keeps_stock_example = sale_keeps_stock 9 4 (some 1) (some two_units) shop shelf-NonNegative 7

takings_complete_example :
    (till_summary till (till_totals 3 (sale_of_two ∷ []))).total_takings
    ≡ sales_total 3 (sale_of_two ∷ [])
takings_complete_example = takings_complete till (sale_of_two ∷ [])

shop-OneTillEach : OneTillEach shop
shop-OneTillEach n = ground arith

one_open_till_example :
    count
      (is_open_by 1)
      (handle_all
        (TillRequest.open_till 5 (some 1) (some (pos 0))
          ∷ TillRequest.close_till (some 3) (some 1) none
          ∷ [])
        shop).sessions
    ≤ 1
one_open_till_example =
    one_open_till
      (TillRequest.open_till 5 (some 1) (some (pos 0))
        ∷ TillRequest.close_till (some 3) (some 1) none
        ∷ [])
      shop shop-OneTillEach 1
