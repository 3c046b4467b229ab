-- ===== src/Counter/Laws.antt =====
-- What `AdminCreateCounterSale` does to the shop.
use arcus_invest_backend.Base.{
  ℕ, ◌==◌, ◌≡◌, refl, subst, sym, ◌∙◌, ◌⊎◌, inl, inr, ℤ, pos, neg_ℤ, ◌+ℤ◌, ◌≤ℤ◌, ltb_ℤ, Bool, true,
  false, Option, none, some, List, [], ◌∷◌, arith, int_laws, +ℤ_parts, if◌then◌else◌, Bool-cases,
  Option-cases, is_id,
}
use arcus_invest_backend.Base.Text.{trim_space}
use arcus_invest_backend.Stock.Ledger.{
  StockMovement, Shelf, MovementError, Recorded, has_product, recorded, not_recorded,
  insufficient_stock, unknown_product, record_movement, stock_on_hand,
}
use arcus_invest_backend.Stock.Balance.{NonNegative, record_movement-NonNegative}
use arcus_invest_backend.Counter.Till.{
  CounterSale, CounterSaleLine, Shop, TillSession, CounterMethod,
}
use arcus_invest_backend.Counter.Sale.{
  SaleRequest, LineRequest, SaleReply, no_items, invalid_method, sold, take_stock, sale_movement,
  commit, is_short, sell, sell_at, sell_by, sell_request, lines_error, new_sale, resolve_session,
  method_of, admin_create_counter_sale, line_error,
}

-- The quantity of a product on the lines of a sale.
pub sold_of : ℕ → List CounterSaleLine → ℤ
sold_of p [] = pos 0
sold_of p (l ∷ ls) =
    let rest = sold_of p ls in if is_id l.product_id p then l.quantity +ℤ rest else rest

Recorded-cases :
    (r : Recorded) → ((g : Shelf) × (r ≡ recorded g)) ⊎ ((e : MovementError) × (r ≡ not_recorded e))
Recorded-cases (recorded g) = inl (g, refl)
Recorded-cases (not_recorded e) = inr (e, refl)

recorded_lem : {f g : Shelf} → recorded f ≡ recorded g → f ≡ g
recorded_lem h = ground arith

moved :
    (m : StockMovement) (f : Shelf) {g : Shelf} (p : ℕ)
    → record_movement m f ≡ recorded g
    → stock_on_hand p g.movements ≡ (
        if m.product_id == p
        then m.quantity +ℤ stock_on_hand p f.movements
        else stock_on_hand p f.movements)
unfolding record_movement stock_on_hand
moved m f {g} p h = elim (Bool-cases (has_product m.product_id f)) [
  | inr e ↦ ground arith
  | inl e ↦
      elim (Bool-cases (ltb_ℤ (stock_on_hand m.product_id f.movements +ℤ m.quantity) (pos 0))) [
        | inl b ↦ ground arith
        | inr b ↦
            let same = recorded_lem (rw b at (rw (e, record_movement) at h)) in
            subst
              (λ x. stock_on_hand p x.movements ≡ (
                if m.product_id == p
                then m.quantity +ℤ stock_on_hand p f.movements
                else stock_on_hand p f.movements))
              same refl
      ]
]

line_sold : (a q r f : ℤ) → a +ℤ r ≡ neg_ℤ q +ℤ f → a +ℤ (q +ℤ r) ≡ f
line_sold a q r f h =
    ground (arith, +ℤ_parts (neg_ℤ q) f, +ℤ_parts a r, +ℤ_parts q r, +ℤ_parts a (q +ℤ r))

taken-exact :
    (now : ℕ) (sale : CounterSale) (ls : List CounterSaleLine) (f : Shelf) {g : Shelf} (p : ℕ)
    → take_stock now sale ls f ≡ recorded g
    → stock_on_hand p g.movements +ℤ sold_of p ls ≡ stock_on_hand p f.movements
unfolding take_stock sold_of
taken-exact now sale [] f {g} p h =
    subst (λ x. stock_on_hand p x.movements +ℤ pos 0 ≡ stock_on_hand p f.movements) (recorded_lem h)
      (omega int_laws)
taken-exact now sale (l ∷ ls) f {g} p h = elim (Option-cases l.product_id) [
  | inl e ↦ rw e (taken-exact now sale ls f {g = g} p (rw (e, take_stock) at h))
  | inr (k, e) ↦ elim (Recorded-cases (record_movement (sale_movement now sale k l.quantity) f)) [
    | inr (x, r) ↦ ground arith
    | inl (mid, r) ↦
        let one = moved (sale_movement now sale k l.quantity) f {g = mid} p r in
        let rest = taken-exact now sale ls mid {g = g} p (rw r at (rw (e, take_stock) at h)) in
        rw e (elim (Bool-cases (k == p)) [
          | inl c ↦ rw c (
              line_sold (stock_on_hand p g.movements) l.quantity (sold_of p ls)
                (stock_on_hand p f.movements) (rest ∙ rw c at one))
          | inr c ↦ rw c (rest ∙ rw c at one)
        ])
  ]
]

taken-NonNegative :
    (now : ℕ) (sale : CounterSale) (ls : List CounterSaleLine) (f : Shelf) {g : Shelf}
    → take_stock now sale ls f ≡ recorded g
    → NonNegative f.movements
    → NonNegative g.movements
unfolding take_stock
taken-NonNegative now sale [] f {g} h i = subst (λ x. NonNegative x.movements) (recorded_lem h) i
taken-NonNegative now sale (l ∷ ls) f {g} h i = elim (Option-cases l.product_id) [
  | inl e ↦ taken-NonNegative now sale ls f {g = g} (rw (e, take_stock) at h) i
  | inr (k, e) ↦ elim (Recorded-cases (record_movement (sale_movement now sale k l.quantity) f)) [
    | inr (x, r) ↦ ground arith
    | inl (mid, r) ↦
        taken-NonNegative now sale ls mid {g = g} (rw r at (rw (e, take_stock) at h))
          (rw r at (record_movement-NonNegative (sale_movement now sale k l.quantity) f i))
  ]
]

abbrev pub is_sold : SaleReply → Bool
is_sold (sold x) = true
is_sold _ = false

-- A request is refused and nothing is written, or it is a sale, paid for where it is paid in cash,
-- that is added to the books with its goods taken off the shelf.
abbrev Outcome : ℕ → Shop → SaleReply × Shop → Type 0
Outcome now s m =
    ((is_sold m.0 ≡ false) × (m.1 ≡ s))
    ⊎ ((sale : CounterSale) × (g : Shelf) × (m
          ≡ (sold sale, record s { sales = sale ∷ s.sales; shelf = g }))
        × (is_short sale ≡ false)
        × (take_stock now sale sale.lines s.shelf ≡ recorded g))

commit-refused :
    (sale : CounterSale) (s : Shop) (e : MovementError)
    → (is_sold (commit sale s (not_recorded e)).0 ≡ false)
      × ((commit sale s (not_recorded e)).1 ≡ s)
commit-refused sale s insufficient_stock = (refl, refl)
commit-refused sale s unknown_product = (refl, refl)

sell-Outcome : (now : ℕ) (sale : CounterSale) (s : Shop) → Outcome now s (sell now sale s)
sell-Outcome now sale s = elim (Bool-cases (is_short sale)) [
  | inl e ↦ inl (rw e (refl, refl))
  | inr e ↦ elim (Recorded-cases (take_stock now sale sale.lines s.shelf)) [
    | inl (g, r) ↦ inr (sale, g, rw e (rw r refl), e, r)
    | inr (x, r) ↦ inl (rw e (rw r (commit-refused sale s x)))
  ]
]

line_error-refuses : (l : LineRequest) {e : SaleReply} → line_error l ≡ some e → is_sold e ≡ false
unfolding line_error
line_error-refuses l {e} h = ground arith

some_lem : {x y : SaleReply} → ◌≡◌ {A = Option SaleReply} (some x) (some y) → x ≡ y
some_lem h = ground arith

lines_error-refuses :
    (ls : List LineRequest) {e : SaleReply} → lines_error ls ≡ some e → is_sold e ≡ false
unfolding lines_error
lines_error-refuses [] h = ground arith
lines_error-refuses (l ∷ ls) {e} h = elim (Option-cases (line_error l)) [
  | inl n ↦ lines_error-refuses ls {e = e} (rw (n, lines_error) at h)
  | inr (x, n) ↦
      subst (λ y. is_sold y ≡ false) (some_lem (rw (n, lines_error) at h))
        (line_error-refuses l {e = x} n)
]

sell_at-Outcome :
    (now id n : ℕ) (method : CounterMethod) (req : SaleRequest) (t : TillSession) (s : Shop)
    → Outcome now s (sell_at now id n method req t s)
sell_at-Outcome now id n method req t s = elim (Option-cases (lines_error req.lines)) [
  | inl e ↦ rw (e, sell_at) (sell-Outcome now (new_sale id n t.id method req s) s)
  | inr (x, e) ↦ inl (rw (e, sell_at) (lines_error-refuses req.lines {e = x} e, refl))
]

sell_by-Outcome :
    (now id n : ℕ) (method : CounterMethod) (req : SaleRequest) (s : Shop)
    → Outcome now s (sell_by now id n method req s)
sell_by-Outcome now id n method req s =
    elim (Option-cases (resolve_session n req.till_session_id s)) [
      | inl t ↦ inl (rw (t, sell_by) (refl, refl))
      | inr (session, t) ↦ rw (t, sell_by) (sell_at-Outcome now id n method req session s)
    ]

request-Outcome :
    (now id n : ℕ) (req : SaleRequest) (s : Shop) → Outcome now s (sell_request now id n req s)
request-Outcome now id n req s = go req.lines (method_of (trim_space req.payment_method))
  where
    go :
        (ls : List LineRequest) (o : Option CounterMethod)
        → Outcome now s (elim ls as (λ x. SaleReply × Shop) [
          | [] ↦ (no_items, s)
          | l ∷ ks ↦ elim o as (λ x. SaleReply × Shop) [
            | none ↦ (invalid_method, s)
            | some method ↦ sell_by now id n method req s
          ]
        ])
    go [] o = inl (refl, refl)
    go (l ∷ ks) none = inl (refl, refl)
    go (l ∷ ks) (some method) = sell_by-Outcome now id n method req s

-- A request for a sale is refused with the shop as it was, or the sale is booked, not short where
-- it is in cash, and what is on hand of each product is less by exactly what the sale has of it.
pub sale_atomic :
    (now id : ℕ) (caller : Option ℕ) (body : Option SaleRequest) (s : Shop) (p : ℕ)
    → ((is_sold (admin_create_counter_sale now id caller body s).0 ≡ false)
        × ((admin_create_counter_sale now id caller body s).1 ≡ s))
      ⊎ ((sale : CounterSale) × (g : Shelf) × (admin_create_counter_sale now id caller body s
            ≡ (sold sale, record s { sales = sale ∷ s.sales; shelf = g }))
          × (is_short sale ≡ false)
          × (stock_on_hand p g.movements +ℤ sold_of p sale.lines
              ≡ stock_on_hand p s.shelf.movements))
unfolding admin_create_counter_sale
sale_atomic now id none body s p = inl (refl, refl)
sale_atomic now id (some n) none s p = inl (refl, refl)
sale_atomic now id (some n) (some req) s p = elim (request-Outcome now id n req s) [
  | inl h ↦ inl h
  | inr (sale, g, h, short, taken) ↦
      inr (sale, g, h, short, taken-exact now sale sale.lines s.shelf {g = g} p taken)
]

-- Whatever request for a sale comes in, no product is held in a quantity below zero if none was.
pub sale_keeps_stock :
    (now id : ℕ) (caller : Option ℕ) (body : Option SaleRequest) (s : Shop)
    → NonNegative s.shelf.movements
    → (p : ℕ)
    → pos 0 ≤ℤ stock_on_hand p (admin_create_counter_sale now id caller body s).1.shelf.movements
unfolding admin_create_counter_sale
sale_keeps_stock now id none body s i = i
sale_keeps_stock now id (some n) none s i = i
sale_keeps_stock now id (some n) (some req) s i = elim (request-Outcome now id n req s) [
  | inl h ↦ subst (λ x. NonNegative x.shelf.movements) (sym h.1) i
  | inr (sale, g, h, short, taken) ↦
      subst (λ x. NonNegative x.1.shelf.movements) (sym h)
        (taken-NonNegative now sale sale.lines s.shelf {g = g} taken i)
]
