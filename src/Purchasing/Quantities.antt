-- ===== src/Purchasing/Quantities.antt =====
-- What an order has received, and what one receipt may bring.
use arcus_invest_backend.Base.{
  ℕ, suc, ◌==◌, ◌≡◌, refl, subst, sym, ◌⊎◌, inl, inr, ℤ, pos, ◌+ℤ◌, ◌-ℤ◌, ◌≤ℤ◌, ltb_ℤ, leb_ℤ, Bool,
  false, Option, none, some, List, [], ◌∷◌, arith, length, find, any, All, if◌then◌else◌,
  Bool-cases, Option-cases, ==_iff, +ℤ_parts, int_laws, -ℤ_parts,
}
use arcus_invest_backend.Base.Tables.{DistinctKeys}
use arcus_invest_backend.Stock.Ledger.{Shelf, Recorded, recorded, not_recorded, record_movement}
use arcus_invest_backend.Purchasing.Orders.{PurchaseOrder, PurchaseOrderLine}
use arcus_invest_backend.Purchasing.Receipts.{
  GoodsReceipt, GoodsReceiptLine, brought, received_by_line,
}
use arcus_invest_backend.Purchasing.OrderForms.{
  LineRequest, OrderRequest, line_is, lines_clash, lines_from_request, validate_lines,
  validate_purchase_order,
}
use arcus_invest_backend.Purchasing.Arrivals.{
  Posted, posted, not_posted, add_posted, post_lines, product_of, costed, arrival_movement,
}
use arcus_invest_backend.Purchasing.Deliveries.{
  ReceiptLineRequest, ReceiptRequest, ReceiptReply, arrival_error, arrival_errors, receipt_lines,
  receipt_error,
}

abbrev pub for_order : ℕ → GoodsReceipt → Bool
for_order n r = r.purchase_order_id == n

pub received_by_line-none :
    (n : ℕ) (rs : List GoodsReceipt) (line : ℕ)
    → any (for_order n) rs ≡ false
    → received_by_line n rs line ≡ pos 0
unfolding received_by_line
received_by_line-none n [] line h = refl
received_by_line-none n (r ∷ rs) line h = ground (arith, received_by_line-none n rs line)

-- No two lines of a request for a receipt name the same order line.
abbrev pub NamesEach : List ReceiptLineRequest → Type 0
NamesEach ls = DistinctKeys (λ l. l.purchase_order_line_id) ls

-- What the lines of a request bring of an order line.
abbrev pub asked : ℕ → List ReceiptLineRequest → ℤ
asked line [] = pos 0
asked line (l ∷ ls) =
    let rest = asked line ls in
    if l.purchase_order_line_id == line then l.quantity +ℤ rest else rest

asked-absent :
    (line : ℕ) (ls : List ReceiptLineRequest)
    → any (λ l. l.purchase_order_line_id == line) ls ≡ false
    → asked line ls ≡ pos 0
asked-absent line [] h = refl
asked-absent line (l ∷ ls) h = ground (arith, asked-absent line ls)

pub brought-receipt_lines :
    (line : ℕ) (ls : List ReceiptLineRequest) → brought line (receipt_lines ls) ≡ asked line ls
unfolding brought receipt_lines
brought-receipt_lines line [] = refl
brought-receipt_lines line (l ∷ ls) = rw (brought-receipt_lines line ls) refl

brought_cons :
    (line : ℕ) (l : GoodsReceiptLine) (ls ms : List GoodsReceiptLine)
    → brought line ls ≡ brought line ms
    → brought line (l ∷ ls) ≡ brought line (l ∷ ms)
unfolding brought
brought_cons line l ls ms e = rw e refl

abbrev pub Keeps : ℕ → List GoodsReceiptLine → Posted → Type 0
Keeps line ls (not_posted e) = Unit
Keeps line ls (posted ms g) = brought line ms ≡ brought line ls

add_posted-Keeps :
    (line : ℕ) (l row : GoodsReceiptLine) (ls : List GoodsReceiptLine) (p : Posted)
    → row.purchase_order_line_id ≡ l.purchase_order_line_id
    → row.quantity ≡ l.quantity
    → Keeps line ls p
    → Keeps line (l ∷ ls) (add_posted row p)
unfolding brought
add_posted-Keeps line l row ls (not_posted e) i q h = tt
add_posted-Keeps line l row ls (posted ms g) i q h = rw (i, q, h) refl

-- Posting a receipt keeps what it brings of each line.
pub post_lines-Keeps :
    (line at : ℕ) (by : Option ℕ) (rate : ℤ) (order : List PurchaseOrderLine)
    (ls : List GoodsReceiptLine) (shares : List ℤ) (f : Shelf)
    → Keeps line ls (post_lines at by rate order ls shares f)
unfolding post_lines
post_lines-Keeps line at by rate order [] shares f = refl
post_lines-Keeps line at by rate order (l ∷ ls) [] f = refl
post_lines-Keeps line at by rate order (l ∷ ls) (share ∷ shares) f =
    elim (Option-cases (product_of l.purchase_order_line_id order)) [
      | inl e ↦
          rw (e, post_lines)
            (add_posted-Keeps line l (costed rate order share l) ls
              (post_lines at by rate order ls shares f) refl refl
              (post_lines-Keeps line at by rate order ls shares f))
      | inr (product, e) ↦
          rw (e, post_lines)
            (go product
              (record_movement (arrival_movement at by product (costed rate order share l)) f)
              (λ g. post_lines-Keeps line at by rate order ls shares g))
    ]
  where
    go :
        (product : ℕ) (r : Recorded)
        → ((g : Shelf) → Keeps line ls (post_lines at by rate order ls shares g))
        → Keeps line (l ∷ ls) (elim r [
          | not_recorded e ↦ not_posted e
          | recorded g ↦
              add_posted
                (record (costed rate order share l) {
                  stock_movement_id = some (length f.movements);
                })
                (post_lines at by rate order ls shares g)
        ])
    go product (not_recorded e) h = tt
    go product (recorded g) h =
        add_posted-Keeps line l _ ls (post_lines at by rate order ls shares g) refl refl (h g)

-- A line that is let through brings no more than is outstanding.
line_bound :
    (already : ℕ → ℤ) (order : List PurchaseOrderLine) (i : ℕ) (x : ReceiptLineRequest)
    (l : PurchaseOrderLine)
    → find (line_is x.purchase_order_line_id) order ≡ some l
    → arrival_error already order i x ≡ none
    → already l.id +ℤ x.quantity ≤ℤ l.quantity
unfolding arrival_error
line_bound already order i x l found = rw (found, arrival_error) (λ h. enough h)
  where
    enough :
        (if leb_ℤ x.quantity (pos 0)
            then some (ReceiptReply.no_quantity i)
            else (if ltb_ℤ (l.quantity -ℤ already l.id) x.quantity
                then some (ReceiptReply.too_many i (l.quantity -ℤ already l.id))
                else none))
          ≡ none
        → already l.id +ℤ x.quantity ≤ℤ l.quantity
    enough h =
        ground (arith, +ℤ_parts (already l.id) x.quantity, -ℤ_parts l.quantity (already l.id))

pub first_error :
    (e : Option ReceiptReply) (rest : Option ReceiptReply)
    → ◌≡◌ {A = Option ReceiptReply} (elim e [ some x ↦ some x | none ↦ rest ]) none
    → (e ≡ none) × (rest ≡ none)
first_error none rest h = (refl, h)
first_error (some x) rest h = absurd (ground arith)

pub plus_zero : (a b : ℤ) → b ≡ pos 0 → a +ℤ b ≡ a
plus_zero a b h = rw h (omega int_laws)

-- Where each line of the request names another order line, what they bring of one is outstanding.
pub accepted_bound :
    (already : ℕ → ℤ) (order : List PurchaseOrderLine) (i : ℕ) (ls : List ReceiptLineRequest)
    (l : PurchaseOrderLine)
    → find (line_is l.id) order ≡ some l
    → NamesEach ls
    → arrival_errors already order i ls ≡ none
    → (asked l.id ls ≡ pos 0) ⊎ (already l.id +ℤ asked l.id ls ≤ℤ l.quantity)
unfolding arrival_errors
accepted_bound already order i [] l found d h = inl refl
accepted_bound already order i (x ∷ ls) l found d h =
    let (first, rest) =
      first_error (arrival_error already order i x) (arrival_errors already order (suc i) ls) h in
    elim (Bool-cases (x.purchase_order_line_id == l.id)) [
      | inr e ↦ rw e (accepted_bound already order (suc i) ls l found d.1 rest)
      | inl e ↦
          let same = (==_iff x.purchase_order_line_id l.id).0 e in
          rw (e, plus_zero x.quantity (asked l.id ls) (asked-absent l.id ls (rw same at d.0)))
            (inr (
              line_bound already order i x l
                (subst (λ k. find (line_is k) order ≡ some l) (sym same) found) first))
    ]

lines_error_cases :
    (i : ℕ) (l : LineRequest) (ls : List LineRequest)
    → validate_lines i (l ∷ ls) ≡ none
    → (pos 0 ≤ℤ l.quantity) × (validate_lines (suc i) ls ≡ none)
unfolding validate_lines
lines_error_cases i l ls h = (ground arith, ground arith)

-- The lines of a validated request ask for something.
pub validated_lines :
    (ids : ℕ → ℕ) (i j : ℕ) (ls : List LineRequest)
    → validate_lines i ls ≡ none
    → All (λ l. pos 0 ≤ℤ l.quantity) (lines_from_request ids j ls)
unfolding lines_from_request
validated_lines ids i j [] h = tt
validated_lines ids i j (l ∷ ls) h =
    let (first, rest) = lines_error_cases i l ls h in
    (first, validated_lines ids (suc i) (suc j) ls rest)

pub validated_request :
    (r : OrderRequest) → validate_purchase_order r ≡ none → validate_lines 1 r.lines ≡ none
unfolding validate_purchase_order
validated_request r h = ground arith

pub lines_clash-DistinctKeys :
    (ls : List PurchaseOrderLine) (os : List PurchaseOrder)
    → lines_clash ls os ≡ false
    → DistinctKeys (λ l. l.id) ls
unfolding lines_clash
lines_clash-DistinctKeys [] os h = tt
lines_clash-DistinctKeys (l ∷ ls) os h =
    (ground arith, lines_clash-DistinctKeys ls os (ground arith))

pub validated_arrivals :
    (already : ℕ → ℤ) (order : List PurchaseOrderLine) (r : ReceiptRequest)
    → receipt_error already order r ≡ none
    → arrival_errors already order 1 r.lines ≡ none
unfolding receipt_error
validated_arrivals already order r h = ground arith
