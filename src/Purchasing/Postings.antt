-- ===== src/Purchasing/Postings.antt =====
-- The quantities of a receipt, from its request through posting and late charges.
use arcus_invest_backend.Base.{
  ℕ, suc, ◌≡◌, refl, inl, inr, ℤ, pos, ◌≤ℤ◌, true, false, Option, none, some, List, [], ◌∷◌, arith,
  length, Option-cases,
}
use arcus_invest_backend.Stock.Ledger.{Shelf, Recorded, recorded, not_recorded, record_movement}
use arcus_invest_backend.Purchasing.Orders.{PurchaseOrderLine}
use arcus_invest_backend.Purchasing.Receipts.{GoodsReceiptLine}
use arcus_invest_backend.Purchasing.Arrivals.{
  Posted, posted, not_posted, add_posted, post_lines, product_of, costed, arrival_movement,
}
use arcus_invest_backend.Purchasing.Deliveries.{
  ReceiptLineRequest, ReceiptRequest, arrival_error, arrival_errors, receipt_lines, receipt_error,
}
use arcus_invest_backend.Purchasing.Recost.{recost_lines}
use arcus_invest_backend.Purchasing.Quantities.{first_error, validated_arrivals}
use arcus_invest_backend.Purchasing.Filled.{quantities, AreAbove, IsFilled}

abbrev pub KeepsQuantities : List GoodsReceiptLine → Posted → Type 0
KeepsQuantities ls (not_posted e) = Unit
KeepsQuantities ls (posted ms g) = quantities ms ≡ quantities ls

add_posted-KeepsQuantities :
    (l row : GoodsReceiptLine) (ls : List GoodsReceiptLine) (p : Posted)
    → row.quantity ≡ l.quantity
    → KeepsQuantities ls p
    → KeepsQuantities (l ∷ ls) (add_posted row p)
add_posted-KeepsQuantities l row ls (not_posted e) q h = tt
add_posted-KeepsQuantities l row ls (posted ms g) q h = rw (q, h) refl

-- Posting a receipt keeps the quantities of its lines.
pub post_lines-KeepsQuantities :
    (at : ℕ) (by : Option ℕ) (rate : ℤ) (order : List PurchaseOrderLine)
    (ls : List GoodsReceiptLine) (shares : List ℤ) (f : Shelf)
    → KeepsQuantities ls (post_lines at by rate order ls shares f)
unfolding post_lines
post_lines-KeepsQuantities at by rate order [] shares f = refl
post_lines-KeepsQuantities at by rate order (l ∷ ls) [] f = refl
post_lines-KeepsQuantities at by rate order (l ∷ ls) (share ∷ shares) f =
    elim (Option-cases (product_of l.purchase_order_line_id order)) [
      | inl e ↦
          rw (e, post_lines)
            (add_posted-KeepsQuantities l (costed rate order share l) ls
              (post_lines at by rate order ls shares f) refl
              (post_lines-KeepsQuantities at by rate order ls shares f))
      | inr (product, e) ↦
          rw (e, post_lines)
            (go (record_movement (arrival_movement at by product (costed rate order share l)) f)
              (λ g. post_lines-KeepsQuantities at by rate order ls shares g))
    ]
  where
    go :
        (r : Recorded)
        → ((g : Shelf) → KeepsQuantities ls (post_lines at by rate order ls shares g))
        → KeepsQuantities (l ∷ ls) (elim r [
          | not_recorded e ↦ not_posted e
          | recorded g ↦
              add_posted
                (record (costed rate order share l) {
                  stock_movement_id = some (length f.movements);
                })
                (post_lines at by rate order ls shares g)
        ])
    go (not_recorded e) h = tt
    go (recorded g) h =
        add_posted-KeepsQuantities l _ ls (post_lines at by rate order ls shares g) refl (h g)

pub quantities-recost_lines :
    (rate : ℤ) (order : List PurchaseOrderLine) (ls : List GoodsReceiptLine) (shares : List ℤ)
    → quantities (recost_lines rate order ls shares) ≡ quantities ls
unfolding recost_lines
quantities-recost_lines rate order [] shares = refl
quantities-recost_lines rate order (l ∷ ls) [] = refl
quantities-recost_lines rate order (l ∷ ls) (share ∷ shares) =
    rw (quantities-recost_lines rate order ls shares) refl

arrival_above :
    (already : ℕ → ℤ) (order : List PurchaseOrderLine) (i : ℕ) (l : ReceiptLineRequest)
    → arrival_error already order i l ≡ none
    → pos 1 ≤ℤ l.quantity
unfolding arrival_error
arrival_above already order i l h = ground arith

arrivals_above :
    (already : ℕ → ℤ) (order : List PurchaseOrderLine) (i : ℕ) (ls : List ReceiptLineRequest)
    → arrival_errors already order i ls ≡ none
    → AreAbove (quantities (receipt_lines ls))
unfolding arrival_errors receipt_lines
arrivals_above already order i [] h = tt
arrivals_above already order i (l ∷ ls) h =
    let (first, rest) =
      first_error (arrival_error already order i l) (arrival_errors already order (suc i) ls) h in
    (arrival_above already order i l first, arrivals_above already order (suc i) ls rest)

no_request :
    (already : ℕ → ℤ) (order : List PurchaseOrderLine) (r : ReceiptRequest)
    → r.lines ≡ []
    → receipt_error already order r ≡ none
    → false ≡ true
unfolding receipt_error
no_request already order r e h = absurd (ground (arith, e, h))

-- A request that is let through brings something on each of its lines, and has lines.
pub accepted-IsFilled :
    (already : ℕ → ℤ) (order : List PurchaseOrderLine) (r : ReceiptRequest)
    → receipt_error already order r ≡ none
    → IsFilled (quantities (receipt_lines r.lines))
unfolding receipt_lines
accepted-IsFilled already order r h = go r.lines refl (validated_arrivals already order r h)
  where
    go :
        (ls : List ReceiptLineRequest)
        → r.lines ≡ ls
        → arrival_errors already order 1 r.lines ≡ none
        → IsFilled (quantities (receipt_lines ls))
    go [] e k = no_request already order r e h
    go (l ∷ ls) e k = arrivals_above already order 1 (l ∷ ls) (rw e at k)
