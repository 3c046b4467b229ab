-- ===== src/Purchasing/Filled.antt =====
-- Receipts that bring something: each has lines, and each line a quantity above 0. What cancelling
-- an order looks for in its receipts.
use arcus_invest_backend.Base.{
  ℕ, ◌==◌, ◌≡◌, refl, subst, inl, inr, ℤ, pos, ◌+ℤ◌, ◌≤ℤ◌, ltb_ℤ, Bool, true, false, ◌&&◌, List, [],
  ◌∷◌, arith, any, All, Bool-cases, int_laws,
}
use arcus_invest_backend.Purchasing.Receipts.{
  GoodsReceipt, GoodsReceiptLine, brought, received_by_line,
}
use arcus_invest_backend.Purchasing.Desk.{any_received}
use arcus_invest_backend.Purchasing.Quantities.{for_order}

abbrev pub quantities : List GoodsReceiptLine → List ℤ
quantities [] = []
quantities (l ∷ ls) = l.quantity ∷ quantities ls

abbrev pub AreAbove : List ℤ → Type 0
AreAbove qs = All (λ q. pos 1 ≤ℤ q) qs

-- There is a quantity, and each is above 0.
abbrev pub IsFilled : List ℤ → Type 0
IsFilled [] = false ≡ true
IsFilled (q ∷ qs) = AreAbove (q ∷ qs)

abbrev pub AreFilled : List GoodsReceipt → Type 0
AreFilled rs = All (λ r. IsFilled (quantities r.lines)) rs

filled-above : (qs : List ℤ) → IsFilled qs → AreAbove qs
filled-above [] h = tt
filled-above (q ∷ qs) h = h

add_above : (a b : ℤ) → pos 1 ≤ℤ a → pos 0 ≤ℤ b → pos 1 ≤ℤ a +ℤ b
add_above a b h k = omega (int_laws, h, k)

add_least : (a b : ℤ) → pos 0 ≤ℤ a → pos 0 ≤ℤ b → pos 0 ≤ℤ a +ℤ b
add_least a b h k = omega (int_laws, h, k)

above_least : (a : ℤ) → pos 1 ≤ℤ a → pos 0 ≤ℤ a
above_least a h = omega (int_laws, h)

brought_least :
    (line : ℕ) (ls : List GoodsReceiptLine) → AreAbove (quantities ls) → pos 0 ≤ℤ brought line ls
unfolding brought
brought_least line [] h = omega int_laws
brought_least line (l ∷ ls) h =
    let rest = brought_least line ls h.1 in
    elim (Bool-cases (l.purchase_order_line_id == line)) [
      | inl e ↦ rw e (add_least l.quantity (brought line ls) (above_least l.quantity h.0) rest)
      | inr e ↦ rw e rest
    ]

received_least :
    (n : ℕ) (rs : List GoodsReceipt) (line : ℕ) → AreFilled rs → pos 0 ≤ℤ received_by_line n rs line
unfolding received_by_line
received_least n [] line h = omega int_laws
received_least n (r ∷ rs) line h =
    let rest = received_least n rs line h.1 in
    elim (Bool-cases (r.purchase_order_id == n)) [
      | inl e ↦ rw e (
          add_least (brought line r.lines) (received_by_line n rs line)
            (brought_least line r.lines (filled-above (quantities r.lines) h.0)) rest)
      | inr e ↦ rw e rest
    ]

head_above :
    (l : GoodsReceiptLine) (ls : List GoodsReceiptLine)
    → AreAbove (quantities (l ∷ ls))
    → pos 1 ≤ℤ brought l.purchase_order_line_id (l ∷ ls)
unfolding brought
head_above l ls h =
    let rest = brought_least l.purchase_order_line_id ls h.1 in
    ground (arith, add_above l.quantity (brought l.purchase_order_line_id ls) h.0 rest)

le_trans : (a b c : ℤ) → a ≤ℤ b → b ≤ℤ c → a ≤ℤ c
le_trans a b c h k = omega (int_laws, h, k)

ltb_above : (a : ℤ) → pos 1 ≤ℤ a → ltb_ℤ (pos 0) a ≡ true
ltb_above a h = ground (arith, h)

-- Some line of the receipts of an order has a total above 0.
abbrev some_above : (ℕ → ℤ) → GoodsReceipt → Bool
some_above total r = any (λ l. ltb_ℤ (pos 0) (total l.purchase_order_line_id)) r.lines

above-some :
    (total : ℕ → ℤ) (r : GoodsReceipt)
    → IsFilled (quantities r.lines)
    → ((line : ℕ) → brought line r.lines ≤ℤ total line)
    → some_above total r ≡ true
above-some total r h le = go r.lines h le
  where
    go :
        (ls : List GoodsReceiptLine)
        → IsFilled (quantities ls)
        → ((line : ℕ) → brought line ls ≤ℤ total line)
        → any (λ l. ltb_ℤ (pos 0) (total l.purchase_order_line_id)) ls ≡ true
    go [] h le = ground arith
    go (l ∷ ls) h le =
        rw
          (ltb_above (total l.purchase_order_line_id)
            (le_trans (pos 1) _ _ (head_above l ls h) (le l.purchase_order_line_id)))
          refl

first_received :
    (n : ℕ) (r : GoodsReceipt) (rs : List GoodsReceipt) (line : ℕ)
    → AreFilled rs
    → (r.purchase_order_id == n) ≡ true
    → brought line r.lines ≤ℤ received_by_line n (r ∷ rs) line
unfolding received_by_line
first_received n r rs line h e =
    rw e (grown (brought line r.lines) (received_by_line n rs line) (received_least n rs line h))
  where
    grown : (a b : ℤ) → pos 0 ≤ℤ b → a ≤ℤ a +ℤ b
    grown a b h = omega (int_laws, h)

skipped :
    (n : ℕ) (r : GoodsReceipt) (rs : List GoodsReceipt) (line : ℕ)
    → (r.purchase_order_id == n) ≡ false
    → received_by_line n (r ∷ rs) line ≡ received_by_line n rs line
unfolding received_by_line
skipped n r rs line e = rw e refl

pub filled-any_received :
    (n : ℕ) (rs : List GoodsReceipt)
    → AreFilled rs
    → any (for_order n) rs ≡ true
    → any_received n rs ≡ true
filled-any_received n rs h = go rs (λ line. ≤ℤ-refl (received_by_line n rs line)) h
  where
    ≤ℤ-refl : (a : ℤ) → a ≤ℤ a
    ≤ℤ-refl a = omega int_laws

    go :
        (qs : List GoodsReceipt)
        → ((line : ℕ) → received_by_line n qs line ≤ℤ received_by_line n rs line)
        → AreFilled qs
        → any (for_order n) qs ≡ true
        → any (λ r. (r.purchase_order_id == n) && some_above (received_by_line n rs) r) qs ≡ true
    go [] le h some_for = some_for
    go (r ∷ qs) le h some_for = elim (Bool-cases (r.purchase_order_id == n)) [
      | inl e ↦
          rw
            (
              e,
              above-some (received_by_line n rs) r h.0 (λ line.
                  le_trans (brought line r.lines) (received_by_line n (r ∷ qs) line)
                    (received_by_line n rs line) (first_received n r qs line h.1 e) (le line)),
            )
            refl
      | inr e ↦ rw e (
          go qs
            (λ line. subst (λ k. k ≤ℤ received_by_line n rs line) (skipped n r qs line e) (le line))
            h.1 (rw e at some_for))
    ]
