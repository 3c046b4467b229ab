-- ===== src/Purchasing/Stocked.antt =====
-- Well-formed orders and receipts, and what a change of one order or a new receipt does to them.
use arcus_invest_backend.Base.{
  ℕ, ◌==◌, ◌≡◌, refl, subst, ◌∙◌, inl, inr, ℤ, pos, ◌+ℤ◌, ◌≤ℤ◌, Bool, true, false, some, List, [],
  ◌∷◌, arith, find, any, update_where, any-update_where, All, All-map, find-All, find_sound,
  Bool-cases, ==_iff, int_laws,
}
use arcus_invest_backend.Base.Tables.{DistinctKeys, found-change, update-DistinctKeys}
use arcus_invest_backend.Purchasing.Orders.{PoStatus, PurchaseOrder, PurchaseOrderLine}
use arcus_invest_backend.Purchasing.Receipts.{
  GoodsReceipt, GoodsReceiptLine, Office, brought, received_by_line,
}
use arcus_invest_backend.Purchasing.OrderForms.{order_is}
use arcus_invest_backend.Purchasing.Quantities.{for_order, received_by_line-none}

-- The states in which nothing has arrived.
abbrev pub is_fresh : PoStatus → Bool
is_fresh PoStatus.draft = true
is_fresh PoStatus.pending_approval = true
is_fresh PoStatus.approved = true
is_fresh PoStatus.rejected = true
is_fresh _ = false

pub record IsServed (rs : List GoodsReceipt) (o : PurchaseOrder) : Type 0 where
  pub distinct : DistinctKeys (λ l. l.id) o.lines
  pub within : All (λ l. received_by_line o.id rs l.id ≤ℤ l.quantity) o.lines
  pub untouched : is_fresh o.status ≡ true → any (for_order o.id) rs ≡ false

pub record IsStocked (s : Office) : Type 0 where
  pub keys : DistinctKeys (λ o. o.id) s.orders
  pub served : All (IsServed s.receipts) s.orders
  pub placed : All (λ r. any (order_is r.purchase_order_id) s.orders ≡ true) s.receipts

pub fresh_lines :
    (n : ℕ) (rs : List GoodsReceipt) (ls : List PurchaseOrderLine)
    → any (for_order n) rs ≡ false
    → All (λ l. pos 0 ≤ℤ l.quantity) ls
    → All (λ l. received_by_line n rs l.id ≤ℤ l.quantity) ls
fresh_lines n rs ls none_yet h =
    All-map ls (λ l q. rw (received_by_line-none n rs l.id none_yet) q) h

unplaced :
    (n : ℕ) (os : List PurchaseOrder) (rs : List GoodsReceipt)
    → any (order_is n) os ≡ false
    → All (λ r. any (order_is r.purchase_order_id) os ≡ true) rs
    → any (for_order n) rs ≡ false
unplaced n os [] h a = refl
unplaced n os (r ∷ rs) h a = elim (Bool-cases (r.purchase_order_id == n)) [
  | inl e ↦
      absurd
        (clash (subst (λ k. any (order_is k) os ≡ true) ((==_iff r.purchase_order_id n).0 e) a.0))
  | inr e ↦ rw e (unplaced n os rs h a.1)
]
  where
    clash : any (order_is n) os ≡ true → ⊥
    clash t = ground arith

-- A new order, with no row of its identifier yet.
pub insert-IsStocked :
    (o : PurchaseOrder) (s : Office)
    → any (order_is o.id) s.orders ≡ false
    → DistinctKeys (λ l. l.id) o.lines
    → All (λ l. pos 0 ≤ℤ l.quantity) o.lines
    → IsStocked s
    → IsStocked (record s { orders = o ∷ s.orders })
insert-IsStocked o s new distinct asked h =
    let none_yet = unplaced o.id s.orders s.receipts new h.placed in
    record {
      keys = (new, h.keys);
      served = (
        record {
          distinct = distinct;
          within = fresh_lines o.id s.receipts o.lines none_yet asked;
          untouched = λ e. none_yet;
        },
        h.served,
      );
      placed = All-map s.receipts (λ r e. ground arith) h.placed;
    }

-- A change of one order that keeps its identifier.
pub change-IsStocked :
    (n : ℕ) (f : PurchaseOrder → PurchaseOrder) (s : Office) {o : PurchaseOrder}
    → ((x : PurchaseOrder) → (f x).id ≡ x.id)
    → find (order_is n) s.orders ≡ some o
    → (IsServed s.receipts o → IsServed s.receipts (f o))
    → IsStocked s
    → IsStocked (record s { orders = update_where (order_is n) f s.orders })
change-IsStocked n f s {o} keep found better h = record {
  keys = update-DistinctKeys (λ x. x.id) (order_is n) f s.orders keep h.keys;
  served =
      found-change (λ x. x.id) (IsServed s.receipts) (IsServed s.receipts) n f s.orders h.keys found
        (better (find-All (IsServed s.receipts) (order_is n) s.orders found h.served)) (λ x e k. k)
        h.served;
  placed =
      All-map s.receipts
        (λ r e.
          any-update_where (order_is r.purchase_order_id) (order_is n) f s.orders
            (λ y. same_test r.purchase_order_id y)
          ∙ e)
        h.placed;
}
  where
    same_test : (m : ℕ) (y : PurchaseOrder) → order_is m (f y) ≡ order_is m y
    same_test m y = rw (keep y) refl

-- A status that is no earlier keeps an order served.
pub restatus-IsServed :
    (rs : List GoodsReceipt) (o : PurchaseOrder) (p : PurchaseOrder)
    → p.id ≡ o.id
    → p.lines ≡ o.lines
    → (is_fresh p.status ≡ true → is_fresh o.status ≡ true)
    → IsServed rs o
    → IsServed rs p
restatus-IsServed rs o p i l earlier h = record {
  distinct = rw l h.distinct;
  within = rw (i, l) h.within;
  untouched = λ e. rw i (h.untouched (earlier e));
}

other_receipt :
    (r : GoodsReceipt) (rs : List GoodsReceipt) (o : PurchaseOrder)
    → (o.id == r.purchase_order_id) ≡ false
    → IsServed rs o
    → IsServed (r ∷ rs) o
unfolding received_by_line
other_receipt r rs o e h =
    let differs = differs_lem e in
    record {
      distinct = h.distinct;
      within = All-map o.lines (λ l q. rw differs q) h.within;
      untouched = λ f. rw differs (h.untouched f);
    }
  where
    differs_lem : (o.id == r.purchase_order_id) ≡ false → (r.purchase_order_id == o.id) ≡ false
    differs_lem h = ground (arith, ==_iff r.purchase_order_id o.id, ==_iff o.id r.purchase_order_id)

-- What a receipt brings of a line of its order leaves the line within what was ordered.
abbrev pub Fits : List GoodsReceipt → ℕ → List GoodsReceiptLine → PurchaseOrderLine → Type 0
Fits rs n ls l = received_by_line n rs l.id +ℤ brought l.id ls ≤ℤ l.quantity

received_cons :
    (r : GoodsReceipt) (rs : List GoodsReceipt) (line : ℕ)
    → received_by_line r.purchase_order_id (r ∷ rs) line
      ≡ brought line r.lines +ℤ received_by_line r.purchase_order_id rs line
unfolding received_by_line
received_cons r rs line = ground (arith, ==_iff r.purchase_order_id r.purchase_order_id)

swap_le : (a b q : ℤ) → a +ℤ b ≤ℤ q → b +ℤ a ≤ℤ q
swap_le a b q h = omega (int_laws, h)

-- A new receipt, and a change of the status of its order to one in which goods have arrived.
pub receipt-IsStocked :
    (r : GoodsReceipt) (f : PurchaseOrder → PurchaseOrder) (s : Office) {o : PurchaseOrder}
    → ((x : PurchaseOrder) → ((f x).id ≡ x.id) × ((f x).lines ≡ x.lines))
    → find (order_is r.purchase_order_id) s.orders ≡ some o
    → is_fresh (f o).status ≡ false
    → All (Fits s.receipts r.purchase_order_id r.lines) o.lines
    → IsStocked s
    → (shelf : _)
    → IsStocked (record s {
      orders = update_where (order_is r.purchase_order_id) f s.orders;
      receipts = r ∷ s.receipts;
      shelf = shelf;
    })
receipt-IsStocked r f s {o} keep found stale fits h shelf =
    let n = r.purchase_order_id in
    let old = find-All (IsServed s.receipts) (order_is n) s.orders found h.served in
    let same_id = (==_iff o.id n).0 (find_sound (order_is n) s.orders found) in
    record {
      keys = update-DistinctKeys (λ x. x.id) (order_is n) f s.orders (λ x. (keep x).0) h.keys;
      served =
          found-change (λ x. x.id) (IsServed s.receipts) (IsServed (r ∷ s.receipts)) n f s.orders
            h.keys found
            (record {
              distinct = rw (keep o).1 old.distinct;
              within =
                  rw ((keep o).0, (keep o).1, same_id)
                    (All-map o.lines
                      (λ l q. rw (received_cons r s.receipts l.id) (
                        swap_le (received_by_line n s.receipts l.id) (brought l.id r.lines)
                          l.quantity q))
                      fits);
              untouched = λ e. absurd (clash (f o).status stale e);
            })
            (λ x e k. other_receipt r s.receipts x e k) h.served;
      placed =
          (there n n found_any, All-map s.receipts (λ q e. there q.purchase_order_id n e) h.placed);
    }
  where
    clash : (st : PoStatus) → is_fresh st ≡ false → is_fresh st ≡ true → ⊥
    clash st a b = ground arith

    same_test : (m : ℕ) (y : PurchaseOrder) → order_is m (f y) ≡ order_is m y
    same_test m y = rw (keep y).0 refl

    there :
        (m n : ℕ)
        → any (order_is m) s.orders ≡ true
        → any (order_is m) (update_where (order_is n) f s.orders) ≡ true
    there m n e = any-update_where (order_is m) (order_is n) f s.orders (same_test m) ∙ e

    found_lem :
        (n : ℕ) (os : List PurchaseOrder)
        → find (order_is n) os ≡ some o
        → any (order_is n) os ≡ true
    found_lem n [] h = absurd (ground arith)
    found_lem n (x ∷ os) h = ground (arith, found_lem n os)

    found_any : any (order_is r.purchase_order_id) s.orders ≡ true
    found_any = found_lem r.purchase_order_id s.orders found
