-- ===== src/Purchasing/Alive.antt =====
-- Well-formed orders and receipts, and what a change of one order does to the steps of every order.
use arcus_invest_backend.Base.{
  ℕ, ◌==◌, ◌≡◌, refl, subst, sym, inl, inr, true, false, some, List, [], ◌∷◌, arith, find, any,
  find_sound, find-update_where, update_where, Bool-cases, ==_iff,
}
use arcus_invest_backend.Purchasing.Orders.{PurchaseOrder}
use arcus_invest_backend.Purchasing.Receipts.{GoodsReceipt, Office}
use arcus_invest_backend.Purchasing.OrderForms.{order_is}
use arcus_invest_backend.Purchasing.Quantities.{for_order}
use arcus_invest_backend.Purchasing.Filled.{AreFilled}
use arcus_invest_backend.Purchasing.Edges.{
  status, status_of, Edge, Edge-used, is_used, has_arrivals, used, arrived, stay,
}

-- Well-formed orders and receipts: the receipts bring something, each order is in a state that is
-- used, and one with arrivals has a receipt.
pub record IsAlive (s : Office) : Type 0 where
  pub filled : AreFilled s.receipts
  pub used_only : (n : ℕ) → used (status_of n s.orders) ≡ true
  pub backed : (n : ℕ) → arrived (status_of n s.orders) ≡ true → any (for_order n) s.receipts ≡ true

-- One step of an order, with what it needs to be taken further.
pub record Passage (n : ℕ) (os us : List PurchaseOrder) (qs : List GoodsReceipt) : Type 0 where
  pub edge : Edge (status_of n os) (status_of n us)
  pub backs : arrived (status_of n us) ≡ true → any (for_order n) qs ≡ true
  pub fills : AreFilled qs

abbrev pub Moved : ℕ → Office → Office → Type 0
Moved n s t = Passage n s.orders t.orders t.receipts

pub Moved-IsAlive : (s t : Office) → IsAlive s → ((n : ℕ) → Moved n s t) → IsAlive t
Moved-IsAlive s t h f = record {
  filled = (f 0).fills;
  used_only = λ n. Edge-used (f n).edge (h.used_only n);
  backed = λ n. (f n).backs;
}

pub unmoved : (n : ℕ) (s : Office) → IsAlive s → Moved n s s
unmoved n s h = record { edge = stay; backs = h.backed n; fills = h.filled }

pub found-used :
    (m : ℕ) (s : Office) {o : PurchaseOrder}
    → IsAlive s
    → find (order_is m) s.orders ≡ some o
    → is_used o.status ≡ true
found-used m s h found = subst (λ x. used (status x) ≡ true) found (h.used_only m)

pub found-backed :
    (m : ℕ) (s : Office) {o : PurchaseOrder}
    → IsAlive s
    → find (order_is m) s.orders ≡ some o
    → has_arrivals o.status ≡ true
    → any (for_order m) s.receipts ≡ true
found-backed m s h found e = h.backed m (subst (λ x. arrived (status x) ≡ true) (sym found) e)

find-other :
    (n m : ℕ) (f : PurchaseOrder → PurchaseOrder) (os : List PurchaseOrder)
    → ((x : PurchaseOrder) → (f x).id ≡ x.id)
    → (m == n) ≡ false
    → find (order_is n) (update_where (order_is m) f os) ≡ find (order_is n) os
find-other n m f [] keep h = refl
find-other n m f (o ∷ os) keep h =
    ground (arith, find-other n m f os keep h, keep o, ==_iff m n, ==_iff o.id m)

pub same_test :
    (n : ℕ) (f : PurchaseOrder → PurchaseOrder) (x : PurchaseOrder)
    → (f x).id ≡ x.id
    → order_is n (f x) ≡ order_is n x
same_test n f x e = rw e refl

find-changed :
    (m : ℕ) (f : PurchaseOrder → PurchaseOrder) (os : List PurchaseOrder) {o : PurchaseOrder}
    → ((x : PurchaseOrder) → (f x).id ≡ x.id)
    → find (order_is m) os ≡ some o
    → find (order_is m) (update_where (order_is m) f os) ≡ some (f o)
find-changed m f os {o} keep h =
    let e = find-update_where (order_is m) (order_is m) f os (λ y t. same_test m f y (keep y)) h in
    rw (find_sound (order_is m) os h) at e

-- An order `m` changes, and receipts may be added.
pub changed-Moved :
    (n m : ℕ) (f : PurchaseOrder → PurchaseOrder) (s : Office) (qs : List GoodsReceipt)
    {o : PurchaseOrder}
    → IsAlive s
    → AreFilled qs
    → ((k : ℕ) → any (for_order k) s.receipts ≡ true → any (for_order k) qs ≡ true)
    → ((x : PurchaseOrder) → (f x).id ≡ x.id)
    → find (order_is m) s.orders ≡ some o
    → Edge (some o.status) (some (f o).status)
    → (has_arrivals (f o).status ≡ true → any (for_order m) qs ≡ true)
    → Passage n s.orders (update_where (order_is m) f s.orders) qs
changed-Moved n m f s qs {o} h fills more keep found edge backs = elim (Bool-cases (m == n)) [
  | inr e ↦
      let same = sym (find-other n m f s.orders keep e) in
      record {
        edge = subst (λ x. Edge (status_of n s.orders) (status x)) same stay;
        backs =
            subst (λ x. arrived (status x) ≡ true → any (for_order n) qs ≡ true) same
              (λ a. more n (h.backed n a));
        fills = fills;
      }
  | inl e ↦
      let new = sym (find-changed m f s.orders keep found) in
      subst (λ k. Passage k s.orders (update_where (order_is m) f s.orders) qs) ((==_iff m n).0 e)
        (record {
          edge =
              subst
                (λ x.
                  Edge (status x)
                    (status (find (order_is m) (update_where (order_is m) f s.orders))))
                (sym found) (subst (λ x. Edge (some o.status) (status x)) new edge);
          backs = subst (λ x. arrived (status x) ≡ true → any (for_order m) qs ≡ true) new backs;
          fills = fills;
        })
]
