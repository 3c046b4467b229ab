-- ===== src/Counter/Takings.antt =====
-- The arithmetic of a till: what `tillTotals` adds up, and the tills an operator may hold.
use arcus_invest_backend.Base.{
  ℕ, ◌==◌, ==_iff, subst, ◌≤◌, ◌≡◌, refl, ℤ, pos, ◌+ℤ◌, ltb_ℤ, true, Option, none, some, List, [],
  ◌∷◌, arith, int_laws, if◌then◌else◌, Bool-cases, Option-cases, inl, inr, find, count,
  update_where, is_id,
}
use arcus_invest_backend.Counter.Till.{
  CounterMethod, TillSession, CounterSale, Shop, total, Takings, add_taking, till_totals,
  till_summary, is_open, is_open_by, open_session_for, new_session, admin_open_till, actor,
  session_is, close_session, close_with, closer, admin_close_till,
}

-- What the sales of a session come to, one by one.
pub sales_total : ℕ → List CounterSale → ℤ
sales_total id [] = pos 0
sales_total id (x ∷ xs) =
    let rest = sales_total id xs in if x.till_session_id == id then total x +ℤ rest else rest

abbrev all_takings : Takings → ℤ
all_takings k = k.by_cash +ℤ k.by_mobile_money +ℤ k.by_card +ℤ k.by_bank_transfer

add_taking-total :
    (m : CounterMethod) (n : ℤ) (k : Takings) → all_takings (add_taking m n k) ≡ n +ℤ all_takings k
unfolding add_taking
add_taking-total CounterMethod.cash n k = omega int_laws
add_taking-total CounterMethod.mobile_money n k = omega int_laws
add_taking-total CounterMethod.card n k = omega int_laws
add_taking-total CounterMethod.bank_transfer n k = omega int_laws

till_totals-total :
    (id : ℕ) (xs : List CounterSale) → all_takings (till_totals id xs) ≡ sales_total id xs
unfolding till_totals sales_total
till_totals-total id [] = omega int_laws
till_totals-total id (x ∷ xs) = ground (
  arith,
  till_totals-total id xs,
  add_taking-total x.payment_method (total x) (till_totals id xs),
)

-- The takings that a till's summary shows by method come to the totals of the session's sales.
pub takings_complete :
    (t : TillSession) (xs : List CounterSale)
    → (till_summary t (till_totals t.id xs)).total_takings ≡ sales_total t.id xs
unfolding till_summary
takings_complete t xs = till_totals-total t.id xs

-- No operator holds two open tills.
abbrev pub OneTillEach : Shop → Type 0
OneTillEach s = (n : ℕ) → count (is_open_by n) s.sessions ≤ 1

none-count :
    (n : ℕ) (ts : List TillSession) → find (is_open_by n) ts ≡ none → count (is_open_by n) ts ≡ 0
none-count n [] h = refl
none-count n (t ∷ ts) h = ground (arith, none-count n ts)

close-count :
    (n k : ℕ) (by : Option ℕ) (counted : ℤ) (ts : List TillSession)
    → count (is_open_by n) (update_where (session_is k) (close_session by counted) ts)
      ≤ count (is_open_by n) ts
close-count n k by counted [] = omega arith
close-count n k by counted (t ∷ ts) = ground (arith, close-count n k by counted ts)

actor_lem : (n m : ℕ) (s : Shop) → is_id (actor n s) m ≡ true → n ≡ m
actor_lem n m s h = ground (arith, ==_iff n m)

open-OneTillEach :
    (id n : ℕ) (opening : ℤ) (s : Shop)
    → open_session_for n s ≡ none
    → OneTillEach s
    → OneTillEach (record s { sessions = new_session id (actor n s) opening ∷ s.sessions })
open-OneTillEach id n opening s h i m = elim (Bool-cases (is_id (actor n s) m)) [
  | inr e ↦ rw e (ground (arith, i m))
  | inl e ↦
      let none_yet =
        subst (λ k. count (is_open_by k) s.sessions ≡ 0) (actor_lem n m s e)
          (none-count n s.sessions h) in
      rw (e, none_yet) (omega arith)
]

admin_open_till-OneTillEach :
    (id : ℕ) (caller : Option ℕ) (body : Option ℤ) (s : Shop)
    → OneTillEach s
    → OneTillEach (admin_open_till id caller body s).1
unfolding admin_open_till
admin_open_till-OneTillEach id none body s i = i
admin_open_till-OneTillEach id (some n) none s i = elim (Option-cases (open_session_for n s)) [
  | inl e ↦ rw (e, admin_open_till) i
  | inr (t, e) ↦ rw (e, admin_open_till) i
]
admin_open_till-OneTillEach id (some n) (some opening) s i =
    elim (Option-cases (open_session_for n s)) [
      | inr (t, e) ↦ rw (e, admin_open_till) i
      | inl e ↦ elim (Bool-cases (ltb_ℤ opening (pos 0))) [
        | inl b ↦ rw (e, admin_open_till) (rw b i)
        | inr b ↦ rw (e, admin_open_till) (rw b (open-OneTillEach id n opening s e i))
      ]
    ]

close_with-OneTillEach :
    (n : ℕ) (t : TillSession) (by : Option ℕ) (body : Option (Option ℤ)) (s : Shop)
    → OneTillEach s
    → OneTillEach (close_with n t by body s).1
close_with-OneTillEach n t by none s i = i
close_with-OneTillEach n t by (some none) s i = i
close_with-OneTillEach n t by (some (some counted)) s i =
    elim (Bool-cases (ltb_ℤ counted (pos 0))) [
      | inl b ↦ rw b i
      | inr b ↦ rw b (λ m. ground (arith, i m, close-count m n by counted s.sessions))
    ]

admin_close_till-OneTillEach :
    (id caller : Option ℕ) (body : Option (Option ℤ)) (s : Shop)
    → OneTillEach s
    → OneTillEach (admin_close_till id caller body s).1
unfolding admin_close_till
admin_close_till-OneTillEach none caller body s i = i
admin_close_till-OneTillEach (some n) caller body s i =
    elim (Option-cases (find (session_is n) s.sessions)) [
      | inl e ↦ rw (e, admin_close_till) i
      | inr (t, e) ↦ elim (Bool-cases (is_open t)) [
        | inl b ↦
            rw (e, admin_close_till) (rw b (close_with-OneTillEach n t (closer caller s) body s i))
        | inr b ↦ rw (e, admin_close_till) (rw b i)
      ]
    ]

-- The requests that open and close tills.
pub data TillRequest : Type 0 where
  open_till : (id : ℕ) (caller : Option ℕ) (body : Option ℤ) → TillRequest
  close_till : (id caller : Option ℕ) (body : Option (Option ℤ)) → TillRequest

pub handle : TillRequest → Shop → Shop
handle (open_till id caller body) s = (admin_open_till id caller body s).1
handle (close_till id caller body) s = (admin_close_till id caller body s).1

pub handle_all : List TillRequest → Shop → Shop
handle_all [] s = s
handle_all (x ∷ xs) s = handle_all xs (handle x s)

handle-OneTillEach : (x : TillRequest) (s : Shop) → OneTillEach s → OneTillEach (handle x s)
unfolding handle
handle-OneTillEach (open_till id caller body) s i = admin_open_till-OneTillEach id caller body s i
handle-OneTillEach (close_till id caller body) s i = admin_close_till-OneTillEach id caller body s i

handle_all-OneTillEach :
    (xs : List TillRequest) (s : Shop) → OneTillEach s → OneTillEach (handle_all xs s)
unfolding handle_all
handle_all-OneTillEach [] s i = i
handle_all-OneTillEach (x ∷ xs) s i =
    handle_all-OneTillEach xs (handle x s) (handle-OneTillEach x s i)

-- If no operator holds more than one open till, no operator does after any sequence of requests to
-- open and to close tills, each answered or refused.
pub one_open_till :
    (xs : List TillRequest) (s : Shop)
    → OneTillEach s
    → (n : ℕ) → count (is_open_by n) (handle_all xs s).sessions ≤ 1
one_open_till xs s i = handle_all-OneTillEach xs s i
