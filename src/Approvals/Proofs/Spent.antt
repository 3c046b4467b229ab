-- ===== src/Approvals/Proofs/Spent.antt =====
-- Rows looked up by their id under the statements, and that a spent approval stays spent.
use mathlib.Core.Path.{subst}
use arcus_invest_backend.Base.{
  ℕ, ◌==◌, ◌≡◌, ◌≢◌, refl, sym, ℤ, ◌≤ℤ◌, Bool, true, false, some, List, [], ◌∷◌, arith, inl, inr,
  find, any, count, update_where, Bool-cases, ==_iff, ==_refl, leb→le, if◌then◌else◌,
}
use arcus_invest_backend.Approvals.Types.{
  ApprovalStatus, ApprovalRequest, Store, Statement, Faults, is_consumed,
}
use arcus_invest_backend.Approvals.Queries.{
  find_request, request_is, insert_request, consumable, spend, consume_rows, rows_consumed,
  undecided, decide, finalise_rows, supersede, link_rows,
}
use arcus_invest_backend.Approvals.Gate.{consume}
use arcus_invest_backend.Approvals.Sound.{
  IsSound, DistinctIds, Step, Reach, raise_step, vote_step, approve_step, reject_step, consume_step,
  link_step, notify_step, edit_step, here, next,
}
use arcus_invest_backend.Approvals.Proofs.Statements.{
  insert_request-some, insert_decision-some, found_any,
}

-- An update that keeps ids acts on the row that is found.
pub find-update :
    (n : ℕ) (p : ApprovalRequest → Bool) (f : ApprovalRequest → ApprovalRequest)
    (rs : List ApprovalRequest) {r : ApprovalRequest}
    → ((q : ApprovalRequest) → (f q).id ≡ q.id)
    → find (request_is n) rs ≡ some r
    → find (request_is n) (update_where p f rs) ≡ some (if p r then f r else r)
find-update n p f [] same e = ground arith
find-update n p f (q ∷ rs) {r} same e = ground (arith, same q, find-update n p f rs {r = r} same)

-- Among distinct ids, a row that is found by any test is found by its id.
absent_find :
    (p : ApprovalRequest → Bool) (n : ℕ) (rs : List ApprovalRequest) {r : ApprovalRequest}
    → any (request_is n) rs ≡ false
    → find p rs ≡ some r
    → (r.id == n) ≡ false
absent_find p n [] a e = ground arith
absent_find p n (q ∷ rs) {r} a e = ground (arith, absent_find p n rs {r = r})

pub find-by_id :
    (p : ApprovalRequest → Bool) (rs : List ApprovalRequest) {r : ApprovalRequest}
    → DistinctIds rs
    → find p rs ≡ some r
    → find (request_is r.id) rs ≡ some r
find-by_id p [] d e = ground arith
find-by_id p (q ∷ rs) {r} d e = elim (Bool-cases (p q)) [
  | inl y ↦ ground (arith, ==_refl r.id)
  | inr n ↦ ground (arith, absent_find p q.id rs {r = r} d.0, find-by_id p rs {r = r} d.1)
]

absent_consumable :
    (n : ℕ) (amount : ℤ) (rs : List ApprovalRequest)
    → any (request_is n) rs ≡ false
    → count (consumable n amount) rs ≡ 0
absent_consumable n amount [] h = refl
absent_consumable n amount (q ∷ rs) h = ground (arith, absent_consumable n amount rs)

-- How many rows `consume` spends depends on the one row with the id.
pub rows_consumed_lem :
    (n : ℕ) (amount : ℤ) (rs : List ApprovalRequest) {r : ApprovalRequest}
    → DistinctIds rs
    → find (request_is n) rs ≡ some r
    → count (consumable n amount) rs ≡ (if consumable n amount r then 1 else 0)
rows_consumed_lem n amount [] d e = ground arith
rows_consumed_lem n amount (q ∷ rs) {r} d e = elim (Bool-cases (q.id == n)) [
  | inl y ↦ ground (arith, ==_iff q.id n, absent_consumable n amount rs, d.0)
  | inr m ↦ ground (arith, rows_consumed_lem n amount rs {r = r} d.1)
]

-- The row with id `n` has been consumed.
pub record IsSpent (n : ℕ) (s : Store) : Type 0 where
  pub row : ApprovalRequest
  pub found : find_request n s ≡ some row
  pub consumed : is_consumed row.status ≡ true

update-IsSpent :
    (n : ℕ) (p : ApprovalRequest → Bool) (f : ApprovalRequest → ApprovalRequest) (s : Store)
    → ((q : ApprovalRequest) → (f q).id ≡ q.id)
    → ((q : ApprovalRequest)
        → p q ≡ true
        → is_consumed q.status ≡ true
        → is_consumed (f q).status ≡ true)
    → IsSpent n s
    → IsSpent n (record s { requests = update_where p f s.requests })
update-IsSpent n p f s same keep h = record {
  row = if p h.row then f h.row else h.row;
  found = find-update n p f s.requests {r = h.row} same h.found;
  consumed = ground (arith, keep h.row, h.consumed);
}

raised_found :
    (n : ℕ) (r : ApprovalRequest) (rs : List ApprovalRequest) {q : ApprovalRequest}
    → any (request_is r.id) rs ≡ false
    → find (request_is n) rs ≡ some q
    → find (request_is n) (r ∷ rs) ≡ some q
raised_found n r rs {q} fresh e =
    ground (arith, ==_iff r.id n, found_any n rs {r = q} e, same_id (r.id) n rs)
  where
    same_id :
        (i j : ℕ) (xs : List ApprovalRequest)
        → i ≡ j
        → any (request_is i) xs ≡ any (request_is j) xs
    same_id i j xs p = rw p

raise-IsSpent :
    (n : ℕ) (s t : Store) (r : ApprovalRequest)
    → insert_request r s ≡ some t
    → IsSpent n s
    → IsSpent n t
raise-IsSpent n s t r e h =
    let (fresh, free, eq) = insert_request-some s t r e in
    subst (IsSpent n) (sym eq) (record {
      row = h.row;
      found = raised_found n r s.requests {q = h.row} fresh h.found;
      consumed = h.consumed;
    })

-- Statements that leave the requests alone.
same_requests-IsSpent : (n : ℕ) (s t : Store) → t.requests ≡ s.requests → IsSpent n s → IsSpent n t
same_requests-IsSpent n s t e h = record {
  row = h.row;
  found = rw e h.found;
  consumed = h.consumed;
}

pub Step-IsSpent : {s t : Store} (n : ℕ) → Step s t → IsSpent n s → IsSpent n t
unfolding finalise_rows consume_rows link_rows
Step-IsSpent n (raise_step s t r waiting keyed floor e) h = raise-IsSpent n s t r e h
Step-IsSpent n (vote_step s t d r found other role e) h =
    same_requests-IsSpent n s t (rw (insert_decision-some s t d e).1) h
Step-IsSpent n (approve_step s now m r found enough) h =
    update-IsSpent n (undecided m) (decide now ApprovalStatus.approved) s (λ q. refl)
      (λ q w c. ground arith) h
Step-IsSpent n (reject_step s now m) h =
    update-IsSpent n (undecided m) (decide now ApprovalStatus.rejected) s (λ q. refl)
      (λ q w c. ground arith) h
Step-IsSpent n (consume_step s now m amount) h =
    update-IsSpent n (consumable m amount) (spend now) s (λ q. refl) (λ q w c. refl) h
Step-IsSpent n (link_step s m old) h =
    update-IsSpent n (request_is m) (supersede old) s (λ q. refl) (λ q w c. c) h
Step-IsSpent n (notify_step s m) h = same_requests-IsSpent n s _ refl h
Step-IsSpent n (edit_step s rules users roles) h = same_requests-IsSpent n s _ refl h

pub Reach-IsSpent : {s t : Store} (n : ℕ) → Reach s t → IsSpent n s → IsSpent n t
Reach-IsSpent n here h = h
Reach-IsSpent n (next r st) h = Step-IsSpent n st (Reach-IsSpent n r h)

pub consumed_one :
    (down : Faults) (now : ℕ) (r : ApprovalRequest) (amount : ℤ) (s : Store)
    → rows_consumed r.id amount s ≡ (if consumable r.id amount r then 1 else 0)
    → (consume down now r amount s).0 ≡ some true
    → (down Statement.consume_request ≡ false) × (consumable r.id amount r ≡ true)
unfolding consume
consumed_one down now r amount s one done = ground arith

-- A successful `consume` spends the row, whose amount covers the action.
pub consume-IsSpent :
    (down : Faults) (now : ℕ) (r : ApprovalRequest) (amount : ℤ) (s : Store)
    → IsSound s
    → find_request r.id s ≡ some r
    → (consume down now r amount s).0 ≡ some true
    → IsSpent r.id (consume down now r amount s).1 × (amount ≤ℤ r.amount)
unfolding consume consume_rows
consume-IsSpent down now r amount s h found done =
    let one = rows_consumed_lem r.id amount s.requests {r = r} h.distinct found in
    let (live, taken) = consumed_one down now r amount s one done in
    (
      rw live (record {
        row = spend now r;
        found = rw taken at (
            find-update r.id (consumable r.id amount) (spend now) s.requests {r = r} (λ q. refl)
              found);
        consumed = refl;
      }),
      leb→le _ _ (ground arith),
    )

-- A spent row is not consumed again.
pub spent-consume :
    (down : Faults) (now : ℕ) (r : ApprovalRequest) (amount : ℤ) (s : Store)
    → IsSound s
    → IsSpent r.id s
    → (consume down now r amount s).0 ≢ some true
unfolding consume
spent-consume down now r amount s h spent done = ground (
  arith,
  rows_consumed_lem r.id amount s.requests {r = spent.row} h.distinct spent.found,
  spent.consumed,
)
