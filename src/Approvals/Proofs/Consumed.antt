-- ===== src/Approvals/Proofs/Consumed.antt =====
-- How many requests have been consumed, under the statements of the handlers.
use arcus_invest_backend.Base.{
  ℕ, ◌+◌, ◌≤◌, ◌≡◌, refl, subst, sym, ℤ, Bool, true, false, List, [], ◌∷◌, arith, inl, inr, count,
  update_where, count-update_where, Bool-cases,
}
use arcus_invest_backend.Approvals.Types.{
  ApprovalStatus, ApprovalRequest, Store, is_pending, is_approved, is_consumed,
}
use arcus_invest_backend.Approvals.Queries.{
  consumable, spend, consume_rows, undecided, decide, finalise_rows, supersede, link_rows,
  request_is,
}
use arcus_invest_backend.Approvals.Sound.{
  Step, Reach, raise_step, vote_step, approve_step, reject_step, consume_step, link_step,
  notify_step, edit_step, here, next,
}
use arcus_invest_backend.Approvals.Proofs.Statements.{insert_request-some, insert_decision-some}

abbrev is_spent_row : ApprovalRequest → Bool
is_spent_row r = is_consumed r.status

-- How many requests have been consumed.
abbrev pub consumed : Store → ℕ
consumed s = count is_spent_row s.requests

pub count-spend :
    (n now : ℕ) (amount : ℤ) (rs : List ApprovalRequest)
    → count is_spent_row (update_where (consumable n amount) (spend now) rs)
      ≡ count (consumable n amount) rs + count is_spent_row rs
count-spend n now amount [] = refl
count-spend n now amount (r ∷ rs) = elim (Bool-cases (consumable n amount r)) [
  | inl e ↦ ground (arith, count-spend n now amount rs, unspent r (ground arith))
  | inr e ↦ ground (arith, count-spend n now amount rs)
]
  where
    unspent : (q : ApprovalRequest) → is_approved q.status ≡ true → is_consumed q.status ≡ false
    unspent q h = ground arith

count-decide :
    (n now : ℕ) (st : ApprovalStatus) (rs : List ApprovalRequest)
    → is_consumed st ≡ false
    → count is_spent_row (update_where (undecided n) (decide now st) rs) ≡ count is_spent_row rs
count-decide n now st [] h = refl
count-decide n now st (r ∷ rs) h = elim (Bool-cases (undecided n r)) [
  | inl e ↦ ground (arith, count-decide n now st rs, unspent r (ground arith))
  | inr e ↦ ground (arith, count-decide n now st rs)
]
  where
    unspent : (q : ApprovalRequest) → is_pending q.status ≡ true → is_consumed q.status ≡ false
    unspent q w = ground arith

Step-consumed : {s t : Store} → Step s t → consumed s ≤ consumed t
unfolding finalise_rows consume_rows link_rows
Step-consumed (raise_step s t r waiting keyed counted e) =
    let (fresh, free, same) = insert_request-some s t r e in
    subst (λ x. consumed s ≤ consumed x) (sym same) (omega arith)
Step-consumed (vote_step s t d r found other role e) =
    subst (λ x. consumed s ≤ consumed x) (sym (insert_decision-some s t d e).1) (omega arith)
Step-consumed (approve_step s now n r found enough) =
    omega (arith, count-decide n now ApprovalStatus.approved s.requests refl)
Step-consumed (reject_step s now n) =
    omega (arith, count-decide n now ApprovalStatus.rejected s.requests refl)
Step-consumed (consume_step s now n amount) = omega (arith, count-spend n now amount s.requests)
Step-consumed (link_step s n old) =
    omega
      (arith, count-update_where is_spent_row (request_is n) (supersede old) s.requests (λ r. refl))
Step-consumed (notify_step s n) = omega arith
Step-consumed (edit_step s rules users roles) = omega arith

pub Reach-consumed : {s t : Store} → Reach s t → consumed s ≤ consumed t
Reach-consumed here = omega arith
Reach-consumed (next r st) = omega (arith, Reach-consumed r, Step-consumed st)
