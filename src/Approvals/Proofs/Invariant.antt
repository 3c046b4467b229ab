-- ===== src/Approvals/Proofs/Invariant.antt =====
-- The approval tables under every statement of the handlers.
use arcus_invest_backend.Base.{
  ℕ, ◌==◌, ◌≡◌, refl, ℤ, pos, ◌≤ℤ◌, true, false, Option, none, some, arith, All, All-map,
  update_where-All, update_where-All_with,
}
use arcus_invest_backend.Approvals.Types.{
  ApprovalStatus, ApprovalRequest, Store, PendingKey, is_pending,
}
use arcus_invest_backend.Approvals.Queries.{
  find_request, request_is, approved_votes, consumable, spend, consume_rows, undecided, decide,
  finalise_rows, supersede, link_rows,
}
use arcus_invest_backend.Approvals.Sound.{
  IsSound, IsCleared, Step, Reach, raise_step, vote_step, approve_step, reject_step, consume_step,
  link_step, notify_step, edit_step, here, next, start,
}
use arcus_invest_backend.Approvals.Proofs.Votes.{found_unique}
use arcus_invest_backend.Approvals.Proofs.Statements.{raise-IsSound, vote-IsSound, update-IsSound}

consume-IsSound :
    (s : Store) (now n : ℕ) (amount : ℤ) → IsSound s → IsSound (consume_rows now n amount s)
unfolding consume_rows
consume-IsSound s now n amount h =
    update-IsSound (consumable n amount) (spend now) (λ r. refl) (λ r. refl) (λ r. refl) (λ r. refl)
      (λ r k e. e) (λ r k e. e) (λ r e k. ground (arith, k.1)) s
      (update_where-All (IsCleared s.decisions) (consumable n amount) (spend now) s.requests
        (λ r e c m. c (ground arith)) h.cleared)
      h

link-IsSound : (s : Store) (n old : ℕ) → IsSound s → IsSound (link_rows n old s)
unfolding link_rows
link-IsSound s n old h =
    update-IsSound (request_is n) (supersede old) (λ r. refl) (λ r. refl) (λ r. refl) (λ r. refl)
      (λ r k e. e) (λ r k e. e) (λ r e k. k) s
      (update_where-All (IsCleared s.decisions) (request_is n) (supersede old) s.requests
        (λ r e c. c) h.cleared)
      h

cleared_no_key : (k : PendingKey) → ◌≡◌ {A = Option PendingKey} none (some k) → ⊥
cleared_no_key k e = ground arith

abbrev MayDecide : ℕ → ℕ → ApprovalStatus → Store → ApprovalRequest → Type 0
MayDecide now n st s r = (n == r.id) ≡ true → IsCleared s.decisions (decide now st r)

-- Deciding a pending request clears its key, and asks only that its votes suffice.
finalise-IsSound :
    (s : Store) (now n : ℕ) (st : ApprovalStatus)
    → is_pending st ≡ false
    → All (MayDecide now n st s) s.requests
    → IsSound s
    → IsSound (finalise_rows now n st s)
unfolding finalise_rows
finalise-IsSound s now n st decided enough h =
    update-IsSound (undecided n) (decide now st) (λ r. refl) (λ r. refl) (λ r. refl) (λ r. refl)
      (λ r k e. ground arith) (λ r k e. absurd (cleared_no_key k e))
      (λ r e k. ((λ p. absurd (ground arith)), λ p. refl)) s
      (update_where-All_with (IsCleared s.decisions) (MayDecide now n st s) (undecided n)
        (decide now st) s.requests (λ r e may c. may (ground arith)) enough h.cleared)
      h

id_of : (n : ℕ) (q : ApprovalRequest) → (n == q.id) ≡ true → n ≡ q.id
id_of n q e = ground arith

approve-IsSound :
    (s : Store) (now n : ℕ) (r : ApprovalRequest)
    → find_request n s ≡ some r
    → r.required_count ≤ℤ pos (approved_votes n s.decisions)
    → IsSound s
    → IsSound (finalise_rows now n ApprovalStatus.approved s)
approve-IsSound s now n r found enough h =
    finalise-IsSound s now n ApprovalStatus.approved refl
      (All-map s.requests (λ q same e c. rw (same e, ← id_of n r (rw (same e) at e)) enough)
        (found_unique n s.requests {r = r} h.distinct found))
      h

reject-IsSound :
    (s : Store) (now n : ℕ) → IsSound s → IsSound (finalise_rows now n ApprovalStatus.rejected s)
reject-IsSound s now n h =
    finalise-IsSound s now n ApprovalStatus.rejected refl
      (All-map s.requests (λ q c e no. absurd (ground arith)) h.cleared) h

pub Step-IsSound : {s t : Store} → Step s t → IsSound s → IsSound t
Step-IsSound (raise_step s t r waiting keyed count e) h =
    raise-IsSound s t r waiting keyed count e h
Step-IsSound (vote_step s t d r found other role e) h = vote-IsSound s t d r found other role e h
Step-IsSound (approve_step s now n r found enough) h = approve-IsSound s now n r found enough h
Step-IsSound (reject_step s now n) h = reject-IsSound s now n h
Step-IsSound (consume_step s now n amount) h = consume-IsSound s now n amount h
Step-IsSound (link_step s n old) h = link-IsSound s n old h
Step-IsSound (notify_step s n) h = record {
  distinct = h.distinct;
  filed = h.filed;
  independent = h.independent;
  cleared = h.cleared;
  counted = h.counted;
  once = h.once;
  keyed = h.keyed;
  one_key = h.one_key;
}
Step-IsSound (edit_step s rules users roles) h = record {
  distinct = h.distinct;
  filed = h.filed;
  independent = h.independent;
  cleared = h.cleared;
  counted = h.counted;
  once = h.once;
  keyed = h.keyed;
  one_key = h.one_key;
}

pub start-IsSound : IsSound start
start-IsSound = ground arith

pub Reach-IsSound : {s t : Store} → IsSound s → Reach s t → IsSound t
Reach-IsSound h here = h
Reach-IsSound h (next r st) = Step-IsSound st (Reach-IsSound h r)
