-- ===== src/Approvals/Proofs/Statements.antt =====
-- Inserts and updates of the approval tables.
use mathlib.Core.Path.{subst}
use arcus_invest_backend.Base.{
  ℕ, ◌≡◌, sym, ◌||◌, pos, ◌≤ℤ◌, Bool, true, false, some, List, [], ◌∷◌, arith, is_id, find, any,
  update_where, All, All-map, All-zip, update_where-All,
}
use arcus_invest_backend.Base.Text.{text_eq}
use arcus_invest_backend.Approvals.Types.{
  ApprovalRequest, ApprovalDecision, PendingKey, Store, is_pending, is_approved, is_consumed,
}
use arcus_invest_backend.Approvals.Queries.{
  find_request, insert_request, request_is, votes_on, insert_decision, holds_key,
}
use arcus_invest_backend.Approvals.Sound.{IsSound, IsIndependent, IsCleared, IsKeyed, key_free}
use arcus_invest_backend.Approvals.Proofs.Frame.{
  DistinctIds-update, filed-update, DistinctKeys-update,
}
use arcus_invest_backend.Approvals.Proofs.Votes.{found_unique, vote-IsIndependent, vote-IsCleared}

pending_not_cleared :
    (r : ApprovalRequest)
    → is_pending r.status ≡ true
    → (is_approved r.status || is_consumed r.status) ≡ true
    → ⊥
pending_not_cleared r p c = ground arith

-- A request with a new id has no votes.
filed-IsIndependent :
    (r : ApprovalRequest) (rs : List ApprovalRequest) (ds : List ApprovalDecision)
    → any (request_is r.id) rs ≡ false
    → All (λ d. any (request_is d.request_id) rs ≡ true) ds
    → All (IsIndependent r) ds
filed-IsIndependent r rs ds fresh h = All-map ds (λ d e same. absurd (ground arith)) h

filed_cons :
    (r : ApprovalRequest) (rs : List ApprovalRequest) (ds : List ApprovalDecision)
    → All (λ d. any (request_is d.request_id) rs ≡ true) ds
    → All (λ d. any (request_is d.request_id) (r ∷ rs) ≡ true) ds
filed_cons r rs ds h = All-map ds (λ d e. ground arith) h

pub insert_request-some :
    (s t : Store) (r : ApprovalRequest)
    → insert_request r s ≡ some t
    → (any (request_is r.id) s.requests ≡ false)
      × (key_free r.pending_key s.requests ≡ true)
      × (t ≡ record s { requests = r ∷ s.requests })
unfolding insert_request
insert_request-some s t r e = ground arith

pub raise-IsSound :
    (s t : Store) (r : ApprovalRequest)
    → is_pending r.status ≡ true
    → IsKeyed r
    → pos 1 ≤ℤ r.required_count
    → insert_request r s ≡ some t
    → IsSound s
    → IsSound t
raise-IsSound s t r waiting keyed count e h =
    let (fresh, free, eq) = insert_request-some s t r e in
    subst IsSound (sym eq) (record {
      distinct = (fresh, h.distinct);
      filed = filed_cons r s.requests s.decisions h.filed;
      independent = (filed-IsIndependent r s.requests s.decisions fresh h.filed, h.independent);
      cleared = ((λ c. absurd (pending_not_cleared r waiting c)), h.cleared);
      counted = (count, h.counted);
      once = h.once;
      keyed = (keyed, h.keyed);
      one_key = (free, h.one_key);
    })

pub insert_decision-some :
    (s t : Store) (d : ApprovalDecision)
    → insert_decision d s ≡ some t
    → (any (votes_on d.request_id d.approver_id) s.decisions ≡ false)
      × (t ≡ record s { decisions = d ∷ s.decisions })
unfolding insert_decision
insert_decision-some s t d e = ground arith

pub found_any :
    (n : ℕ) (rs : List ApprovalRequest) {r : ApprovalRequest}
    → find (request_is n) rs ≡ some r
    → any (request_is n) rs ≡ true
found_any n [] e = ground arith
found_any n (q ∷ rs) {r} e = ground (arith, found_any n rs {r = r})

pub vote-IsSound :
    (s t : Store) (d : ApprovalDecision) (r : ApprovalRequest)
    → find_request d.request_id s ≡ some r
    → is_id r.requester_id d.approver_id ≡ false
    → text_eq d.approver_role r.approver_role ≡ true
    → insert_decision d s ≡ some t
    → IsSound s
    → IsSound t
vote-IsSound s t d r found other role e h =
    let (new, eq) = insert_decision-some s t d e in
    let same = found_unique d.request_id s.requests {r = r} h.distinct found in
    let apart = vote-IsIndependent d s.requests r same other role in
    subst IsSound (sym eq) (record {
      distinct = h.distinct;
      filed = (found_any d.request_id s.requests {r = r} found, h.filed);
      independent =
          All-map s.requests (λ q both. both)
            (All-zip (λ q. IsIndependent q d) (λ q. All (IsIndependent q) s.decisions) s.requests
              apart h.independent);
      cleared = vote-IsCleared d s.decisions s.requests h.cleared;
      counted = h.counted;
      once = (new, h.once);
      keyed = h.keyed;
      one_key = h.one_key;
    })

-- An `UPDATE` that leaves alone what identifies a row and what was asked of its approvers.
module _ (p : ApprovalRequest → Bool) (f : ApprovalRequest → ApprovalRequest)
    (same_id : (r : ApprovalRequest) → (f r).id ≡ r.id)
    (same_requester : (r : ApprovalRequest) → (f r).requester_id ≡ r.requester_id)
    (same_role : (r : ApprovalRequest) → (f r).approver_role ≡ r.approver_role)
    (same_count : (r : ApprovalRequest) → (f r).required_count ≡ r.required_count)
    (holds : (r : ApprovalRequest) (k : PendingKey)
      → holds_key k (f r) ≡ true
      → holds_key k r ≡ true)
    (keeps : (r : ApprovalRequest) (k : PendingKey)
      → (f r).pending_key ≡ some k
      → r.pending_key ≡ some k)
    (keys : (r : ApprovalRequest) → p r ≡ true → IsKeyed r → IsKeyed (f r)) where
  pub update-IsSound :
      (s : Store)
      → All (IsCleared s.decisions) (update_where p f s.requests)
      → IsSound s
      → IsSound (record s { requests = update_where p f s.requests })
  update-IsSound s clear h = record {
    distinct = DistinctIds-update p f same_id s.requests h.distinct;
    filed = filed-update p f same_id s.requests s.decisions h.filed;
    independent =
        update_where-All (λ r. All (IsIndependent r) s.decisions) p f s.requests
          (λ r e ds.
            All-map s.decisions
              (λ d i same. rw (same_requester r, same_role r) (i (rw (same_id r) at same))) ds)
          h.independent;
    cleared = clear;
    counted =
        update_where-All (λ r. pos 1 ≤ℤ r.required_count) p f s.requests
          (λ r e c. rw (same_count r) c) h.counted;
    once = h.once;
    keyed = update_where-All IsKeyed p f s.requests keys h.keyed;
    one_key = DistinctKeys-update p f holds keeps s.requests h.one_key;
  }
