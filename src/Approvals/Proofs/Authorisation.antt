-- ===== src/Approvals/Proofs/Authorisation.antt =====
-- Votes and keys behind the requests, how many requests can be open, and how often an approval can
-- be spent: for every interleaving of the handlers' statements.
use arcus_invest_backend.Base.{
  ℕ, ◌+◌, ◌≤◌, ◌==◌, ◌≡◌, ◌≢◌, refl, ap, ℤ, pos, ◌≤ℤ◌, Bool, true, false, ◌&&◌, ◌||◌, Option, none,
  some, List, [], ◌∷◌, arith, inl, inr, is_id, any, count, All, find-All, Bool-cases, if◌then◌else◌,
}
use arcus_invest_backend.Base.Text.{Text, text_eq, text_eq_sound}
use arcus_invest_backend.Approvals.Types.{
  ApprovalRequest, ApprovalDecision, PendingKey, Store, Faults, is_pending, is_approved,
  is_consumed,
}
use arcus_invest_backend.Approvals.Queries.{
  find_request, request_is, approved_votes, holds_key, key_eq, pending_key_for,
}
use arcus_invest_backend.Approvals.Gate.{consume}
use arcus_invest_backend.Approvals.Sound.{
  IsIndependent, IsCleared, IsKeyed, VotesOnce, DistinctKeys, key_free, Reach, start,
}
use arcus_invest_backend.Approvals.Proofs.Invariant.{Reach-IsSound, start-IsSound}
use arcus_invest_backend.Approvals.Proofs.GateSteps.{consume-Reach}
use arcus_invest_backend.Approvals.Proofs.Spent.{consume-IsSpent, spent-consume, Reach-IsSpent}

-- A vote on the request by its requester, or in another role than it names.
abbrev pub is_tainted : ApprovalRequest → ApprovalDecision → Bool
is_tainted r d =
    (d.request_id == r.id)
    && (is_id r.requester_id d.approver_id
        || (if text_eq d.approver_role r.approver_role then false else true))

untainted :
    (r : ApprovalRequest) (ds : List ApprovalDecision)
    → All (IsIndependent r) ds
    → any (is_tainted r) ds ≡ false
untainted r [] h = refl
untainted r (d ∷ ds) h = ground (arith, h.0, untainted r ds h.1)

-- At least one approval, as many as asked for, no two by one person, none by the requester, and
-- all votes in the role that the request names.
pub record Authorised (s : Store) (r : ApprovalRequest) : Type 0 where
  pub some_approval : pos 1 ≤ℤ r.required_count
  pub enough : r.required_count ≤ℤ pos (approved_votes r.id s.decisions)
  pub independent : any (is_tainted r) s.decisions ≡ false
  pub once : VotesOnce s.decisions

-- `Authorised`, for tables that the statements reach.
pub Reach-Authorised :
    (s : Store) (n : ℕ) {r : ApprovalRequest}
    → Reach start s
    → find_request n s ≡ some r
    → (is_approved r.status || is_consumed r.status) ≡ true
    → Authorised s r
Reach-Authorised s n {r} reach found clear =
    let h = Reach-IsSound start-IsSound reach in
    record {
      some_approval =
          find-All (λ q. pos 1 ≤ℤ q.required_count) (request_is n) s.requests found h.counted;
      enough = find-All (IsCleared s.decisions) (request_is n) s.requests found h.cleared clear;
      independent = untainted r s.decisions (
          find-All (λ q. All (IsIndependent q) s.decisions) (request_is n) s.requests found
            h.independent);
      once = h.once;
    }

key_eq_sound : (j k : PendingKey) → key_eq j k ≡ true → j ≡ k
key_eq_sound j k h = ground (arith, text_eq_sound j.action k.action)

absent_key :
    (k : PendingKey) (rs : List ApprovalRequest)
    → any (holds_key k) rs ≡ false
    → count (holds_key k) rs ≡ 0
absent_key k [] h = refl
absent_key k (r ∷ rs) h = ground (arith, absent_key k rs)

held_key : (k : PendingKey) (r : ApprovalRequest) → holds_key k r ≡ true → r.pending_key ≡ some k
held_key k r h = go r.pending_key refl
  where
    go : (o : Option PendingKey) → r.pending_key ≡ o → r.pending_key ≡ some k
    go none e = absurd (ground arith)
    go (some j) e = rw e (ap some (key_eq_sound j k (ground arith)))

key_taken :
    (k : PendingKey) (r : ApprovalRequest) (rs : List ApprovalRequest)
    → holds_key k r ≡ true
    → key_free r.pending_key rs ≡ true
    → any (holds_key k) rs ≡ false
key_taken k r rs e free = free_of (rw (held_key k r e) at free)
  where
    free_of : key_free (some k) rs ≡ true → any (holds_key k) rs ≡ false
    free_of h = ground arith

one_more :
    (k : PendingKey) (r : ApprovalRequest) (rs : List ApprovalRequest)
    → holds_key k r ≡ true
    → count (holds_key k) (r ∷ rs) ≡ 1 + count (holds_key k) rs
one_more k r rs e = rw e

count_keys :
    (k : PendingKey) (rs : List ApprovalRequest) → DistinctKeys rs → count (holds_key k) rs ≤ 1
count_keys k [] h = omega arith
count_keys k (r ∷ rs) h = elim (Bool-cases (holds_key k r)) [
  | inl e ↦ omega (arith, one_more k r rs e, absent_key k rs (key_taken k r rs e h.0))
  | inr e ↦ ground (arith, count_keys k rs h.1)
]

-- A request that waits for a decision on the action on the entity, raised by the user.
abbrev pub is_open_request : Text → ℕ → ℕ → ApprovalRequest → Bool
is_open_request action entity requester r =
    is_pending r.status
    && (text_eq r.action action && ((r.entity_id == entity) && is_id r.requester_id requester))

open_holds :
    (action : Text) (entity requester : ℕ) (r : ApprovalRequest)
    → IsKeyed r
    → is_open_request action entity requester r ≡ true
    → holds_key (pending_key_for action entity requester) r ≡ true
open_holds action entity requester r keyed h =
    let (n, q, p) = keyed.0 (waiting h) in rw p (ground arith)
  where
    waiting : is_open_request action entity requester r ≡ true → is_pending r.status ≡ true
    waiting w = ground arith

open-le-keys :
    (action : Text) (entity requester : ℕ) (rs : List ApprovalRequest)
    → All IsKeyed rs
    → count (is_open_request action entity requester) rs
      ≤ count (holds_key (pending_key_for action entity requester)) rs
open-le-keys action entity requester [] h = omega arith
open-le-keys action entity requester (r ∷ rs) h =
    ground
      (arith, open_holds action entity requester r h.0, open-le-keys action entity requester rs h.1)

-- However the statements of the handlers interleave, starting from empty tables, at most one
-- request for an action on an entity by a user is waiting for a decision.
pub one_open_request :
    (action : Text) (entity requester : ℕ) (s : Store)
    → Reach start s
    → count (is_open_request action entity requester) s.requests ≤ 1
one_open_request action entity requester s reach =
    let h = Reach-IsSound start-IsSound reach in
    omega (
      arith,
      open-le-keys action entity requester s.requests h.keyed,
      count_keys (pending_key_for action entity requester) s.requests h.one_key,
    )

-- An approval is spent once: in tables that the statements of the handlers reach from empty ones,
-- after a `consume` of a request as it is stored has succeeded, no `consume` of it succeeds, for
-- whatever amount, after any further statements of any handlers. The approval covers the amount
-- that was spent on it.
pub consume_once :
    (down down' : Faults) (now now' : ℕ) (r : ApprovalRequest) (amount amount' : ℤ) (s t : Store)
    → Reach start s
    → find_request r.id s ≡ some r
    → (consume down now r amount s).0 ≡ some true
    → Reach (consume down now r amount s).1 t
    → (amount ≤ℤ r.amount) × ((consume down' now' r amount' t).0 ≢ some true)
consume_once down down' now now' r amount amount' s t before found done after =
    let h = Reach-IsSound start-IsSound before in
    let (spent, covered) = consume-IsSpent down now r amount s h found done in
    let h' = Reach-IsSound h (consume-Reach down now r amount s) in
    (
      covered,
      spent-consume down' now' r amount' t (Reach-IsSound h' after)
          (Reach-IsSpent r.id after spent),
    )
