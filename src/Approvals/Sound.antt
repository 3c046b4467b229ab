-- ===== src/Approvals/Sound.antt =====
-- What the approval tables satisfy between any two statements, and the statements as steps: a
-- handler is a sequence of steps, and handlers that run at once interleave theirs.
use arcus_invest_backend.Base.{
  ℕ, ◌==◌, ◌≡◌, ℤ, pos, ◌≤ℤ◌, Bool, true, false, ◌||◌, Option, none, some, List, [], ◌∷◌, is_id,
  any, All, if◌then◌else◌,
}
use arcus_invest_backend.Base.Text.{Text, text_eq}
use arcus_invest_backend.Approvals.Types.{
  ApprovalStatus, PendingKey, ApprovalRule, ApprovalRequest, ApprovalDecision, User, Notice, Store,
  is_pending, is_approved, is_consumed,
}
use arcus_invest_backend.Approvals.Queries.{
  find_request, insert_request, request_is, votes_on, approved_votes, insert_decision, consume_rows,
  finalise_rows, link_rows, holds_key, notify, pending_key_for,
}

-- The vote is by another than the requester, in the role that the request names.
abbrev pub IsIndependent : ApprovalRequest → ApprovalDecision → Type 0
IsIndependent r d =
    (d.request_id == r.id) ≡ true
    → (is_id r.requester_id d.approver_id ≡ false)
      × (text_eq d.approver_role r.approver_role ≡ true)

-- Enough approving votes stand behind a request that is approved or has been consumed.
abbrev pub IsCleared : List ApprovalDecision → ApprovalRequest → Type 0
IsCleared ds r =
    (is_approved r.status || is_consumed r.status) ≡ true
    → r.required_count ≤ℤ pos (approved_votes r.id ds)

-- Nobody has voted twice on one request.
abbrev pub VotesOnce : List ApprovalDecision → Type 0
VotesOnce [] = Unit
VotesOnce (d ∷ ds) = (any (votes_on d.request_id d.approver_id) ds ≡ false) × VotesOnce ds

abbrev pub DistinctIds : List ApprovalRequest → Type 0
DistinctIds [] = Unit
DistinctIds (r ∷ rs) = (any (request_is r.id) rs ≡ false) × DistinctIds rs

-- A pending request holds the key of its action, entity and requester; no other holds one.
abbrev pub IsKeyed : ApprovalRequest → Type 0
IsKeyed r =
    (is_pending r.status ≡ true
      → (n : ℕ) × (r.requester_id ≡ some n)
        × (r.pending_key ≡ some (pending_key_for r.action r.entity_id n)))
    × (is_pending r.status ≡ false → r.pending_key ≡ none)

abbrev pub key_free : Option PendingKey → List ApprovalRequest → Bool
key_free none rs = true
key_free (some k) rs = if any (holds_key k) rs then false else true

abbrev pub DistinctKeys : List ApprovalRequest → Type 0
DistinctKeys [] = Unit
DistinctKeys (r ∷ rs) = (key_free r.pending_key rs ≡ true) × DistinctKeys rs

pub record IsSound (s : Store) : Type 0 where
  pub distinct : DistinctIds s.requests
  pub filed : All (λ d. any (request_is d.request_id) s.requests ≡ true) s.decisions
  pub independent : All (λ r. All (IsIndependent r) s.decisions) s.requests
  pub cleared : All (IsCleared s.decisions) s.requests
  pub counted : All (λ r. pos 1 ≤ℤ r.required_count) s.requests
  pub once : VotesOnce s.decisions
  pub keyed : All IsKeyed s.requests
  pub one_key : DistinctKeys s.requests

-- The statements that the handlers run, each with what its handler has established by then. What
-- is established about a row cannot change later: the requester, the role and the count of a
-- request are never written again, and votes are never deleted.
pub data Step : Store → Store → Type 0 where
  raise_step :
      (s t : Store) (r : ApprovalRequest)
      → is_pending r.status ≡ true
      → IsKeyed r
      → pos 1 ≤ℤ r.required_count
      → insert_request r s ≡ some t
      → Step s t
  vote_step :
      (s t : Store) (d : ApprovalDecision) (r : ApprovalRequest)
      → find_request d.request_id s ≡ some r
      → is_id r.requester_id d.approver_id ≡ false
      → text_eq d.approver_role r.approver_role ≡ true
      → insert_decision d s ≡ some t
      → Step s t
  approve_step :
      (s : Store) (now n : ℕ) (r : ApprovalRequest)
      → find_request n s ≡ some r
      → r.required_count ≤ℤ pos (approved_votes n s.decisions)
      → Step s (finalise_rows now n ApprovalStatus.approved s)
  reject_step : (s : Store) (now n : ℕ) → Step s (finalise_rows now n ApprovalStatus.rejected s)
  consume_step : (s : Store) (now n : ℕ) (amount : ℤ) → Step s (consume_rows now n amount s)
  link_step : (s : Store) (n old : ℕ) → Step s (link_rows n old s)
  notify_step : (s : Store) (n : Notice) → Step s (notify n s)
  -- rules, users and roles are edited elsewhere, in any way
  edit_step :
      (s : Store) (rules : List ApprovalRule) (users : List User) (roles : List Text)
      → Step s (record s { rules = rules; users = users; roles = roles })

pub data Reach (s : Store) : Store → Type 0 where
  here : Reach s s
  next : {t u : Store} → Reach s t → Step t u → Reach s u

abbrev pub start : Store
start = record { rules = []; requests = []; decisions = []; users = []; roles = []; notices = [] }
