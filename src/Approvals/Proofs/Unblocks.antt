-- ===== src/Approvals/Proofs/Unblocks.antt =====
-- The whole round: the last approval that a request needs lets its requester pass the gate.
use mathlib.Core.Path.{subst}
use arcus_invest_backend.Base.{
  ℕ, ◌+◌, ◌≡◌, refl, ◌∙◌, ap, ℤ, pos, ◌≤ℤ◌, Bool, true, false, some, ◌∷◌, arith, find, any,
  if◌then◌else◌, find-update_where, ==_refl,
}
use arcus_invest_backend.Base.Text.{Text}
use arcus_invest_backend.Approvals.Types.{
  ApprovalStatus, DecisionValue, ApprovalRule, ApprovalRequest, User, Notice, Store, Caller, user,
  is_pending,
}
use arcus_invest_backend.Approvals.Queries.{
  match_rule, votes_on, approved_votes, insert_decision, is_open_for, finalise_rows, undecided,
  decide, notify,
}
use arcus_invest_backend.Approvals.Gate.{Ask, proceed, gate}
use arcus_invest_backend.Approvals.Desk.{
  pass, open_case, new_decision, record_decision, settle, close_approved, approve_row,
  admin_approve_request,
}
use arcus_invest_backend.Approvals.Sound.{IsSound}
use arcus_invest_backend.Approvals.Proofs.Invariant.{Reach-IsSound}
use arcus_invest_backend.Approvals.Proofs.DeskSteps.{approve-Reach}
use arcus_invest_backend.Approvals.Proofs.Eligible.{Eligible}
use arcus_invest_backend.Approvals.Proofs.GateLaws.{gate_approved_proceeds}

Eligible-case :
    (who : Caller) (s : Store) (row : ApprovalRequest) (me : User)
    → Eligible who row me s
    → open_case (λ _. false) (some row.id) who s ≡ pass (row, me)
unfolding open_case
Eligible-case who s row me el = ground (arith, el.known, el.found, el.waiting, el.other, el.role)

-- The store once the vote is in and the request is approved.
abbrev voted : ApprovalRequest → User → Text → Store → Store
voted r me reason s = record s {
  decisions = new_decision r me DecisionValue.approved reason ∷ s.decisions;
}

abbrev decided : ℕ → ApprovalRequest → User → Text → Store → Store
decided now r me reason s =
    notify (Notice.approval_decided r.id DecisionValue.approved reason me.full_name)
      (finalise_rows now r.id ApprovalStatus.approved (voted r me reason s))

records :
    (r : ApprovalRequest) (me : User) (reason : Text) (s : Store)
    → any (votes_on r.id me.id) s.decisions ≡ false
    → record_decision (λ _. false) r me DecisionValue.approved reason s ≡ some (voted r me reason s)
unfolding record_decision insert_decision
records r me reason s new = ground arith

settles :
    (now : ℕ) (r : ApprovalRequest) (me : User) (reason : Text) (s : Store)
    → r.required_count ≤ℤ pos (1 + approved_votes r.id s.decisions)
    → (settle (λ _. false) now r me reason (voted r me reason s)).1 ≡ decided now r me reason s
unfolding settle close_approved
settles now r me reason s enough = ground (arith, ==_refl r.id)

approves_store :
    (now : ℕ) (who : Caller) (reason : Text) (s : Store) (row : ApprovalRequest) (me : User)
    → Eligible who row me s
    → any (votes_on row.id me.id) s.decisions ≡ false
    → row.required_count ≤ℤ pos (1 + approved_votes row.id s.decisions)
    → (admin_approve_request (λ _. false) now (some row.id) who reason s).1
      ≡ decided now row me reason s
unfolding admin_approve_request approve_row
approves_store now who reason s row me el new enough =
    rw (Eligible-case who s row me el, admin_approve_request)
      (rw (records row me reason s new, approve_row) (settles now row me reason s enough))

decide_open :
    (now n : ℕ) (action : Text) (entity : ℕ) (who : Caller) (q : ApprovalRequest)
    → undecided n q ≡ true
    → is_open_for action entity who (decide now ApprovalStatus.approved q)
      ≡ is_open_for action entity who q
decide_open now n action entity (user m) q h = ground arith
decide_open now n action entity Caller.anonymous q h = ground arith
decide_open now n action entity Caller.garbled q h = ground arith

decided_open :
    (now n : ℕ) (reason : Text) (row : ApprovalRequest) (me : User) (s : Store)
    → is_pending row.status ≡ true
    → find (is_open_for row.action row.entity_id (user n)) s.requests ≡ some row
    → find (is_open_for row.action row.entity_id (user n)) (decided now row me reason s).requests
      ≡ some (decide now ApprovalStatus.approved row)
unfolding finalise_rows
decided_open now n reason row me s waiting open_row =
    find-update_where (is_open_for row.action row.entity_id (user n)) (undecided row.id)
      (decide now ApprovalStatus.approved) s.requests {x = row}
      (decide_open now row.id row.action row.entity_id (user n)) open_row
    ∙ ap some (chosen (undecided row.id row) (ground (arith, ==_refl row.id)))
  where
    chosen :
        (b : Bool)
        → b ≡ true
        → (if b then decide now ApprovalStatus.approved row else row)
          ≡ decide now ApprovalStatus.approved row
    chosen b e = rw e

-- In sound tables and where the database answers: once an eligible approver, who has not voted on
-- it, gives the last approval that a waiting request needs, the requester whose newest live
-- request for its action on its entity it is passes the gate for any amount up to the one
-- approved, while a rule covers it.
pub approval_unblocks :
    (now later id n : ℕ) (who : Caller) (reason : Text) (amount : ℤ) (summary : Text)
    (rule : ApprovalRule) (row : ApprovalRequest) (me : User) (s : Store)
    → IsSound s
    → Eligible who row me s
    → any (votes_on row.id me.id) s.decisions ≡ false
    → row.required_count ≤ℤ pos (1 + approved_votes row.id s.decisions)
    → find (is_open_for row.action row.entity_id (user n)) s.requests ≡ some row
    → match_rule row.action amount s.rules ≡ some rule
    → amount ≤ℤ row.amount
    → let t = (admin_approve_request (λ _. false) now (some row.id) who reason s).1 in
      let ask : Ask = record {
        action = row.action;
        entity_type = row.entity_type;
        entity_id = row.entity_id;
        amount = amount;
        summary = summary;
      } in
      (gate (λ _. false) later id ask (user n) t).0 ≡ proceed
unfolding finalise_rows
approval_unblocks now later id n who reason amount summary rule row me s h el new enough open_row m
      le =
    let stored = approves_store now who reason s row me el new enough in
    let sound =
      subst IsSound stored
        (Reach-IsSound h (approve-Reach (λ _. false) now (some row.id) who reason s)) in
    rw stored (
      ap (λ v. v.0)
        (gate_approved_proceeds later id n rule
          (record {
            action = row.action;
            entity_type = row.entity_type;
            entity_id = row.entity_id;
            amount = amount;
            summary = summary;
          })
          (decided now row me reason s) {r = decide now ApprovalStatus.approved row} sound m
          (decided_open now n reason row me s el.waiting open_row) refl le))
