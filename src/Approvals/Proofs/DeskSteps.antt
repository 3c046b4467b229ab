-- ===== src/Approvals/Proofs/DeskSteps.antt =====
-- The approve, reject and resubmit handlers run sequences of the statements that `Step` lists.
use arcus_invest_backend.Base.{
  ℕ, ◌≡◌, refl, pos, ◌≤ℤ◌, leb_ℤ, Option, none, some, [], ◌∷◌, arith, inl, inr, ◌∙◌, Bool-cases,
  Option-cases, leb→le,
}
use arcus_invest_backend.Base.Text.{Text, trim_space}
use arcus_invest_backend.Approvals.Types.{
  ApprovalStatus, DecisionValue, ApprovalRequest, User, Store, Statement, Faults, Caller, user,
}
use arcus_invest_backend.Approvals.Queries.{
  match_rule, find_request, approved_votes, insert_decision, finalise_rows,
}
use arcus_invest_backend.Approvals.Gate.{raise}
use arcus_invest_backend.Approvals.Desk.{
  Check, pass, stop, open_case, new_decision, record_decision, settle, close_approved, approve_row,
  admin_approve_request, close_rejected, reject_row, reject_with_reason, admin_reject_request,
  open_rejected, link, resubmit_row, admin_resubmit_request, ask_again,
}
use arcus_invest_backend.Approvals.Sound.{
  Reach, vote_step, approve_step, reject_step, link_step, notify_step, here, next,
}
use arcus_invest_backend.Approvals.Proofs.Eligible.{Eligible, open_case-pass}
use arcus_invest_backend.Approvals.Proofs.Statements.{insert_decision-some}
use arcus_invest_backend.Approvals.Proofs.GateSteps.{raise-Reach, Reach-trans}

pub record_decision-some :
    (down : Faults) (r : ApprovalRequest) (me : User) (v : DecisionValue) (reason : Text)
    (s t : Store)
    → record_decision down r me v reason s ≡ some t
    → insert_decision (new_decision r me v reason) s ≡ some t
unfolding record_decision
record_decision-some down r me v reason s t h = ground arith

record_decision-Reach :
    (down : Faults) (who : Caller) (r : ApprovalRequest) (me : User) (v : DecisionValue)
    (reason : Text) (s t : Store)
    → Eligible who r me s
    → record_decision down r me v reason s ≡ some t
    → Reach s t
record_decision-Reach down who r me v reason s t el h = next here (
    vote_step s t (new_decision r me v reason) r el.found el.other el.role
      (record_decision-some down r me v reason s t h))

-- A vote leaves the requests as they are.
record_decision_requests :
    (down : Faults) (r : ApprovalRequest) (me : User) (v : DecisionValue) (reason : Text)
    (s t : Store)
    → record_decision down r me v reason s ≡ some t
    → find_request r.id t ≡ find_request r.id s
record_decision_requests down r me v reason s t h =
    rw (insert_decision-some s t _ (record_decision-some down r me v reason s t h)).1

close_approved-Reach :
    (down : Faults) (now : ℕ) (r : ApprovalRequest) (me : User) (reason : Text) (s : Store)
    → find_request r.id s ≡ some r
    → r.required_count ≤ℤ pos (approved_votes r.id s.decisions)
    → Reach s (close_approved down now r me reason s).1
unfolding close_approved
close_approved-Reach down now r me reason s found enough =
    elim (Bool-cases (down Statement.finalise_request)) [
      | inl e ↦ rw e here
      | inr e ↦ rw e (
          next (next here (approve_step s now r.id r found enough))
            (notify_step (finalise_rows now r.id ApprovalStatus.approved s) _))
    ]

settle-Reach :
    (down : Faults) (now : ℕ) (r : ApprovalRequest) (me : User) (reason : Text) (s : Store)
    → find_request r.id s ≡ some r
    → Reach s (settle down now r me reason s).1
unfolding settle
settle-Reach down now r me reason s found =
    elim (Bool-cases (leb_ℤ r.required_count (pos (approved_votes r.id s.decisions)))) [
      | inl e ↦ rw e (close_approved-Reach down now r me reason s found (leb→le _ _ e))
      | inr e ↦ rw e here
    ]

close_rejected-Reach :
    (down : Faults) (now : ℕ) (r : ApprovalRequest) (me : User) (reason : Text) (s : Store)
    → Reach s (close_rejected down now r me reason s).1
unfolding close_rejected
close_rejected-Reach down now r me reason s = elim (Bool-cases (down Statement.finalise_request)) [
  | inl e ↦ rw e here
  | inr e ↦ rw e (
      next (next here (reject_step s now r.id))
        (notify_step (finalise_rows now r.id ApprovalStatus.rejected s) _))
]

approve_row-Reach :
    (down : Faults) (now : ℕ) (who : Caller) (r : ApprovalRequest) (me : User) (reason : Text)
    (s : Store)
    → Eligible who r me s
    → Reach s (approve_row down now r me reason s).1
unfolding approve_row
approve_row-Reach down now who r me reason s el =
    elim (Option-cases (record_decision down r me DecisionValue.approved reason s)) [
      | inl e ↦ rw (e, approve_row) here
      | inr (t, e) ↦
          rw (e, approve_row)
            (Reach-trans
              (record_decision-Reach down who r me DecisionValue.approved reason s t el e)
              (settle-Reach down now r me reason t (
                record_decision_requests down r me DecisionValue.approved reason s t e ∙ el.found)))
    ]

reject_row-Reach :
    (down : Faults) (now : ℕ) (who : Caller) (r : ApprovalRequest) (me : User) (reason : Text)
    (s : Store)
    → Eligible who r me s
    → Reach s (reject_row down now r me reason s).1
unfolding reject_row
reject_row-Reach down now who r me reason s el =
    elim (Option-cases (record_decision down r me DecisionValue.rejected reason s)) [
      | inl e ↦ rw (e, reject_row) here
      | inr (t, e) ↦
          rw (e, reject_row)
            (Reach-trans
              (record_decision-Reach down who r me DecisionValue.rejected reason s t el e)
              (close_rejected-Reach down now r me reason t))
    ]

pub approve-Reach :
    (down : Faults) (now : ℕ) (path : Option ℕ) (who : Caller) (reason : Text) (s : Store)
    → Reach s (admin_approve_request down now path who reason s).1
unfolding admin_approve_request
approve-Reach down now path who reason s = go (open_case down path who s) refl
  where
    go :
        (c : Check (ApprovalRequest × User))
        → open_case down path who s ≡ c
        → Reach s (admin_approve_request down now path who reason s).1
    go (stop r) e = rw (e, admin_approve_request) here
    go (pass (row, me)) e =
        rw (e, admin_approve_request)
          (approve_row-Reach down now who row me reason s (open_case-pass down path who s e))

reject_with_reason-Reach :
    (down : Faults) (now : ℕ) (who : Caller) (r : ApprovalRequest) (me : User) (reason : Text)
    (s : Store)
    → Eligible who r me s
    → Reach s (reject_with_reason down now r me reason s).1
reject_with_reason-Reach down now who r me [] s el = here
reject_with_reason-Reach down now who r me (c ∷ cs) s el =
    reject_row-Reach down now who r me (c ∷ cs) s el

pub reject-Reach :
    (down : Faults) (now : ℕ) (path : Option ℕ) (who : Caller) (body : Option Text) (s : Store)
    → Reach s (admin_reject_request down now path who body s).1
unfolding admin_reject_request
reject-Reach down now path who body s = go (open_case down path who s) body refl
  where
    go :
        (c : Check (ApprovalRequest × User)) (b : Option Text)
        → open_case down path who s ≡ c
        → Reach s (admin_reject_request down now path who b s).1
    go (stop r) b e = rw (e, admin_reject_request) here
    go (pass (row, me)) none e = rw (e, admin_reject_request) here
    go (pass (row, me)) (some reason) e =
        rw (e, admin_reject_request)
          (reject_with_reason-Reach down now who row me (trim_space reason) s
            (open_case-pass down path who s e))

link-Reach :
    (down : Faults) (prev : ApprovalRequest) (s : Store) (m : Option ApprovalRequest × Store)
    → Reach s m.1
    → Reach s (link down prev m).1
unfolding link
link-Reach down prev s (none, t) r = r
link-Reach down prev s (some q, t) r = elim (Bool-cases (down Statement.link_request)) [
  | inl e ↦ rw e r
  | inr e ↦ rw e (next r (link_step t q.id prev.id))
]

resubmit_row-Reach :
    (down : Faults) (id : ℕ) (prev : ApprovalRequest) (me : User) (summary : Text) (s : Store)
    → Reach s (resubmit_row down id prev me summary s).1
unfolding resubmit_row
resubmit_row-Reach down id prev me summary s = elim (Bool-cases (down Statement.find_rule)) [
  | inl e ↦ rw e here
  | inr e ↦ elim (Option-cases (match_rule prev.action prev.amount s.rules)) [
    | inl n ↦ rw (e, n) here
    | inr (rule, m) ↦
        rw (e, m)
          (link-Reach down prev s (raise down id rule (ask_again prev summary) (user me.id) s)
            (raise-Reach down id rule (ask_again prev summary) (user me.id) s))
  ]
]

pub resubmit-Reach :
    (down : Faults) (id : ℕ) (path : Option ℕ) (who : Caller) (summary : Text) (s : Store)
    → Reach s (admin_resubmit_request down id path who summary s).1
unfolding admin_resubmit_request
resubmit-Reach down id path who summary s = go (open_rejected down path who s) refl
  where
    go :
        (c : Check (ApprovalRequest × User))
        → open_rejected down path who s ≡ c
        → Reach s (admin_resubmit_request down id path who summary s).1
    go (stop r) e = rw (e, admin_resubmit_request) here
    go (pass (prev, me)) e =
        rw (e, admin_resubmit_request) (resubmit_row-Reach down id prev me (trim_space summary) s)
