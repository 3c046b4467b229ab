-- ===== src/Approvals/Desk.antt =====
-- The handlers that decide requests (internal/handlers/approvals.go): approve, reject, resubmit,
-- with the checks that each makes, in the order of the source.
use arcus_invest_backend.Base.{
  ℕ, pos, leb_ℤ, Bool, true, false, Option, none, some, is_id, if◌then◌else◌,
}
use arcus_invest_backend.Base.Text.{Text, text_eq, is_empty, trim_space}
use arcus_invest_backend.Approvals.Types.{
  ApprovalStatus, DecisionValue, ApprovalRequest, ApprovalDecision, User, Notice, Store, Statement,
  Faults, Caller, user, is_pending, is_rejected,
}
use arcus_invest_backend.Approvals.Queries.{
  match_rule, find_request, finalise_rows, link_rows, approved_votes, insert_decision, find_user,
  notify, supersede,
}
use arcus_invest_backend.Approvals.Gate.{Ask, raise}

-- The responses of the handlers. `shown` and `created` carry the request in their body.
pub data Reply : Type 0 where
  invalid_id invalid_body no_reason unidentified not_found : Reply
  already_decided own_request wrong_role already_voted : Reply
  not_requester not_rejected not_required already_open internal_error : Reply
  shown created : ApprovalRequest → Reply

abbrev pub status_code : Reply → ℕ
status_code invalid_id = 400
status_code invalid_body = 400
status_code no_reason = 400
status_code unidentified = 401
status_code own_request = 403
status_code wrong_role = 403
status_code not_requester = 403
status_code not_found = 404
status_code already_decided = 409
status_code already_voted = 409
status_code not_rejected = 409
status_code not_required = 409
status_code already_open = 409
status_code internal_error = 500
status_code (shown r) = 200
status_code (created r) = 201

-- A chain of checks: the first that fails answers the request.
pub data Check (A : Type 0) : Type 0 where
  pass : A → Check A
  stop : Reply → Check A

infixl 5 ◌>>=◌ ◌>>◌
abbrev pub ◌>>=◌ : {A B : Type 0} → Check A → (A → Check B) → Check B
pass a >>= f = f a
stop r >>= f = stop r

abbrev pub ◌>>◌ : {B : Type 0} → Check (Unit {0}) → Check B → Check B
m >> k = m >>= λ _. k

abbrev pub or_stop : {A : Type 0} → Option A → Reply → Check A
or_stop none r = stop r
or_stop (some a) r = pass a

abbrev pub unless : Bool → Reply → Check (Unit {0})
unless true r = stop r
unless false r = pass tt

-- `eligibleToDecide`
unfoldable pub eligible_to_decide : ApprovalRequest → User → Check (Unit {0})
eligible_to_decide r me = do
  unless (if is_pending r.status then false else true) already_decided
  unless (is_id r.requester_id me.id) own_request
  unless (if text_eq me.role r.approver_role then false else true) wrong_role

abbrev pub caller : Faults → Caller → Store → Option User
caller down who s = if down Statement.find_user then none else find_user who s

abbrev pub load : Faults → ℕ → Store → Option ApprovalRequest
load down n s = if down Statement.find_request then none else find_request n s

-- What approve and reject do before they read their body: the row, and the user who decides it.
unfoldable pub open_case : Faults → Option ℕ → Caller → Store → Check (ApprovalRequest × User)
unfolding eligible_to_decide
open_case down path who s = do
  n ← or_stop path invalid_id
  me ← or_stop (caller down who s) unidentified
  row ← or_stop (load down n s) not_found
  eligible_to_decide row me
  pass (row, me)

abbrev pub new_decision : ApprovalRequest → User → DecisionValue → Text → ApprovalDecision
new_decision r me v reason = record {
  request_id = r.id;
  approver_id = me.id;
  approver_name = me.full_name;
  approver_role = me.role;
  decision = v;
  reason = reason;
}

-- `recordDecision`; `none` is an error, of which the duplicate vote is one.
unfoldable pub record_decision :
    Faults → ApprovalRequest → User → DecisionValue → Text → Store → Option Store
record_decision down r me v reason s =
    if down Statement.create_decision then none else insert_decision (new_decision r me v reason) s

-- The row as it stands now, which the handlers load again before they answer.
abbrev pub reload : ApprovalRequest → Store → ApprovalRequest
reload r s = elim (find_request r.id s) [ none ↦ r | some q ↦ q ]

unfoldable pub close_approved : Faults → ℕ → ApprovalRequest → User → Text → Store → Reply × Store
close_approved down now r me reason s =
    if down Statement.finalise_request
    then (internal_error, s)
    else let t = finalise_rows now r.id ApprovalStatus.approved s in
      (
        shown (reload r t),
        notify (Notice.approval_decided r.id DecisionValue.approved reason me.full_name) t,
      )

-- Once enough have approved, the request is approved. The error of the count is not looked at in
-- the source, and a count that fails is not modelled.
unfoldable pub settle : Faults → ℕ → ApprovalRequest → User → Text → Store → Reply × Store
settle down now r me reason s =
    if leb_ℤ r.required_count (pos (approved_votes r.id s.decisions))
    then close_approved down now r me reason s
    else (shown (reload r s), s)

unfoldable pub approve_row : Faults → ℕ → ApprovalRequest → User → Text → Store → Reply × Store
approve_row down now r me reason s =
    elim (record_decision down r me DecisionValue.approved reason s) [
      | none ↦ (already_voted, s)
      | some t ↦ settle down now r me reason t
    ]

-- `AdminApproveRequest`. A body that cannot be bound gives an empty reason.
unfoldable pub admin_approve_request : Faults → ℕ → Option ℕ → Caller → Text → Store → Reply × Store
admin_approve_request down now path who reason s = elim (open_case down path who s) [
  | stop r ↦ (r, s)
  | pass (row, me) ↦ approve_row down now row me reason s
]

unfoldable pub close_rejected : Faults → ℕ → ApprovalRequest → User → Text → Store → Reply × Store
close_rejected down now r me reason s =
    if down Statement.finalise_request
    then (internal_error, s)
    else let t = finalise_rows now r.id ApprovalStatus.rejected s in
      (
        shown (reload r t),
        notify (Notice.approval_decided r.id DecisionValue.rejected reason me.full_name) t,
      )

unfoldable pub reject_row : Faults → ℕ → ApprovalRequest → User → Text → Store → Reply × Store
reject_row down now r me reason s =
    elim (record_decision down r me DecisionValue.rejected reason s) [
      | none ↦ (already_voted, s)
      | some t ↦ close_rejected down now r me reason t
    ]

abbrev pub reject_with_reason : Faults → ℕ → ApprovalRequest → User → Text → Store → Reply × Store
reject_with_reason down now r me reason s =
    if is_empty reason then (no_reason, s) else reject_row down now r me reason s

-- `AdminRejectRequest`; `none` is a body that cannot be bound.
unfoldable pub admin_reject_request :
    Faults → ℕ → Option ℕ → Caller → Option Text → Store → Reply × Store
admin_reject_request down now path who body s = elim (open_case down path who s) [
  | stop r ↦ (r, s)
  | pass (row, me) ↦ elim body [
    | none ↦ (invalid_body, s)
    | some reason ↦ reject_with_reason down now row me (trim_space reason) s
  ]
]

-- The checks of a resubmission.
unfoldable pub open_rejected : Faults → Option ℕ → Caller → Store → Check (ApprovalRequest × User)
open_rejected down path who s = do
  n ← or_stop path invalid_id
  me ← or_stop (caller down who s) unidentified
  prev ← or_stop (load down n s) not_found
  unless (if is_id prev.requester_id me.id then false else true) not_requester
  unless (if is_rejected prev.status then false else true) not_rejected
  pass (prev, me)

abbrev pub ask_again : ApprovalRequest → Text → Ask
ask_again prev summary = record {
  action = prev.action;
  entity_type = prev.entity_type;
  entity_id = prev.entity_id;
  amount = prev.amount;
  summary = if is_empty summary then prev.summary else summary;
}

unfoldable pub link : Faults → ApprovalRequest → Option ApprovalRequest × Store → Reply × Store
link down prev (none, s) = (already_open, s)
link down prev (some next, s) =
    if down Statement.link_request
    then (internal_error, s)
    else (created (supersede prev.id next), link_rows next.id prev.id s)

unfoldable pub resubmit_row : Faults → ℕ → ApprovalRequest → User → Text → Store → Reply × Store
resubmit_row down id prev me summary s =
    if down Statement.find_rule
    then (internal_error, s)
    else elim (match_rule prev.action prev.amount s.rules) [
      | none ↦ (not_required, s)
      | some rule ↦ link down prev (raise down id rule (ask_again prev summary) (user me.id) s)
    ]

-- `AdminResubmitRequest`
unfoldable pub admin_resubmit_request :
    Faults → ℕ → Option ℕ → Caller → Text → Store → Reply × Store
admin_resubmit_request down id path who summary s = elim (open_rejected down path who s) [
  | stop r ↦ (r, s)
  | pass (prev, me) ↦ resubmit_row down id prev me (trim_space summary) s
]
