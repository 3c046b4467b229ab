-- ===== src/Approvals/Proofs/DeskLaws.antt =====
-- What the handlers that decide requests refuse.
use arcus_invest_backend.Base.{
  ℕ, ◌≡◌, refl, Bool, true, false, ◌&&◌, Option, none, some, [], ◌∷◌, arith, inl, inr, ◌⊎◌, is_id,
  Bool-cases, Option-cases, leb, ltb, ==_refl,
}
use arcus_invest_backend.Base.Text.{Text, trim_space}
use arcus_invest_backend.Approvals.Types.{
  DecisionValue, ApprovalRule, ApprovalRequest, User, Store, Statement, Faults, Caller, user,
  is_pending,
}
use arcus_invest_backend.Approvals.Queries.{match_rule, find_request, find_user}
use arcus_invest_backend.Approvals.Gate.{Ask, raise, create_request}
use arcus_invest_backend.Approvals.Desk.{
  Reply, Check, pass, stop, own_request, status_code, open_case, open_rejected, record_decision,
  settle, close_approved, approve_row, admin_approve_request, close_rejected, reject_row,
  reject_with_reason, admin_reject_request, link, resubmit_row, admin_resubmit_request, ask_again,
}

-- The handler has answered with a client error, 4xx.
abbrev pub is_refusal : Reply → Bool
is_refusal r = leb 400 (status_code r) && ltb (status_code r) 500

abbrev pub RefusesClean : Store → Reply × Store → Type 0
RefusesClean s m = is_refusal m.0 ≡ true → m.1 ≡ s

settle-RefusesClean :
    (down : Faults) (now : ℕ) (r : ApprovalRequest) (me : User) (reason : Text) (s t : Store)
    → RefusesClean s (settle down now r me reason t)
unfolding settle close_approved
settle-RefusesClean down now r me reason s t h = ground arith

approve_row-RefusesClean :
    (down : Faults) (now : ℕ) (r : ApprovalRequest) (me : User) (reason : Text) (s : Store)
    → RefusesClean s (approve_row down now r me reason s)
unfolding approve_row
approve_row-RefusesClean down now r me reason s =
    elim (Option-cases (record_decision down r me DecisionValue.approved reason s)) [
      | inl e ↦ rw (e, approve_row) (λ h. refl)
      | inr (t, e) ↦ rw (e, approve_row) (settle-RefusesClean down now r me reason s t)
    ]

close_rejected-RefusesClean :
    (down : Faults) (now : ℕ) (r : ApprovalRequest) (me : User) (reason : Text) (s t : Store)
    → RefusesClean s (close_rejected down now r me reason t)
unfolding close_rejected
close_rejected-RefusesClean down now r me reason s t h = ground arith

reject_row-RefusesClean :
    (down : Faults) (now : ℕ) (r : ApprovalRequest) (me : User) (reason : Text) (s : Store)
    → RefusesClean s (reject_row down now r me reason s)
unfolding reject_row
reject_row-RefusesClean down now r me reason s =
    elim (Option-cases (record_decision down r me DecisionValue.rejected reason s)) [
      | inl e ↦ rw (e, reject_row) (λ h. refl)
      | inr (t, e) ↦ rw (e, reject_row) (close_rejected-RefusesClean down now r me reason s t)
    ]

reject_with_reason-RefusesClean :
    (down : Faults) (now : ℕ) (r : ApprovalRequest) (me : User) (reason : Text) (s : Store)
    → RefusesClean s (reject_with_reason down now r me reason s)
reject_with_reason-RefusesClean down now r me [] s = λ h. refl
reject_with_reason-RefusesClean down now r me (c ∷ cs) s =
    reject_row-RefusesClean down now r me (c ∷ cs) s

approve-RefusesClean :
    (down : Faults) (now : ℕ) (path : Option ℕ) (who : Caller) (reason : Text) (s : Store)
    (c : Check (ApprovalRequest × User))
    → open_case down path who s ≡ c
    → RefusesClean s (admin_approve_request down now path who reason s)
unfolding admin_approve_request
approve-RefusesClean down now path who reason s (stop r) e =
    rw (e, admin_approve_request) (λ h. refl)
approve-RefusesClean down now path who reason s (pass (row, me)) e =
    rw (e, admin_approve_request) (approve_row-RefusesClean down now row me reason s)

reject-RefusesClean :
    (down : Faults) (now : ℕ) (path : Option ℕ) (who : Caller) (body : Option Text) (s : Store)
    (c : Check (ApprovalRequest × User))
    → open_case down path who s ≡ c
    → RefusesClean s (admin_reject_request down now path who body s)
unfolding admin_reject_request
reject-RefusesClean down now path who body s (stop r) e = rw (e, admin_reject_request) (λ h. refl)
reject-RefusesClean down now path who none s (pass (row, me)) e =
    rw (e, admin_reject_request) (λ h. refl)
reject-RefusesClean down now path who (some reason) s (pass (row, me)) e =
    rw (e, admin_reject_request)
      (reject_with_reason-RefusesClean down now row me (trim_space reason) s)

link-RefusesClean :
    (down : Faults) (prev : ApprovalRequest) (id : ℕ) (rule : ApprovalRule) (ask : Ask)
    (who : Caller) (s : Store)
    → RefusesClean s (link down prev (raise down id rule ask who s))
unfolding link raise create_request
link-RefusesClean down prev id rule ask who s h = ground arith

resubmit_row-RefusesClean :
    (down : Faults) (id : ℕ) (prev : ApprovalRequest) (me : User) (summary : Text) (s : Store)
    → RefusesClean s (resubmit_row down id prev me summary s)
unfolding resubmit_row
resubmit_row-RefusesClean down id prev me summary s = elim (Bool-cases (down Statement.find_rule)) [
  | inl e ↦ rw e (λ h. cc)
  | inr e ↦ elim (Option-cases (match_rule prev.action prev.amount s.rules)) [
    | inl n ↦ rw (e, n) (λ h. refl)
    | inr (rule, m) ↦
        rw (e, m) (link-RefusesClean down prev id rule (ask_again prev summary) (user me.id) s)
  ]
]

resubmit-RefusesClean :
    (down : Faults) (id : ℕ) (path : Option ℕ) (who : Caller) (summary : Text) (s : Store)
    (c : Check (ApprovalRequest × User))
    → open_rejected down path who s ≡ c
    → RefusesClean s (admin_resubmit_request down id path who summary s)
unfolding admin_resubmit_request
resubmit-RefusesClean down id path who summary s (stop r) e =
    rw (e, admin_resubmit_request) (λ h. refl)
resubmit-RefusesClean down id path who summary s (pass (prev, me)) e =
    rw (e, admin_resubmit_request)
      (resubmit_row-RefusesClean down id prev me (trim_space summary) s)

left_alone :
    (s : Store) (m : Reply × Store) → RefusesClean s m → (is_refusal m.0 ≡ false) ⊎ (m.1 ≡ s)
left_alone s m h = elim (Bool-cases (is_refusal m.0)) [ inl e ↦ inr (h e) | inr e ↦ inl e ]

-- Whatever statements the database fails, approve, reject and resubmit each leave the store as it
-- was, or do not answer with a client error.
pub refusal_changes_nothing :
    (down : Faults) (now id : ℕ) (path : Option ℕ) (who : Caller) (note : Text) (body : Option Text)
    (s : Store)
    → let a = admin_approve_request down now path who note s in
      let r = admin_reject_request down now path who body s in
      let b = admin_resubmit_request down id path who note s in
      ((is_refusal a.0 ≡ false) ⊎ (a.1 ≡ s))
      × ((is_refusal r.0 ≡ false) ⊎ (r.1 ≡ s))
      × ((is_refusal b.0 ≡ false) ⊎ (b.1 ≡ s))
refusal_changes_nothing down now id path who note body s = (
  left_alone s (admin_approve_request down now path who note s)
      (approve-RefusesClean down now path who note s (open_case down path who s) refl),
  left_alone s (admin_reject_request down now path who body s)
      (reject-RefusesClean down now path who body s (open_case down path who s) refl),
  left_alone s (admin_resubmit_request down id path who note s)
      (resubmit-RefusesClean down id path who note s (open_rejected down path who s) refl),
)

own_case :
    (n : ℕ) (who : Caller) (s : Store) {row : ApprovalRequest} {me : User}
    → find_user who s ≡ some me
    → find_request n s ≡ some row
    → is_pending row.status ≡ true
    → is_id row.requester_id me.id ≡ true
    → open_case (λ _. false) (some n) who s ≡ stop own_request
unfolding open_case
own_case n who s {row} {me} known found waiting mine = ground arith

-- Where the database answers, a requester who approves or rejects a waiting request of their own
-- is refused, whatever their role and whatever they send, and nothing changes.
pub own_request_refused :
    (now n : ℕ) (who : Caller) (reason : Text) (body : Option Text) (s : Store)
    {row : ApprovalRequest} {me : User}
    → find_user who s ≡ some me
    → find_request n s ≡ some row
    → is_pending row.status ≡ true
    → row.requester_id ≡ some me.id
    → (admin_approve_request (λ _. false) now (some n) who reason s ≡ (own_request, s))
      × (admin_reject_request (λ _. false) now (some n) who body s ≡ (own_request, s))
unfolding admin_approve_request admin_reject_request
own_request_refused now n who reason body s {row} {me} known found waiting own =
    let mine : is_id row.requester_id me.id ≡ true = rw own (==_refl me.id) in
    let refused = own_case n who s {row = row} {me = me} known found waiting mine in
    (rw (refused, admin_approve_request), rw (refused, admin_reject_request))
