-- ===== src/Approvals/Proofs/Handlers.antt =====
-- Sequences of calls of the gate and of the handlers of internal/handlers/approvals.go, with edits of
-- the rules, the users and the roles between them.
use arcus_invest_backend.Base.{ℕ, ◌≡◌, true, ◌||◌, Option, some, List, [], ◌∷◌}
use arcus_invest_backend.Base.Text.{Text}
use arcus_invest_backend.Approvals.Types.{
  ApprovalRule, ApprovalRequest, User, Store, Faults, Caller, is_approved, is_consumed,
}
use arcus_invest_backend.Approvals.Queries.{find_request}
use arcus_invest_backend.Approvals.Gate.{Ask}
use arcus_invest_backend.Approvals.Gate as Gate
use arcus_invest_backend.Approvals.Desk.{
  admin_approve_request, admin_reject_request, admin_resubmit_request,
}
use arcus_invest_backend.Approvals.Sound.{Reach, edit_step, here, next, start}
use arcus_invest_backend.Approvals.Proofs.GateSteps.{gate-Reach, Reach-trans}
use arcus_invest_backend.Approvals.Proofs.DeskSteps.{approve-Reach, reject-Reach, resubmit-Reach}
use arcus_invest_backend.Approvals.Proofs.Authorisation.{Authorised, Reach-Authorised}

-- A call, with the statements that fail in it, the time, the next free id, and who asks.
pub data DeskCall : Type 0 where
  gate : Faults → ℕ → ℕ → Ask → Caller → DeskCall
  approve : Faults → ℕ → Option ℕ → Caller → Text → DeskCall
  reject : Faults → ℕ → Option ℕ → Caller → Option Text → DeskCall
  resubmit : Faults → ℕ → Option ℕ → Caller → Text → DeskCall
  edit : List ApprovalRule → List User → List Text → DeskCall

unfoldable pub answer : DeskCall → Store → Store
answer (gate down now id ask who) s = (Gate.gate down now id ask who s).1
answer (approve down now path who reason) s = (admin_approve_request down now path who reason s).1
answer (reject down now path who body) s = (admin_reject_request down now path who body s).1
answer (resubmit down id path who summary) s = (admin_resubmit_request down id path who summary s).1
answer (edit rules users roles) s = record s { rules = rules; users = users; roles = roles }

unfoldable pub answer_all : List DeskCall → Store → Store
answer_all [] s = s
answer_all (c ∷ cs) s = answer_all cs (answer c s)

pub answer-Reach : (c : DeskCall) (s : Store) → Reach s (answer c s)
unfolding answer
answer-Reach (gate down now id ask who) s = gate-Reach down now id ask who s
answer-Reach (approve down now path who reason) s = approve-Reach down now path who reason s
answer-Reach (reject down now path who body) s = reject-Reach down now path who body s
answer-Reach (resubmit down id path who summary) s = resubmit-Reach down id path who summary s
answer-Reach (edit rules users roles) s = next here (edit_step s rules users roles)

pub answer_all-Reach : (cs : List DeskCall) (s : Store) → Reach s (answer_all cs s)
unfolding answer_all
answer_all-Reach [] s = here
answer_all-Reach (c ∷ cs) s = Reach-trans (answer-Reach c s) (answer_all-Reach cs (answer c s))

-- After any sequence of calls of the gate and of the approve, reject and resubmit handlers, by
-- whomever and with whatever failures of the statements, between edits of the rules, the users and
-- the roles, from empty tables: a request that is approved or consumed has at least one approving
-- vote and as many as it asks for, nobody has voted twice on one request, and no vote on it is by
-- its requester or by another role than it names.
pub cleared-Authorised :
    (cs : List DeskCall) (n : ℕ) {r : ApprovalRequest}
    → find_request n (answer_all cs start) ≡ some r
    → (is_approved r.status || is_consumed r.status) ≡ true
    → Authorised (answer_all cs start) r
cleared-Authorised cs n found clear =
    Reach-Authorised (answer_all cs start) n (answer_all-Reach cs start) found clear
