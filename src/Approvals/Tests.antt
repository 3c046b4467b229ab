-- ===== src/Approvals/Tests.antt =====
-- A deal that closes with approval, run through the engine, and what its theorems say of it.
use arcus_invest_backend.Base.{
  ◌+◌, ◌≤◌, ◌≡◌, ◌≢◌, ◌⊎◌, refl, pos, ◌≤ℤ◌, true, false, none, some, List, [], ◌∷◌, arith, count,
  find, any, All,
}
use arcus_invest_backend.Base.Text.{Text, codes, text_eq, is_space, trim_left, trim_space}
use arcus_invest_backend.Approvals.Types.{
  ApprovalStatus, ApprovalRule, ApprovalRequest, User, Store, Faults, user, deal_close_won,
}
use arcus_invest_backend.Approvals.Queries.{
  covers, match_rule, find_request, is_open_for, insert_request, insert_decision, consume_rows,
  finalise_rows, link_rows, votes_on, approved_votes, find_user, decide,
}
use arcus_invest_backend.Approvals.Gate.{
  Ask, proceed, blocked, create_request, raise, consume, gate_covered, gate, new_request,
}
use arcus_invest_backend.Approvals.Desk.{
  eligible_to_decide, open_case, record_decision, close_approved, settle, approve_row,
  admin_approve_request, close_rejected, reject_row, admin_reject_request, open_rejected, link,
  resubmit_row, admin_resubmit_request, own_request,
}
use arcus_invest_backend.Approvals.Sound.{edit_step, Reach, here, next, start}
use arcus_invest_backend.Approvals.Proofs.Invariant.{Reach-IsSound, start-IsSound}
use arcus_invest_backend.Approvals.Proofs.GateSteps.{gate-Reach, Reach-trans}
use arcus_invest_backend.Approvals.Proofs.DeskSteps.{approve-Reach}
use arcus_invest_backend.Approvals.Proofs.Eligible.{Eligible}
use arcus_invest_backend.Approvals.Proofs.Authorisation.{
  Authorised, is_open_request, one_open_request, consume_once,
}
use arcus_invest_backend.Approvals.Proofs.Handlers.{DeskCall, answer_all, cleared-Authorised}
use arcus_invest_backend.Approvals.Proofs.Handlers as Handlers
use arcus_invest_backend.Approvals.Proofs.Consumed.{consumed}
use arcus_invest_backend.Approvals.Proofs.Conserved.{passes, passes_bounded}
use arcus_invest_backend.Approvals.Proofs.GateLaws.{
  IsHighest, match_rule-IsHighest, Spending, gate_proceeds, gate_stale_rejection,
}
use arcus_invest_backend.Approvals.Proofs.DeskLaws.{
  is_refusal, refusal_changes_nothing, own_request_refused,
}
use arcus_invest_backend.Approvals.Proofs.Unblocks.{approval_unblocks}
use arcus_invest_backend.Authz.Grants.{allows}
use arcus_invest_backend.Authz.Cache.{can, active_matrix}
use arcus_invest_backend.Approvals.Rules.{
  RuleChange, admin_create_approval_rule, admin_update_approval_rule,
}
use arcus_invest_backend.Approvals.Proofs.RuleLaws.{IsReleasable, Administered, rules-Administered}

abbrev up : Faults
up s = false

abbrev seller : User
seller = record { id = 1; full_name = codes "S"; role = codes "sales" }

abbrev director : User
director = record { id = 2; full_name = codes "D"; role = codes "director" }

abbrev big_deals : ApprovalRule
big_deals = record {
  id = 5;
  action = deal_close_won;
  min_amount = pos 100;
  required_count = pos 1;
  approver_role = codes "director";
  is_active = true;
  note = [];
}

abbrev office : Store
office = record start { rules = big_deals ∷ []; users = seller ∷ director ∷ [] }

abbrev closing : Ask
closing = record {
  action = deal_close_won;
  entity_type = codes "deal";
  entity_id = 7;
  amount = pos 500;
  summary = codes "x";
}

abbrev raised_row : ApprovalRequest
raised_row = new_request 100 big_deals closing 1 (codes "S")

abbrev approved_row : ApprovalRequest
approved_row = decide 11 ApprovalStatus.approved raised_row

-- The store after the seller has asked, and after the director has approved.
abbrev asked : Store
asked = (gate up 10 100 closing (user 1) office).1

abbrev answered : Store
answered = (admin_approve_request up 11 (some 100) (user 2) [] asked).1

office-Reach : Reach start office
office-Reach = next here (edit_step start (big_deals ∷ []) (seller ∷ director ∷ []) [])

asked-Reach : Reach start asked
asked-Reach = Reach-trans office-Reach (gate-Reach up 10 100 closing (user 1) office)

answered-Reach : Reach start answered
answered-Reach = Reach-trans asked-Reach (approve-Reach up 11 (some 100) (user 2) [] asked)

asked_found : find_request 100 asked ≡ some raised_row
unfolding gate match_rule gate_covered raise create_request insert_request text_eq
asked_found = refl

answered_found : find_request 100 answered ≡ some approved_row
unfolding gate match_rule gate_covered raise create_request insert_request text_eq
    admin_approve_request open_case eligible_to_decide approve_row record_decision insert_decision
    settle close_approved finalise_rows
answered_found = refl

answered_open : find (is_open_for deal_close_won 7 (user 1)) answered.requests ≡ some approved_row
unfolding gate match_rule gate_covered raise create_request insert_request text_eq
    admin_approve_request open_case eligible_to_decide approve_row record_decision insert_decision
    settle close_approved finalise_rows
answered_open = refl

answered_rule : match_rule deal_close_won (pos 500) answered.rules ≡ some big_deals
unfolding gate match_rule gate_covered raise create_request insert_request text_eq
    admin_approve_request open_case eligible_to_decide approve_row record_decision insert_decision
    settle close_approved finalise_rows
answered_rule = refl

answered_spends : (consume up 12 approved_row (pos 500) answered).0 ≡ some true
unfolding gate match_rule gate_covered raise create_request insert_request text_eq consume
    consume_rows admin_approve_request open_case eligible_to_decide approve_row record_decision
    insert_decision settle close_approved finalise_rows
answered_spends = refl

answered_proceeds : (gate up 12 101 closing (user 1) answered).0 ≡ proceed
unfolding gate match_rule gate_covered raise create_request insert_request text_eq consume
    consume_rows admin_approve_request open_case eligible_to_decide approve_row record_decision
    insert_decision settle close_approved finalise_rows
answered_proceeds = refl

-- The same request refused, resubmitted as 101, approved, and spent.
abbrev declined : Store
declined = (admin_reject_request up 11 (some 100) (user 2) (some (codes "no")) asked).1

abbrev resubmitted : Store
resubmitted = (admin_resubmit_request up 101 (some 100) (user 1) [] declined).1

abbrev closed : Store
closed =
    (gate up 13 102 closing (user 1)
      (admin_approve_request up 12 (some 101) (user 2) [] resubmitted).1).1

abbrev refused_row : ApprovalRequest
refused_row = decide 11 ApprovalStatus.rejected raised_row

abbrev spent_row : ApprovalRequest
spent_row =
    record (decide 12 ApprovalStatus.approved (new_request 101 big_deals closing 1 (codes "S"))) {
      status = ApprovalStatus.consumed;
      supersedes_id = some 100;
      consumed_at = some 13;
    }

closed_rows : closed.requests ≡ spent_row ∷ refused_row ∷ []
unfolding gate match_rule gate_covered raise create_request insert_request text_eq consume
    consume_rows admin_approve_request open_case eligible_to_decide approve_row record_decision
    insert_decision settle close_approved finalise_rows admin_reject_request reject_row
    close_rejected admin_resubmit_request open_rejected resubmit_row link link_rows trim_space
    trim_left is_space
closed_rows = refl

closed_rule : match_rule deal_close_won (pos 500) closed.rules ≡ some big_deals
unfolding gate match_rule gate_covered raise create_request insert_request text_eq consume
    consume_rows admin_approve_request open_case eligible_to_decide approve_row record_decision
    insert_decision settle close_approved finalise_rows admin_reject_request reject_row
    close_rejected admin_resubmit_request open_rejected resubmit_row link link_rows trim_space
    trim_left is_space
closed_rule = refl

same_text : (t : Text) → t ≡ deal_close_won → text_eq t deal_close_won ≡ true
unfolding text_eq
same_text t h = rw h refl

-- The seller asks, tries to approve the own request, and the director approves it.
abbrev day : List DeskCall
day =
    Handlers.edit (big_deals ∷ []) (seller ∷ director ∷ []) []
    ∷ Handlers.gate up 10 100 closing (user 1)
    ∷ Handlers.approve up 11 (some 100) (user 1) []
    ∷ Handlers.approve up 11 (some 100) (user 2) []
    ∷ []

day_found : find_request 100 (answer_all day start) ≡ some approved_row
unfolding gate match_rule gate_covered raise create_request insert_request text_eq
    admin_approve_request open_case eligible_to_decide approve_row record_decision insert_decision
    settle close_approved finalise_rows answer_all Handlers.answer
day_found = refl

cleared-Authorised_example : Authorised (answer_all day start) approved_row
cleared-Authorised_example = cleared-Authorised day 100 {r = approved_row} day_found refl

-- The same day, with the deal closed at the end, and once more.
abbrev closing_day : List DeskCall
closing_day =
    Handlers.edit (big_deals ∷ []) (seller ∷ director ∷ []) []
    ∷ Handlers.gate up 10 100 closing (user 1)
    ∷ Handlers.approve up 11 (some 100) (user 2) []
    ∷ Handlers.gate up 12 101 closing (user 1)
    ∷ Handlers.gate up 13 102 closing (user 1)
    ∷ []

closing_day-passes : passes closing_day start ≡ 1
unfolding gate match_rule gate_covered raise create_request insert_request text_eq consume
    consume_rows admin_approve_request open_case eligible_to_decide approve_row record_decision
    insert_decision settle close_approved finalise_rows passes Handlers.answer
closing_day-passes = refl

passes_bounded_example : passes closing_day start ≤ consumed (answer_all closing_day start)
passes_bounded_example = passes_bounded closing_day

one_open_request_example : count (is_open_request deal_close_won 7 1) asked.requests ≤ 1
one_open_request_example = one_open_request deal_close_won 7 1 asked asked-Reach

consume_once_example :
    (pos 500 ≤ℤ approved_row.amount)
    × ((consume up 13 approved_row (pos 200) (consume up 12 approved_row (pos 500) answered).1).0
        ≢ some true)
consume_once_example =
    consume_once up up 12 13 approved_row (pos 500) (pos 200) answered
      (consume up 12 approved_row (pos 500) answered).1 answered-Reach answered_found
      answered_spends here

match_rule-IsHighest_example :
    ((match_rule deal_close_won (pos 500) (big_deals ∷ []) ≡ none)
      × All (λ q. covers deal_close_won (pos 500) q ≡ false) (big_deals ∷ []))
    ⊎ ((r : ApprovalRule) × (match_rule deal_close_won (pos 500) (big_deals ∷ []) ≡ some r)
        × IsHighest deal_close_won (pos 500) (big_deals ∷ []) r)
match_rule-IsHighest_example = match_rule-IsHighest deal_close_won (pos 500) (big_deals ∷ [])

gate_proceeds_example :
    Spending closing (user 1) answered (gate up 12 101 closing (user 1) answered).1
gate_proceeds_example =
    gate_proceeds up 12 101 big_deals closing (user 1) answered
      (Reach-IsSound start-IsSound answered-Reach) answered_rule answered_proceeds

gate_stale_rejection_example :
    gate up 14 103 closing (user 1) closed ≡ (blocked refused_row, closed)
gate_stale_rejection_example =
    gate_stale_rejection 14 103 1 big_deals closing closed spent_row refused_row [] closed_rows
      closed_rule refl refl (same_text deal_close_won refl) refl refl

refusal_changes_nothing_example :
    ((is_refusal (admin_approve_request up 11 (some 100) (user 1) [] asked).0 ≡ false)
      ⊎ ((admin_approve_request up 11 (some 100) (user 1) [] asked).1 ≡ asked))
    × ((is_refusal (admin_reject_request up 11 (some 100) (user 1) none asked).0 ≡ false)
        ⊎ ((admin_reject_request up 11 (some 100) (user 1) none asked).1 ≡ asked))
    × ((is_refusal (admin_resubmit_request up 101 (some 100) (user 1) [] asked).0 ≡ false)
        ⊎ ((admin_resubmit_request up 101 (some 100) (user 1) [] asked).1 ≡ asked))
refusal_changes_nothing_example =
    refusal_changes_nothing up 11 101 (some 100) (user 1) [] none asked

asked-seller : find_user (user 1) asked ≡ some seller
unfolding gate match_rule gate_covered raise create_request insert_request text_eq consume
    consume_rows admin_approve_request open_case eligible_to_decide approve_row record_decision
    insert_decision settle close_approved finalise_rows
asked-seller = refl

own_request_refused_example :
    (admin_approve_request up 11 (some 100) (user 1) [] asked ≡ (own_request, asked))
    × (admin_reject_request up 11 (some 100) (user 1) none asked ≡ (own_request, asked))
own_request_refused_example =
    own_request_refused 11 100 (user 1) [] none asked {row = raised_row} {me = seller} asked-seller
      asked_found refl refl

asked-Eligible : Eligible (user 2) raised_row director asked
unfolding gate match_rule gate_covered raise create_request insert_request text_eq consume
    consume_rows admin_approve_request open_case eligible_to_decide approve_row record_decision
    insert_decision settle close_approved finalise_rows
asked-Eligible = record { known = refl; found = refl; waiting = refl; other = refl; role = refl }

asked_unvoted : any (votes_on 100 2) asked.decisions ≡ false
unfolding gate match_rule gate_covered raise create_request insert_request text_eq consume
    consume_rows admin_approve_request open_case eligible_to_decide approve_row record_decision
    insert_decision settle close_approved finalise_rows
asked_unvoted = refl

asked_enough : raised_row.required_count ≤ℤ pos (1 + approved_votes 100 asked.decisions)
unfolding gate match_rule gate_covered raise create_request insert_request text_eq consume
    consume_rows admin_approve_request open_case eligible_to_decide approve_row record_decision
    insert_decision settle close_approved finalise_rows
asked_enough = omega arith

asked_open : find (is_open_for deal_close_won 7 (user 1)) asked.requests ≡ some raised_row
unfolding gate match_rule gate_covered raise create_request insert_request text_eq consume
    consume_rows admin_approve_request open_case eligible_to_decide approve_row record_decision
    insert_decision settle close_approved finalise_rows
asked_open = refl

asked_rule : match_rule deal_close_won (pos 400) asked.rules ≡ some big_deals
unfolding gate match_rule gate_covered raise create_request insert_request text_eq consume
    consume_rows admin_approve_request open_case eligible_to_decide approve_row record_decision
    insert_decision settle close_approved finalise_rows
asked_rule = refl

approval_unblocks_example :
    (gate up 12 101 (record closing { amount = pos 400 }) (user 1) answered).0 ≡ proceed
approval_unblocks_example =
    approval_unblocks 11 12 101 1 (user 2) [] (pos 400) (codes "x") big_deals raised_row director
      asked (Reach-IsSound start-IsSound asked-Reach) asked-Eligible asked_unvoted asked_enough
      asked_open asked_rule (omega arith)

abbrev open_office : Store
open_office = record office { roles = codes "admin" ∷ [] }

abbrev admin_rule : ApprovalRule
admin_rule = record big_deals { approver_role = codes "admin" }

abbrev office_with_rule : Store
office_with_rule = record open_office { rules = admin_rule ∷ [] }

admin_rule-IsReleasable : IsReleasable none (codes "admin" ∷ []) admin_rule
unfolding can active_matrix allows text_eq
admin_rule-IsReleasable = record {
  gated = refl;
  amount = refl;
  counted = refl;
  role = refl;
  powers = refl;
}

abbrev cheaper : RuleChange
cheaper = record {
  min_amount = some (pos 50);
  required_count = none;
  approver_role = none;
  is_active = none;
  note = none;
}

rules-Administered_example :
    Administered none office_with_rule (admin_create_approval_rule up none 6 none office_with_rule)
    × Administered none office_with_rule
        (admin_update_approval_rule up none (some 5) (some cheaper) office_with_rule)
rules-Administered_example =
    rules-Administered up none 6 (some 5) none (some cheaper) office_with_rule
      (admin_rule-IsReleasable, tt)
