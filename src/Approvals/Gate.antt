-- ===== src/Approvals/Gate.antt =====
-- `gate`, `consume` and `raise` of internal/handlers/approvals.go: whether a gated action may
-- proceed, and the request that is raised where it may not.
use arcus_invest_backend.Base.{
  ℕ, ℤ, pos, ltb_ℤ, Bool, true, false, Option, none, some, [], ◌==◌, find, if◌then◌else◌,
}
use arcus_invest_backend.Base.Text.{Text}
use arcus_invest_backend.Approvals.Types.{
  ApprovalStatus, ApprovalRule, ApprovalRequest, User, Notice, Store, Statement, Faults, Caller,
  anonymous, garbled, user, is_approved,
}
use arcus_invest_backend.Approvals.Queries.{
  match_rule, pending_key_for, insert_request, is_open_for, consume_rows, rows_consumed, find_user,
  notify,
}

-- The arguments that a gated handler passes to `gate`.
pub record Ask : Type 0 where
  pub action : Text
  pub entity_type : Text
  pub entity_id : ℕ
  pub amount : ℤ
  pub summary : Text

-- The two results of `gate`: a nil request, a request that blocks, or an error.
pub data Verdict : Type 0 where
  proceed : Verdict
  blocked : ApprovalRequest → Verdict
  failed : Verdict

-- `uuid.Parse` of the caller's id.
abbrev pub parse_id : Caller → Option ℕ
parse_id (user n) = some n
parse_id anonymous = none
parse_id garbled = none

-- The name of a user that was not found is Go's empty string.
abbrev pub full_name_of : Option User → Text
full_name_of none = []
full_name_of (some u) = u.full_name

-- A rule saved with a count below one asks for one approval.
abbrev pub at_least_one : ℤ → ℤ
at_least_one n = if ltb_ℤ n (pos 1) then pos 1 else n

-- The row that `raise` writes: the count and the role are copied off the rule.
abbrev pub new_request : ℕ → ApprovalRule → Ask → ℕ → Text → ApprovalRequest
new_request id rule ask requester name = record {
  id = id;
  action = ask.action;
  entity_type = ask.entity_type;
  entity_id = ask.entity_id;
  amount = ask.amount;
  summary = ask.summary;
  status = ApprovalStatus.pending;
  requester_id = some requester;
  requester_name = name;
  rule_id = some rule.id;
  required_count = at_least_one rule.required_count;
  approver_role = rule.approver_role;
  pending_key = some (pending_key_for ask.action ask.entity_id requester);
  supersedes_id = none;
  decided_at = none;
  consumed_at = none;
}

-- `h.DB.Create(&pending)` and the notice that follows it; `none` is an error.
unfoldable pub create_request : Faults → ApprovalRequest → Store → Option ApprovalRequest × Store
create_request down r s =
    if down Statement.create_request then (none, s) else elim (insert_request r s) [
      | none ↦ (none, s)
      | some t ↦ (some r, notify (Notice.approval_pending r.id) t)
    ]

unfoldable pub raise :
    Faults → ℕ → ApprovalRule → Ask → Caller → Store → Option ApprovalRequest × Store
raise down id rule ask who s = elim (parse_id who) [
  | none ↦ (none, s)
  | some requester ↦
      create_request down
        (new_request id rule ask requester (full_name_of (find_user (user requester) s))) s
]

-- Whether exactly one row was spent; `none` is an error.
unfoldable pub consume : Faults → ℕ → ApprovalRequest → ℤ → Store → Option Bool × Store
consume down now r amount s =
    if down Statement.consume_request
    then (none, s)
    else (some (rows_consumed r.id amount s == 1), consume_rows now r.id amount s)

abbrev pub raised : Option ApprovalRequest × Store → Verdict × Store
raised (none, s) = (failed, s)
raised (some r, s) = (blocked r, s)

-- What follows `consume`: an approval that is too small leads to a fresh request.
abbrev pub after_consume :
    Option Bool × Store → (Store → Option ApprovalRequest × Store) → Verdict × Store
after_consume (none, s) again = (failed, s)
after_consume (some true, s) again = (proceed, s)
after_consume (some false, s) again = raised (again s)

-- `gate` where a rule covers the action and the caller is known by an id.
unfoldable pub gate_covered : Faults → ℕ → ℕ → ApprovalRule → Ask → Caller → Store → Verdict × Store
gate_covered down now id rule ask who s =
    if down Statement.find_request
    then (failed, s)
    else elim (find (is_open_for ask.action ask.entity_id who) s.requests) [
      | none ↦ raised (raise down id rule ask who s)
      | some existing ↦
          if is_approved existing.status
          then after_consume (consume down now existing ask.amount s) (raise down id rule ask who)
          else (blocked existing, s)
    ]

-- A gated action without a caller is refused.
abbrev pub known_gate : Faults → ℕ → ℕ → ApprovalRule → Ask → Caller → Store → Verdict × Store
known_gate down now id rule ask anonymous s = (failed, s)
known_gate down now id rule ask garbled s = gate_covered down now id rule ask garbled s
known_gate down now id rule ask (user n) s = gate_covered down now id rule ask (user n) s

-- The id of a request that has to be raised is drawn beforehand.
unfoldable pub gate : Faults → ℕ → ℕ → Ask → Caller → Store → Verdict × Store
gate down now id ask who s =
    if down Statement.find_rule
    then (failed, s)
    else elim (match_rule ask.action ask.amount s.rules) [
      | none ↦ (proceed, s)
      | some rule ↦ known_gate down now id rule ask who s
    ]
