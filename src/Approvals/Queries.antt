-- ===== src/Approvals/Queries.antt =====
-- The statements of internal/handlers/approvals.go on the approval tables, one function to a
-- statement, so that any interleaving of handlers is a sequence of these.
use arcus_invest_backend.Base.{
  ℕ, ℤ, ltb_ℤ, leb_ℤ, eqb_ℤ, Bool, false, ◌&&◌, ◌||◌, Option, none, some, List, [], ◌∷◌, ◌==◌, ltb,
  is_id, find, any, count, update_where, if◌then◌else◌,
}
use arcus_invest_backend.Base.Text.{Text, text_eq}
use arcus_invest_backend.Approvals.Types.{
  ApprovalStatus, ApprovalRule, PendingKey, ApprovalRequest, ApprovalDecision, User, Notice, Store,
  Caller, anonymous, garbled, user, is_pending, is_approved, is_rejected, votes_for,
}

-- Rules

abbrev pub covers : Text → ℤ → ApprovalRule → Bool
covers action amount r = text_eq r.action action && (r.is_active && leb_ℤ r.min_amount amount)

-- `ORDER BY min_amount DESC`, to which `First` adds the primary key.
abbrev pub precedes : ApprovalRule → ApprovalRule → Bool
precedes r q = ltb_ℤ q.min_amount r.min_amount || (eqb_ℤ q.min_amount r.min_amount && ltb r.id q.id)

abbrev pub prefer : ApprovalRule → Option ApprovalRule → Option ApprovalRule
prefer r none = some r
prefer r (some q) = some (if precedes q r then q else r)

-- The query of `matchRule`.
unfoldable pub match_rule : Text → ℤ → List ApprovalRule → Option ApprovalRule
match_rule action amount [] = none
match_rule action amount (r ∷ rs) =
    let rest = match_rule action amount rs in if covers action amount r then prefer r rest else rest

-- Requests

abbrev pub request_is : ℕ → ApprovalRequest → Bool
request_is n r = r.id == n

abbrev pub find_request : ℕ → Store → Option ApprovalRequest
find_request n s = find (request_is n) s.requests

abbrev pub key_eq : PendingKey → PendingKey → Bool
key_eq j k =
    text_eq j.action k.action && ((j.entity_id == k.entity_id) && (j.requester == k.requester))

abbrev pub holds_key : PendingKey → ApprovalRequest → Bool
holds_key k r = elim r.pending_key [ none ↦ false | some j ↦ key_eq j k ]

abbrev pub pending_key_for : Text → ℕ → ℕ → PendingKey
pending_key_for action entity requester = record {
  action = action;
  entity_id = entity;
  requester = requester;
}

-- `INSERT`: the primary key and the unique index on `pending_key` refuse a second row.
unfoldable pub insert_request : ApprovalRequest → Store → Option Store
insert_request r s =
    if any (request_is r.id) s.requests
      || elim r.pending_key [ none ↦ false | some k ↦ any (holds_key k) s.requests ]
    then none
    else some (record s { requests = r ∷ s.requests })

-- The statuses in which `gate` still finds a request.
abbrev pub is_live : ApprovalStatus → Bool
is_live st = is_pending st || (is_approved st || is_rejected st)

abbrev pub raised_by : Caller → ApprovalRequest → Bool
raised_by (user n) r = is_id r.requester_id n
raised_by anonymous r = false
raised_by garbled r = false

abbrev pub is_open_for : Text → ℕ → Caller → ApprovalRequest → Bool
is_open_for action entity who r =
    text_eq r.action action && ((r.entity_id == entity) && (raised_by who r && is_live r.status))

abbrev pub consumable : ℕ → ℤ → ApprovalRequest → Bool
consumable n amount r = (r.id == n) && (is_approved r.status && leb_ℤ amount r.amount)

abbrev pub spend : ℕ → ApprovalRequest → ApprovalRequest
spend now r = record r { status = ApprovalStatus.consumed; consumed_at = some now }

-- The `UPDATE` of `consume`, and its `RowsAffected`.
unfoldable pub consume_rows : ℕ → ℕ → ℤ → Store → Store
consume_rows now n amount s = record s {
  requests = update_where (consumable n amount) (spend now) s.requests;
}

abbrev pub rows_consumed : ℕ → ℤ → Store → ℕ
rows_consumed n amount s = count (consumable n amount) s.requests

abbrev pub undecided : ℕ → ApprovalRequest → Bool
undecided n r = (r.id == n) && is_pending r.status

abbrev pub decide : ℕ → ApprovalStatus → ApprovalRequest → ApprovalRequest
decide now st r = record r { status = st; decided_at = some now; pending_key = none }

-- `finalise`
unfoldable pub finalise_rows : ℕ → ℕ → ApprovalStatus → Store → Store
finalise_rows now n st s = record s {
  requests = update_where (undecided n) (decide now st) s.requests;
}

abbrev pub supersede : ℕ → ApprovalRequest → ApprovalRequest
supersede old r = record r { supersedes_id = some old }

unfoldable pub link_rows : ℕ → ℕ → Store → Store
link_rows n old s = record s { requests = update_where (request_is n) (supersede old) s.requests }

-- Decisions

abbrev pub votes_on : ℕ → ℕ → ApprovalDecision → Bool
votes_on n approver d = (d.request_id == n) && (d.approver_id == approver)

abbrev pub approves : ℕ → ApprovalDecision → Bool
approves n d = (d.request_id == n) && votes_for d.decision

abbrev pub approved_votes : ℕ → List ApprovalDecision → ℕ
approved_votes n ds = count (approves n) ds

-- `INSERT`, under the unique index on (request_id, approver_id).
unfoldable pub insert_decision : ApprovalDecision → Store → Option Store
insert_decision d s =
    if any (votes_on d.request_id d.approver_id) s.decisions
    then none
    else some (record s { decisions = d ∷ s.decisions })

-- Users and notices

abbrev pub user_is : ℕ → User → Bool
user_is n u = u.id == n

-- `h.DB.First(&u, "id = ?", …)`
abbrev pub find_user : Caller → Store → Option User
find_user (user n) s = find (user_is n) s.users
find_user anonymous s = none
find_user garbled s = none

abbrev pub notify : Notice → Store → Store
notify n s = record s { notices = n ∷ s.notices }
