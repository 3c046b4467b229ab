-- ===== src/Approvals/Types.antt =====
-- The rows of the approval tables (internal/models/approval_models.go) and the store that holds
-- them. Identifiers are numbers, times are numbers, and amounts are whole numbers of one unit, which
-- the engine only compares. Each table lists its newest row first.
use arcus_invest_backend.Base.{ℕ, ℤ, Bool, true, false, Option, List, [], ◌∷◌}
use arcus_invest_backend.Base.Text.{Text, codes}

-- The codes of the gated actions.
abbrev pub deal_close_won : Text
deal_close_won = codes "deal.close_won"

abbrev pub deal_delete : Text
deal_delete = codes "deal.delete"

abbrev pub contract_sign : Text
contract_sign = codes "contract.sign"

abbrev pub contract_delete : Text
contract_delete = codes "contract.delete"

abbrev pub payment_record : Text
payment_record = codes "payment.record"

abbrev pub expense_record : Text
expense_record = codes "expense.record"

abbrev pub expense_settle : Text
expense_settle = codes "expense.settle"

abbrev pub purchase_order_issue : Text
purchase_order_issue = codes "purchase_order.issue"

abbrev pub all_approval_actions : List Text
all_approval_actions =
    deal_close_won ∷ deal_delete ∷ contract_sign ∷ contract_delete ∷ payment_record ∷ expense_record
    ∷ expense_settle ∷ purchase_order_issue ∷ []

pub data ApprovalStatus : Type 0 where
  pending approved rejected consumed cancelled : ApprovalStatus

pub data DecisionValue : Type 0 where
  approved rejected : DecisionValue

pub record ApprovalRule : Type 0 where
  pub id : ℕ
  pub action : Text
  pub min_amount : ℤ
  pub required_count : ℤ
  pub approver_role : Text
  pub is_active : Bool
  pub note : Text

-- The text that `pendingKeyFor` prints, as its three parts.
pub record PendingKey : Type 0 where
  pub action : Text
  pub entity_id : ℕ
  pub requester : ℕ

pub record ApprovalRequest : Type 0 where
  pub id : ℕ
  pub action : Text
  pub entity_type : Text
  pub entity_id : ℕ
  pub amount : ℤ
  pub summary : Text
  pub status : ApprovalStatus
  pub requester_id : Option ℕ
  pub requester_name : Text
  pub rule_id : Option ℕ
  pub required_count : ℤ
  pub approver_role : Text
  pub pending_key : Option PendingKey
  pub supersedes_id : Option ℕ
  pub decided_at : Option ℕ
  pub consumed_at : Option ℕ

pub record ApprovalDecision : Type 0 where
  pub request_id : ℕ
  pub approver_id : ℕ
  pub approver_name : Text
  pub approver_role : Text
  pub decision : DecisionValue
  pub reason : Text

pub record User : Type 0 where
  pub id : ℕ
  pub full_name : Text
  pub role : Text

-- What the handlers hand to the notification service, which sends on a best-effort basis.
pub data Notice : Type 0 where
  approval_pending : ℕ → Notice
  approval_decided : ℕ → DecisionValue → Text → Text → Notice

pub record Store : Type 0 where
  pub rules : List ApprovalRule
  pub requests : List ApprovalRequest
  pub decisions : List ApprovalDecision
  pub users : List User
  -- the names in `custom_roles`
  pub roles : List Text
  pub notices : List Notice

-- The database statements whose failure the handlers look at, and which of them fail.
pub data Statement : Type 0 where
  find_rule find_request find_user : Statement
  consume_request create_request create_decision finalise_request link_request : Statement
  create_rule update_rule : Statement

abbrev pub Faults : Type 0
Faults = Statement → Bool

-- The `user_id` of a request's context: absent, not a UUID, or a UUID.
pub data Caller : Type 0 where
  anonymous garbled : Caller
  user : ℕ → Caller

abbrev pub is_pending : ApprovalStatus → Bool
is_pending ApprovalStatus.pending = true
is_pending _ = false

abbrev pub is_approved : ApprovalStatus → Bool
is_approved ApprovalStatus.approved = true
is_approved _ = false

abbrev pub is_rejected : ApprovalStatus → Bool
is_rejected ApprovalStatus.rejected = true
is_rejected _ = false

abbrev pub is_consumed : ApprovalStatus → Bool
is_consumed ApprovalStatus.consumed = true
is_consumed _ = false

abbrev pub votes_for : DecisionValue → Bool
votes_for DecisionValue.approved = true
votes_for DecisionValue.rejected = false
