-- ===== src/Approvals/Rules.antt =====
-- The administration of approval rules (internal/handlers/approvals.go): `validateRule`,
-- `AdminCreateApprovalRule` and `AdminUpdateApprovalRule`. What a role may do is asked of Authz.
use arcus_invest_backend.Base.{
  ℕ, ◌==◌, ℤ, pos, ltb_ℤ, eqb_ℤ, Bool, true, not, Option, none, some, ◌∷◌, find, any, update_where,
  if◌then◌else◌,
}
use arcus_invest_backend.Base.Text.{Text, codes, text_eq, trim_space}
use arcus_invest_backend.Authz.Grants.{update}
use arcus_invest_backend.Authz.Cache.{Cache, can}
use arcus_invest_backend.Approvals.Types.{
  ApprovalRule, Store, Statement, Faults, all_approval_actions,
}

pub data RuleReply : Type 0 where
  invalid_rule_id rule_not_found invalid_rule_body rule_failed : RuleReply
  unknown_action negative_amount no_approval unknown_role powerless_role : RuleReply
  rule_saved : ApprovalRule → RuleReply

-- `validApprovalActions[action]`
abbrev pub is_approval_action : Text → Bool
is_approval_action action = any (λ a. text_eq a action) all_approval_actions

abbrev pub role_exists : Text → Store → Bool
role_exists role s = any (λ n. text_eq n role) s.roles

-- `validateRule`: the complaint, if there is one.
unfoldable pub validate_rule : Cache → Store → Text → ℤ → ℤ → Text → Option RuleReply
validate_rule c s action amount required role =
    if not (is_approval_action action)
    then some unknown_action
    else (if ltb_ℤ amount (pos 0)
        then some negative_amount
        else (if ltb_ℤ required (pos 1)
            then some no_approval
            else (if not (role_exists role s)
                then some unknown_role
                else (if not (can c role (codes "approvals") update)
                    then some powerless_role
                    else none))))

pub record NewRule : Type 0 where
  pub action : Text
  pub min_amount : ℤ
  pub required_count : ℤ
  pub approver_role : Text
  pub note : Text

-- A count of zero asks for one approval.
abbrev pub or_one : ℤ → ℤ
or_one n = if eqb_ℤ n (pos 0) then pos 1 else n

abbrev pub rule_of : ℕ → NewRule → ApprovalRule
rule_of id req = record {
  id = id;
  action = req.action;
  min_amount = req.min_amount;
  required_count = or_one req.required_count;
  approver_role = trim_space req.approver_role;
  is_active = true;
  note = trim_space req.note;
}

abbrev pub rule_is : ℕ → ApprovalRule → Bool
rule_is n r = r.id == n

unfoldable pub insert_rule : Faults → ApprovalRule → Store → RuleReply × Store
insert_rule down r s =
    if down Statement.create_rule
    then (rule_failed, s)
    else (if any (rule_is r.id) s.rules
        then (rule_failed, s)
        else (rule_saved r, record s { rules = r ∷ s.rules }))

abbrev pub validated_rule : Cache → Store → ApprovalRule → Option RuleReply
validated_rule c s r = validate_rule c s r.action r.min_amount r.required_count r.approver_role

-- `AdminCreateApprovalRule`; `none` is a body that cannot be bound.
unfoldable pub admin_create_approval_rule :
    Faults → Cache → ℕ → Option NewRule → Store → RuleReply × Store
admin_create_approval_rule down c id none s = (invalid_rule_body, s)
admin_create_approval_rule down c id (some req) s = elim (validated_rule c s (rule_of id req)) [
  | some e ↦ (e, s)
  | none ↦ insert_rule down (rule_of id req) s
]

pub record RuleChange : Type 0 where
  pub min_amount : Option ℤ
  pub required_count : Option ℤ
  pub approver_role : Option Text
  pub is_active : Option Bool
  pub note : Option Text

abbrev pub or_kept {ℓ} : {A : Type ℓ} → Option A → A → A
or_kept none a = a
or_kept (some b) a = b

abbrev pub trimmed : Option Text → Option Text
trimmed none = none
trimmed (some t) = some (trim_space t)

-- The row with the changes of the body, which is what is checked and what is written.
abbrev pub next_rule : RuleChange → ApprovalRule → ApprovalRule
next_rule req r = record r {
  min_amount = or_kept req.min_amount r.min_amount;
  required_count = or_kept req.required_count r.required_count;
  approver_role = or_kept (trimmed req.approver_role) r.approver_role;
  is_active = or_kept req.is_active r.is_active;
  note = or_kept (trimmed req.note) r.note;
}

-- `Updates(updates)` on a row: the active flag and the note only where the body has them.
abbrev pub write_rule : RuleChange → ApprovalRule → ApprovalRule → ApprovalRule
write_rule req next r = record r {
  min_amount = next.min_amount;
  required_count = next.required_count;
  approver_role = next.approver_role;
  is_active = or_kept req.is_active r.is_active;
  note = or_kept (trimmed req.note) r.note;
}

unfoldable pub save_rule : Faults → ℕ → RuleChange → ApprovalRule → Store → RuleReply × Store
save_rule down n req next s = if down Statement.update_rule then (rule_failed, s) else (
  rule_saved next,
  record s { rules = update_where (rule_is n) (write_rule req next) s.rules },
)

abbrev pub change_rule : Faults → Cache → ℕ → RuleChange → ApprovalRule → Store → RuleReply × Store
change_rule down c n req rule s = elim (validated_rule c s (next_rule req rule)) [
  | some e ↦ (e, s)
  | none ↦ save_rule down n req (next_rule req rule) s
]

abbrev pub load_rule : Faults → ℕ → Store → Option ApprovalRule
load_rule down n s = if down Statement.find_rule then none else find (rule_is n) s.rules

-- `AdminUpdateApprovalRule`
unfoldable pub admin_update_approval_rule :
    Faults → Cache → Option ℕ → Option RuleChange → Store → RuleReply × Store
admin_update_approval_rule down c none body s = (invalid_rule_id, s)
admin_update_approval_rule down c (some n) body s = elim (load_rule down n s) [
  | none ↦ (rule_not_found, s)
  | some rule ↦ elim body [
    | none ↦ (invalid_rule_body, s)
    | some req ↦ change_rule down c n req rule s
  ]
]
