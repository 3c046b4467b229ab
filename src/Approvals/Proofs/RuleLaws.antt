-- ===== src/Approvals/Proofs/RuleLaws.antt =====
-- What the administration of rules keeps: rules that can be satisfied, and requests as they are.
use arcus_invest_backend.Base.{
  ℕ, ◌≡◌, refl, pos, ltb_ℤ, true, false, Option, none, some, List, any, All, update_where-All,
  arith, Bool-cases, Option-cases, inl, inr,
}
use arcus_invest_backend.Base.Text.{Text, codes, text_eq}
use arcus_invest_backend.Authz.Grants.{update}
use arcus_invest_backend.Authz.Cache.{Cache, can}
use arcus_invest_backend.Approvals.Types.{ApprovalRule, Store, Statement, Faults}
use arcus_invest_backend.Approvals.Rules.{
  RuleReply, is_approval_action, validate_rule, NewRule, rule_of, rule_is, insert_rule,
  validated_rule, admin_create_approval_rule, RuleChange, next_rule, write_rule, save_rule,
  change_rule, load_rule, admin_update_approval_rule,
}

-- A rule that someone can satisfy: a gated action, an amount that is not negative, at least one
-- approval, and a role that exists and may decide approvals.
pub record IsReleasable (c : Cache) (roles : List Text) (r : ApprovalRule) : Type 0 where
  pub gated : is_approval_action r.action ≡ true
  pub amount : ltb_ℤ r.min_amount (pos 0) ≡ false
  pub counted : ltb_ℤ r.required_count (pos 1) ≡ false
  pub role : any (λ n. text_eq n r.approver_role) roles ≡ true
  pub powers : can c r.approver_role (codes "approvals") update ≡ true

validated-IsReleasable :
    (c : Cache) (s : Store) (r : ApprovalRule)
    → validated_rule c s r ≡ none
    → IsReleasable c s.roles r
unfolding validate_rule
validated-IsReleasable c s r h = record {
  gated = ground arith;
  amount = ground arith;
  counted = ground arith;
  role = ground arith;
  powers = ground arith;
}

-- Every rule is releasable, and the requests are those of before.
pub record Administered (c : Cache) (s : Store) (m : RuleReply × Store) : Type 0 where
  pub releasable : All (IsReleasable c s.roles) m.1.rules
  pub requests : m.1.requests ≡ s.requests
  pub decisions : m.1.decisions ≡ s.decisions

same_rules :
    (c : Cache) (s : Store) (e : RuleReply)
    → All (IsReleasable c s.roles) s.rules
    → Administered c s (e, s)
same_rules c s e h = record { releasable = h; requests = refl; decisions = refl }

insert_rule-Administered :
    (down : Faults) (c : Cache) (r : ApprovalRule) (s : Store)
    → IsReleasable c s.roles r
    → All (IsReleasable c s.roles) s.rules
    → Administered c s (insert_rule down r s)
unfolding insert_rule
insert_rule-Administered down c r s ok h = elim (Bool-cases (down Statement.create_rule)) [
  | inl e ↦ rw (e, insert_rule) (same_rules c s RuleReply.rule_failed h)
  | inr e ↦ elim (Bool-cases (any (rule_is r.id) s.rules)) [
    | inl f ↦ rw (e, insert_rule) (rw f (same_rules c s RuleReply.rule_failed h))
    | inr f ↦
        rw (e, insert_rule)
          (rw f (record { releasable = (ok, h); requests = refl; decisions = refl }))
  ]
]

create-Administered :
    (down : Faults) (c : Cache) (id : ℕ) (body : Option NewRule) (s : Store)
    → All (IsReleasable c s.roles) s.rules
    → Administered c s (admin_create_approval_rule down c id body s)
unfolding admin_create_approval_rule
create-Administered down c id none s h = same_rules c s RuleReply.invalid_rule_body h
create-Administered down c id (some req) s h =
    elim (Option-cases (validated_rule c s (rule_of id req))) [
      | inr (x, e) ↦ rw (e, admin_create_approval_rule) (same_rules c s x h)
      | inl e ↦
          rw (e, admin_create_approval_rule)
            (insert_rule-Administered down c (rule_of id req) s
              (validated-IsReleasable c s (rule_of id req) e) h)
    ]

save_rule-Administered :
    (down : Faults) (c : Cache) (n : ℕ) (req : RuleChange) (next : ApprovalRule) (s : Store)
    → IsReleasable c s.roles next
    → All (IsReleasable c s.roles) s.rules
    → Administered c s (save_rule down n req next s)
unfolding save_rule
save_rule-Administered down c n req next s ok h = elim (Bool-cases (down Statement.update_rule)) [
  | inl e ↦ rw (e, save_rule) (same_rules c s RuleReply.rule_failed h)
  | inr e ↦
      rw (e, save_rule)
        (record {
          releasable =
              update_where-All (IsReleasable c s.roles) (rule_is n) (write_rule req next) s.rules
                (λ r chosen old. record {
                  gated = old.gated;
                  amount = ok.amount;
                  counted = ok.counted;
                  role = ok.role;
                  powers = ok.powers;
                })
                h;
          requests = refl;
          decisions = refl;
        })
]

change-Administered :
    (down : Faults) (c : Cache) (n : ℕ) (req : RuleChange) (rule : ApprovalRule) (s : Store)
    → All (IsReleasable c s.roles) s.rules
    → Administered c s (change_rule down c n req rule s)
change-Administered down c n req rule s h =
    elim (Option-cases (validated_rule c s (next_rule req rule))) [
      | inr (x, e) ↦ rw (e, change_rule) (same_rules c s x h)
      | inl e ↦
          rw (e, change_rule)
            (save_rule-Administered down c n req (next_rule req rule) s
              (validated-IsReleasable c s (next_rule req rule) e) h)
    ]

update-Administered :
    (down : Faults) (c : Cache) (path : Option ℕ) (body : Option RuleChange) (s : Store)
    → All (IsReleasable c s.roles) s.rules
    → Administered c s (admin_update_approval_rule down c path body s)
unfolding admin_update_approval_rule
update-Administered down c none body s h = same_rules c s RuleReply.invalid_rule_id h
update-Administered down c (some n) body s h = elim (Option-cases (load_rule down n s)) [
  | inl e ↦ rw (e, admin_update_approval_rule) (same_rules c s RuleReply.rule_not_found h)
  | inr (rule, e) ↦ rw (e, admin_update_approval_rule) (go body rule)
]
  where
    go :
        (o : Option RuleChange) (rule : ApprovalRule)
        → Administered c s (elim o as (λ x. RuleReply × Store) [
          | none ↦ (RuleReply.invalid_rule_body, s)
          | some req ↦ change_rule down c n req rule s
        ])
    go none rule = same_rules c s RuleReply.invalid_rule_body h
    go (some req) rule = change-Administered down c n req rule s h

-- Where every rule has a gated action, an amount not below zero, at least one approval, and an
-- existing role that may decide approvals, creating and updating a rule each leave only such rules,
-- whatever statements the database fails, and leave the requests and the votes as they were.
pub rules-Administered :
    (down : Faults) (c : Cache) (id : ℕ) (path : Option ℕ) (new : Option NewRule)
    (change : Option RuleChange) (s : Store)
    → All (IsReleasable c s.roles) s.rules
    → Administered c s (admin_create_approval_rule down c id new s)
      × Administered c s (admin_update_approval_rule down c path change s)
rules-Administered down c id path new change s h =
    (create-Administered down c id new s h, update-Administered down c path change s h)
