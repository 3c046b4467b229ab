-- ===== src/Approvals/Proofs/GateSteps.antt =====
-- Each handler runs a sequence of the statements that `Step` lists, on every branch.
use arcus_invest_backend.Base.{
  ℕ, ◌≡◌, refl, ℤ, pos, ◌≤ℤ◌, Bool, true, false, Option, none, some, arith, inl, inr, find,
  Bool-cases, Option-cases,
}
use arcus_invest_backend.Base.Text.{Text}
use arcus_invest_backend.Approvals.Types.{
  ApprovalRule, ApprovalRequest, Store, Statement, Faults, Caller, anonymous, garbled, user,
  is_pending, is_approved,
}
use arcus_invest_backend.Approvals.Queries.{match_rule, insert_request, find_user, is_open_for}
use arcus_invest_backend.Approvals.Gate.{
  Ask, at_least_one, new_request, create_request, raise, consume, gate_covered, known_gate, gate,
  full_name_of, after_consume, raised,
}
use arcus_invest_backend.Approvals.Sound.{
  IsKeyed, Reach, raise_step, consume_step, notify_step, here, next,
}

pub Reach-trans : {s t u : Store} → Reach s t → Reach t u → Reach s u
Reach-trans a here = a
Reach-trans a (next b st) = next (Reach-trans a b) st

create_request-Reach :
    (down : Faults) (r : ApprovalRequest) (s : Store)
    → is_pending r.status ≡ true
    → IsKeyed r
    → pos 1 ≤ℤ r.required_count
    → Reach s (create_request down r s).1
unfolding create_request
create_request-Reach down r s waiting keyed count =
    elim (Bool-cases (down Statement.create_request)) [
      | inl e ↦ rw e here
      | inr e ↦ elim (Option-cases (insert_request r s)) [
        | inl n ↦ rw (e, n) here
        | inr (t, i) ↦
            rw (e, i) (next (next here (raise_step s t r waiting keyed count i)) (notify_step t _))
      ]
    ]

at_least_one_lem : (n : ℤ) → pos 1 ≤ℤ at_least_one n
at_least_one_lem n = ground arith

new_request-IsKeyed :
    (id : ℕ) (rule : ApprovalRule) (ask : Ask) (n : ℕ) (name : Text)
    → IsKeyed (new_request id rule ask n name)
new_request-IsKeyed id rule ask n name = ((λ p. (n, refl, refl)), λ p. ground arith)

pub raise-Reach :
    (down : Faults) (id : ℕ) (rule : ApprovalRule) (ask : Ask) (who : Caller) (s : Store)
    → Reach s (raise down id rule ask who s).1
unfolding raise
raise-Reach down id rule ask anonymous s = here
raise-Reach down id rule ask garbled s = here
raise-Reach down id rule ask (user n) s =
    let name = full_name_of (find_user (user n) s) in
    create_request-Reach down (new_request id rule ask n name) s refl
      (new_request-IsKeyed id rule ask n name) (at_least_one_lem rule.required_count)

pub consume-Reach :
    (down : Faults) (now : ℕ) (r : ApprovalRequest) (amount : ℤ) (s : Store)
    → Reach s (consume down now r amount s).1
unfolding consume
consume-Reach down now r amount s = elim (Bool-cases (down Statement.consume_request)) [
  | inl e ↦ rw e here
  | inr e ↦ rw e (next here (consume_step s now r.id amount))
]

raised_lem : (m : Option ApprovalRequest × Store) → (raised m).1 ≡ m.1
raised_lem (none, s) = refl
raised_lem (some r, s) = refl

after_consume-Reach :
    (s : Store) (m : Option Bool × Store) (again : Store → Option ApprovalRequest × Store)
    → Reach s m.1
    → ((t : Store) → Reach t (again t).1)
    → Reach s (after_consume m again).1
after_consume-Reach s (none, t) again r more = r
after_consume-Reach s (some true, t) again r more = r
after_consume-Reach s (some false, t) again r more =
    rw (raised_lem (again t)) (Reach-trans r (more t))

gate_covered-Reach :
    (down : Faults) (now id : ℕ) (rule : ApprovalRule) (ask : Ask) (who : Caller) (s : Store)
    → Reach s (gate_covered down now id rule ask who s).1
unfolding gate_covered
gate_covered-Reach down now id rule ask who s = elim (Bool-cases (down Statement.find_request)) [
  | inl e ↦ rw e here
  | inr e ↦ elim (Option-cases (find (is_open_for ask.action ask.entity_id who) s.requests)) [
    | inl n ↦
        rw (e, n)
          (rw (raised_lem (raise down id rule ask who s)) (raise-Reach down id rule ask who s))
    | inr (r, f) ↦
        rw (e, f)
          (elim (Bool-cases (is_approved r.status)) [
            | inl a ↦ rw a (
                after_consume-Reach s (consume down now r ask.amount s) (raise down id rule ask who)
                  (consume-Reach down now r ask.amount s) (raise-Reach down id rule ask who))
            | inr a ↦ rw a here
          ])
  ]
]

gate_known :
    (down : Faults) (now id : ℕ) (rule : ApprovalRule) (ask : Ask) (who : Caller) (s : Store)
    → Reach s (known_gate down now id rule ask who s).1
gate_known down now id rule ask anonymous s = here
gate_known down now id rule ask garbled s = gate_covered-Reach down now id rule ask garbled s
gate_known down now id rule ask (user n) s = gate_covered-Reach down now id rule ask (user n) s

pub gate-Reach :
    (down : Faults) (now id : ℕ) (ask : Ask) (who : Caller) (s : Store)
    → Reach s (gate down now id ask who s).1
unfolding gate
gate-Reach down now id ask who s = elim (Bool-cases (down Statement.find_rule)) [
  | inl e ↦ rw e here
  | inr e ↦ elim (Option-cases (match_rule ask.action ask.amount s.rules)) [
    | inl n ↦ rw (e, n) here
    | inr (rule, m) ↦ rw (e, m) (gate_known down now id rule ask who s)
  ]
]
