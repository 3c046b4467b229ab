-- ===== src/Approvals/Proofs/Conserved.antt =====
-- Actions that are let through against approvals that are spent.
use arcus_invest_backend.Base.{
  ℕ, ◌+◌, ◌≤◌, ◌≡◌, refl, ℤ, Bool, true, false, ◌&&◌, Option, some, List, [], ◌∷◌, arith, inl, inr,
  find, count, is_some, Bool-cases, Option-cases, if◌then◌else◌,
}
use arcus_invest_backend.Approvals.Types.{
  ApprovalRule, ApprovalRequest, Store, Statement, Faults, Caller, anonymous, garbled, user,
  is_approved,
}
use arcus_invest_backend.Approvals.Queries.{match_rule, is_open_for, consumable, consume_rows}
use arcus_invest_backend.Approvals.Gate.{
  Ask, Verdict, proceed, blocked, failed, consume, raise, after_consume, raised, gate_covered,
  known_gate,
}
use arcus_invest_backend.Approvals.Gate as Gate
use arcus_invest_backend.Approvals.Sound.{IsSound, start}
use arcus_invest_backend.Approvals.Proofs.Invariant.{Reach-IsSound, start-IsSound}
use arcus_invest_backend.Approvals.Proofs.Spent.{find-by_id, rows_consumed_lem, consumed_one}
use arcus_invest_backend.Approvals.Proofs.GateLaws.{after_consume-proceed, raised_not_proceed}
use arcus_invest_backend.Approvals.Proofs.Handlers.{
  DeskCall, gate, approve, reject, resubmit, edit, answer, answer_all, answer-Reach,
}
use arcus_invest_backend.Approvals.Proofs.Consumed.{consumed, count-spend, Reach-consumed}

-- Where the action proceeds, one more request has been consumed.
abbrev Counted : Store → Verdict × Store → Type 0
Counted s m = m.0 ≡ proceed → 1 + consumed s ≤ consumed m.1

consume_counted :
    (down : Faults) (now : ℕ) (r : ApprovalRequest) (amount : ℤ) (s : Store)
    → count (consumable r.id amount) s.requests ≡ (if consumable r.id amount r then 1 else 0)
    → (consume down now r amount s).0 ≡ some true
    → 1 + consumed s ≤ consumed (consume down now r amount s).1
unfolding consume consume_rows
consume_counted down now r amount s one done =
    let (live, taken) = consumed_one down now r amount s one done in
    rw live (omega (arith, count-spend r.id now amount s.requests, rw taken at one))

spending-Counted :
    (down : Faults) (now : ℕ) (ask : Ask) (who : Caller) (s : Store) (r : ApprovalRequest)
    (again : Store → Option ApprovalRequest × Store)
    → IsSound s
    → find (is_open_for ask.action ask.entity_id who) s.requests ≡ some r
    → Counted s (after_consume (consume down now r ask.amount s) again)
spending-Counted down now ask who s r again h found e =
    let (done, same) = after_consume-proceed (consume down now r ask.amount s) again e in
    let by_id =
      find-by_id (is_open_for ask.action ask.entity_id who) s.requests {r = r} h.distinct found in
    let one = rows_consumed_lem r.id ask.amount s.requests {r = r} h.distinct by_id in
    rw same (consume_counted down now r ask.amount s one done)

gate_covered-Counted :
    (down : Faults) (now id : ℕ) (rule : ApprovalRule) (ask : Ask) (who : Caller) (s : Store)
    → IsSound s
    → Counted s (gate_covered down now id rule ask who s)
unfolding gate_covered
gate_covered-Counted down now id rule ask who s h =
    elim (Bool-cases (down Statement.find_request)) [
      | inl e ↦ rw e (λ p. cc)
      | inr e ↦ elim (Option-cases (find (is_open_for ask.action ask.entity_id who) s.requests)) [
        | inl n ↦ rw (e, n) (λ p. absurd (raised_not_proceed (raise down id rule ask who s) p))
        | inr (r, f) ↦ elim (Bool-cases (is_approved r.status)) [
          | inl a ↦
              rw (e, f, a) (spending-Counted down now ask who s r (raise down id rule ask who) h f)
          | inr a ↦ rw (e, f, a) (λ p. cc)
        ]
      ]
    ]

known_gate-Counted :
    (down : Faults) (now id : ℕ) (rule : ApprovalRule) (ask : Ask) (who : Caller) (s : Store)
    → IsSound s
    → Counted s (known_gate down now id rule ask who s)
known_gate-Counted down now id rule ask anonymous s h = λ p. cc
known_gate-Counted down now id rule ask garbled s h =
    gate_covered-Counted down now id rule ask garbled s h
known_gate-Counted down now id rule ask (user n) s h =
    gate_covered-Counted down now id rule ask (user n) s h

gate-Counted :
    (down : Faults) (now id : ℕ) (rule : ApprovalRule) (ask : Ask) (who : Caller) (s : Store)
    → IsSound s
    → match_rule ask.action ask.amount s.rules ≡ some rule
    → Counted s (Gate.gate down now id ask who s)
unfolding Gate.gate
gate-Counted down now id rule ask who s h m = elim (Bool-cases (down Statement.find_rule)) [
  | inl e ↦ rw e (λ p. cc)
  | inr e ↦ rw (e, m) (known_gate-Counted down now id rule ask who s h)
]

abbrev is_proceed : Verdict → Bool
is_proceed proceed = true
is_proceed (blocked r) = false
is_proceed failed = false

-- Whether a call is one of the gate that lets an action through although a rule covers it.
abbrev pub passes_covered : DeskCall → Store → Bool
passes_covered (gate down now id ask who) s =
    is_some (match_rule ask.action ask.amount s.rules)
    && is_proceed (Gate.gate down now id ask who s).0
passes_covered (approve down now path who reason) s = false
passes_covered (reject down now path who body) s = false
passes_covered (resubmit down id path who summary) s = false
passes_covered (edit rules users roles) s = false

-- How many calls of a sequence are such calls.
unfoldable pub passes : List DeskCall → Store → ℕ
passes [] s = 0
passes (c ∷ cs) s =
    let rest = passes cs (answer c s) in (if passes_covered c s then 1 else 0) + rest

is_proceed_sound : (v : Verdict) → is_proceed v ≡ true → v ≡ proceed
is_proceed_sound proceed h = refl
is_proceed_sound (blocked r) h = absurd (ground arith)
is_proceed_sound failed h = absurd (ground arith)

passed-Counted :
    (c : DeskCall) (s : Store)
    → IsSound s
    → passes_covered c s ≡ true
    → 1 + consumed s ≤ consumed (answer c s)
unfolding answer
passed-Counted (gate down now id ask who) s h p =
    elim (Option-cases (match_rule ask.action ask.amount s.rules)) [
      | inl n ↦ absurd (ground arith)
      | inr (rule, m) ↦
          gate-Counted down now id rule ask who s h m (is_proceed_sound _ (ground arith))
    ]
passed-Counted (approve down now path who reason) s h p = absurd (ground arith)
passed-Counted (reject down now path who body) s h p = absurd (ground arith)
passed-Counted (resubmit down id path who summary) s h p = absurd (ground arith)
passed-Counted (edit rules users roles) s h p = absurd (ground arith)

passes_from :
    (cs : List DeskCall) (s : Store)
    → IsSound s
    → passes cs s + consumed s ≤ consumed (answer_all cs s)
unfolding passes answer_all
passes_from [] s h = omega arith
passes_from (c ∷ cs) s h =
    let rest = passes_from cs (answer c s) (Reach-IsSound h (answer-Reach c s)) in
    elim (Bool-cases (passes_covered c s)) [
      | inl e ↦ rw e (omega (arith, rest, passed-Counted c s h e))
      | inr e ↦ rw e (omega (arith, rest, Reach-consumed (answer-Reach c s)))
    ]

-- Over any sequence of calls of the gate and of the approve, reject and resubmit handlers, by
-- whomever and with whatever failures of the statements, between edits of the rules, the users and
-- the roles, from empty tables: the gate lets no more actions through that a rule covers than there
-- are requests in the end that have been consumed.
pub passes_bounded : (cs : List DeskCall) → passes cs start ≤ consumed (answer_all cs start)
passes_bounded cs = omega (arith, passes_from cs start start-IsSound)
