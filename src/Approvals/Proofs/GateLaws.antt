-- ===== src/Approvals/Proofs/GateLaws.antt =====
-- The rule that governs an action, and when the gate lets a covered action proceed.
use mathlib.Core.Path.{subst}
use arcus_invest_backend.Base.{
  ℕ, ◌≡◌, refl, ℤ, ◌≤ℤ◌, Bool, true, false, Option, none, some, List, [], ◌∷◌, arith, inl, inr, ◌⊎◌,
  find, All, All-map, Bool-cases, Option-cases, if◌then◌else◌,
}
use arcus_invest_backend.Base.Text.{Text, text_eq}
use arcus_invest_backend.Approvals.Types.{
  ApprovalRule, ApprovalRequest, Store, Statement, Faults, Caller, anonymous, garbled, user,
  is_approved, is_rejected, is_consumed,
}
use arcus_invest_backend.Approvals.Queries.{
  match_rule, covers, prefer, precedes, is_open_for, consume_rows, rows_consumed, consumable,
}
use arcus_invest_backend.Approvals.Gate.{
  Ask, Verdict, proceed, blocked, raise, consume, raised, after_consume, gate_covered, known_gate,
  gate,
}
use arcus_invest_backend.Approvals.Sound.{IsSound}
use arcus_invest_backend.Approvals.Proofs.Spent.{
  IsSpent, find-by_id, rows_consumed_lem, consume-IsSpent,
}

-- What governs an action at an amount.
abbrev pub Governs : Text → ℤ → List ApprovalRule → ApprovalRule → Type 0
Governs action amount rs r =
    (covers action amount r ≡ true)
    × All (λ q. covers action amount q ≡ true → q.min_amount ≤ℤ r.min_amount) rs

abbrev Matches : Text → ℤ → List ApprovalRule → Option ApprovalRule → Type 0
Matches action amount rs none = All (λ q. covers action amount q ≡ false) rs
Matches action amount rs (some r) = Governs action amount rs r

prefer_found :
    (x r : ApprovalRule)
    → precedes r x ≡ true
    → ◌≡◌ {A = Option ApprovalRule} (some r) (prefer x (some r))
prefer_found x r e = ground arith

prefer_new :
    (x r : ApprovalRule)
    → precedes r x ≡ false
    → ◌≡◌ {A = Option ApprovalRule} (some x) (prefer x (some r))
prefer_new x r e = ground arith

prefer-Matches :
    (action : Text) (amount : ℤ) (x : ApprovalRule) (rs : List ApprovalRule)
    (o : Option ApprovalRule)
    → covers action amount x ≡ true
    → Matches action amount rs o
    → Matches action amount (x ∷ rs) (prefer x o)
prefer-Matches action amount x rs none c m =
    (c, ((λ e. omega arith), All-map rs (λ q no e. absurd (ground arith)) m))
prefer-Matches action amount x rs (some r) c m = elim (Bool-cases (precedes r x)) [
  | inl e ↦
      subst (Matches action amount (x ∷ rs)) (prefer_found x r e) (m.0, ((λ w. ground arith), m.1))
  | inr e ↦
      subst (Matches action amount (x ∷ rs)) (prefer_new x r e)
        (c, ((λ w. omega arith), All-map rs (λ q le w. ground (arith, le w)) m.1))
]

skip_lem :
    (action : Text) (amount : ℤ) (x : ApprovalRule) (rs : List ApprovalRule)
    (o : Option ApprovalRule)
    → covers action amount x ≡ false
    → Matches action amount rs o
    → Matches action amount (x ∷ rs) o
skip_lem action amount x rs none c m = (c, m)
skip_lem action amount x rs (some r) c m = (m.0, ((λ w. absurd (ground arith)), m.1))

match_rule-Matches :
    (action : Text) (amount : ℤ) (rs : List ApprovalRule)
    → Matches action amount rs (match_rule action amount rs)
unfolding match_rule
match_rule-Matches action amount [] = tt
match_rule-Matches action amount (x ∷ rs) = elim (Bool-cases (covers action amount x)) [
  | inl e ↦ rw e (
      prefer-Matches action amount x rs (match_rule action amount rs) e
        (match_rule-Matches action amount rs))
  | inr e ↦ rw e (
      skip_lem action amount x rs (match_rule action amount rs) e
        (match_rule-Matches action amount rs))
]

-- Every rule that covers the action and the amount has a threshold no higher than the rule's.
abbrev pub IsHighest : Text → ℤ → List ApprovalRule → ApprovalRule → Type 0
IsHighest action amount rs r =
    (covers action amount r ≡ true)
    × All (λ q. (covers action amount q ≡ false) ⊎ (q.min_amount ≤ℤ r.min_amount)) rs

Governs-IsHighest :
    (action : Text) (amount : ℤ) (rs : List ApprovalRule) (r : ApprovalRule)
    → Governs action amount rs r
    → IsHighest action amount rs r
Governs-IsHighest action amount rs r h = (
  h.0,
  All-map rs
      (λ q f. elim (Bool-cases (covers action amount q)) [ inl e ↦ inr (f e) | inr e ↦ inl e ]) h.1,
)

-- The rule that is found covers the action, and no rule that covers it has a higher floor; where
-- none is found, no rule covers the action.
pub match_rule-IsHighest :
    (action : Text) (amount : ℤ) (rs : List ApprovalRule)
    → ((match_rule action amount rs ≡ none) × All (λ q. covers action amount q ≡ false) rs)
      ⊎ ((r : ApprovalRule) × (match_rule action amount rs ≡ some r) × IsHighest action amount rs r)
match_rule-IsHighest action amount rs =
    go (match_rule action amount rs) refl (match_rule-Matches action amount rs)
  where
    go :
        (o : Option ApprovalRule)
        → match_rule action amount rs ≡ o
        → Matches action amount rs o
        → ((match_rule action amount rs ≡ none) × All (λ q. covers action amount q ≡ false) rs)
          ⊎ ((r : ApprovalRule) × (match_rule action amount rs ≡ some r)
              × IsHighest action amount rs r)
    go none e m = inl (e, m)
    go (some r) e m = inr (r, e, Governs-IsHighest action amount rs r m)

-- The approval that the gate has spent.
pub record Spending (ask : Ask) (who : Caller) (s t : Store) : Type 0 where
  pub row : ApprovalRequest
  pub found : find (is_open_for ask.action ask.entity_id who) s.requests ≡ some row
  pub approved : is_approved row.status ≡ true
  pub covered : ask.amount ≤ℤ row.amount
  pub spent : IsSpent row.id t

pub raised_not_proceed : (m : Option ApprovalRequest × Store) → (raised m).0 ≡ proceed → ⊥
raised_not_proceed (none, s) h = cc
raised_not_proceed (some r, s) h = cc

pub after_consume-proceed :
    (m : Option Bool × Store) (again : Store → Option ApprovalRequest × Store)
    → (after_consume m again).0 ≡ proceed
    → (m.0 ≡ some true) × ((after_consume m again).1 ≡ m.1)
after_consume-proceed (none, t) again h = cc
after_consume-proceed (some true, t) again h = (refl, refl)
after_consume-proceed (some false, t) again h = absurd (raised_not_proceed (again t) h)

abbrev IfProceeds : Ask → Caller → Store → Verdict × Store → Type 0
IfProceeds ask who s m = m.0 ≡ proceed → Spending ask who s m.1

raised-IfProceeds :
    (ask : Ask) (who : Caller) (s : Store) (m : Option ApprovalRequest × Store)
    → IfProceeds ask who s (raised m)
raised-IfProceeds ask who s m e = absurd (raised_not_proceed m e)

spending-IfProceeds :
    (down : Faults) (now : ℕ) (ask : Ask) (who : Caller) (s : Store) (r : ApprovalRequest)
    (again : Store → Option ApprovalRequest × Store)
    → IsSound s
    → find (is_open_for ask.action ask.entity_id who) s.requests ≡ some r
    → is_approved r.status ≡ true
    → IfProceeds ask who s (after_consume (consume down now r ask.amount s) again)
spending-IfProceeds down now ask who s r again h found approved e =
    let (done, same) = after_consume-proceed (consume down now r ask.amount s) again e in
    let by_id =
      find-by_id (is_open_for ask.action ask.entity_id who) s.requests {r = r} h.distinct found in
    let (spent, covered) = consume-IsSpent down now r ask.amount s h by_id done in
    record { row = r; found = found; approved = approved; covered = covered; spent = rw same spent }

gate_covered-IfProceeds :
    (down : Faults) (now id : ℕ) (rule : ApprovalRule) (ask : Ask) (who : Caller) (s : Store)
    → IsSound s
    → IfProceeds ask who s (gate_covered down now id rule ask who s)
unfolding gate_covered
gate_covered-IfProceeds down now id rule ask who s h =
    elim (Bool-cases (down Statement.find_request)) [
      | inl e ↦ rw e (λ p. cc)
      | inr e ↦ elim (Option-cases (find (is_open_for ask.action ask.entity_id who) s.requests)) [
        | inl n ↦ rw (e, n) (raised-IfProceeds ask who s (raise down id rule ask who s))
        | inr (r, f) ↦ elim (Bool-cases (is_approved r.status)) [
          | inl a ↦
              rw (e, f, a)
                (spending-IfProceeds down now ask who s r (raise down id rule ask who) h f a)
          | inr a ↦ rw (e, f, a) (λ p. cc)
        ]
      ]
    ]

known_gate-IfProceeds :
    (down : Faults) (now id : ℕ) (rule : ApprovalRule) (ask : Ask) (who : Caller) (s : Store)
    → IsSound s
    → IfProceeds ask who s (known_gate down now id rule ask who s)
known_gate-IfProceeds down now id rule ask anonymous s h = λ p. cc
known_gate-IfProceeds down now id rule ask garbled s h =
    gate_covered-IfProceeds down now id rule ask garbled s h
known_gate-IfProceeds down now id rule ask (user n) s h =
    gate_covered-IfProceeds down now id rule ask (user n) s h

-- In sound tables, and whatever statements the database fails, the gate lets an action that a rule
-- covers proceed only by spending the newest live request of the same caller for the same action
-- on the same entity, which was approved, for at least the amount of the action.
pub gate_proceeds :
    (down : Faults) (now id : ℕ) (rule : ApprovalRule) (ask : Ask) (who : Caller) (s : Store)
    → IsSound s
    → match_rule ask.action ask.amount s.rules ≡ some rule
    → (gate down now id ask who s).0 ≡ proceed
    → Spending ask who s (gate down now id ask who s).1
unfolding gate
gate_proceeds down now id rule ask who s h m = elim (Bool-cases (down Statement.find_rule)) [
  | inl e ↦ rw e (λ p. cc)
  | inr e ↦ rw (e, m) (known_gate-IfProceeds down now id rule ask who s h)
]

consumes_now :
    (now : ℕ) (r : ApprovalRequest) (amount : ℤ) (s : Store)
    → rows_consumed r.id amount s ≡ (if consumable r.id amount r then 1 else 0)
    → is_approved r.status ≡ true
    → amount ≤ℤ r.amount
    → consume (λ _. false) now r amount s ≡ (some true, consume_rows now r.id amount s)
unfolding consume
consumes_now now r amount s one approved covered = ground arith

-- In sound tables, where the database answers, a rule covers the action, and the newest live
-- request of the caller for the action on the entity is approved for at least the amount, the gate
-- lets the action proceed and spends it.
pub gate_approved_proceeds :
    (now id n : ℕ) (rule : ApprovalRule) (ask : Ask) (s : Store) {r : ApprovalRequest}
    → IsSound s
    → match_rule ask.action ask.amount s.rules ≡ some rule
    → find (is_open_for ask.action ask.entity_id (user n)) s.requests ≡ some r
    → is_approved r.status ≡ true
    → ask.amount ≤ℤ r.amount
    → gate (λ _. false) now id ask (user n) s ≡ (proceed, consume_rows now r.id ask.amount s)
unfolding gate gate_covered
gate_approved_proceeds now id n rule ask s {r} h m f a covered =
    let by_id =
      find-by_id (is_open_for ask.action ask.entity_id (user n)) s.requests {r = r} h.distinct f in
    let one = rows_consumed_lem r.id ask.amount s.requests {r = r} h.distinct by_id in
    rw (m, f, a, consumes_now now r ask.amount s one a covered)

-- A refusal outlives the approval that answered its resubmission: where the database answers and a
-- rule covers the action, the newest request of all has been consumed, and the one before it is a
-- rejected one of the caller for the action on the entity, the gate refuses with the rejected one
-- and changes nothing.
pub gate_stale_rejection :
    (now id n : ℕ) (rule : ApprovalRule) (ask : Ask) (s : Store) (spent refused : ApprovalRequest)
    (older : List ApprovalRequest)
    → s.requests ≡ spent ∷ refused ∷ older
    → match_rule ask.action ask.amount s.rules ≡ some rule
    → is_consumed spent.status ≡ true
    → is_rejected refused.status ≡ true
    → text_eq refused.action ask.action ≡ true
    → refused.entity_id ≡ ask.entity_id
    → refused.requester_id ≡ some n
    → gate (λ _. false) now id ask (user n) s ≡ (blocked refused, s)
unfolding gate gate_covered
gate_stale_rejection now id n rule ask s spent refused older rows m c j action entity who =
    rw (m, rows) (ground arith)
