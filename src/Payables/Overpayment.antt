-- ===== src/Payables/Overpayment.antt =====
-- How far the settlements of an expense may exceed it, over any sequence of requests.
use arcus_invest_backend.Base.{
  ℕ, ◌*◌, ◌≡◌, refl, inl, inr, pos, ◌+ℤ◌, ◌≤ℤ◌, ltb_ℤ, eqb_ℤ, ◌&&◌, not, Option, none, some, List,
  [], ◌∷◌, length, find, find-All, any, All, All-map, Bool-cases, Option-cases,
}
use arcus_invest_backend.Base.Tables.{
  found-update, update-DistinctKeys, delete-All, delete-DistinctKeys,
}
use arcus_invest_backend.Approvals.Types.{Faults, Caller, expense_record, expense_settle}
use arcus_invest_backend.Approvals.Types as Rows
use arcus_invest_backend.Approvals.Gate.{Verdict, proceed, blocked, failed, gate}
use arcus_invest_backend.Payables.Expenses.{Expense, gross, settled}
use arcus_invest_backend.Payables.Handlers.{
  Books, ExpenseRequest, ExpenseReply, validate_expense, expense_is, rewrite, pay, SettleRequest,
  settle_error, gated, add_expense, change_expense, update_row, with_row, delete_row,
  add_settlement, settle_row, actor, ask_for, nil_id, admin_create_expense, admin_update_expense,
  admin_delete_expense, admin_settle_expense,
}
use arcus_invest_backend.Payables.Fairness.{
  IsFair, IsOrderly, new-IsFair, pay-IsFair, rewrite-IsFair, validated-nonneg,
}

gated-IsOrderly :
    (v : Verdict × Rows.Store) (act : Books → ExpenseReply × Books) (s : Books)
    → IsOrderly s
    → ((a : Rows.Store) → IsOrderly (act (record s { approvals = a })).1)
    → IsOrderly (gated v act s).1
gated-IsOrderly (proceed, a) act s h f = f a
gated-IsOrderly (blocked r, a) act s h f = record { keys = h.keys; fair = h.fair }
gated-IsOrderly (failed, a) act s h f = record { keys = h.keys; fair = h.fair }

with_row-IsOrderly :
    (path : Option ℕ) (act : ℕ → Expense → Books → ExpenseReply × Books) (s : Books)
    → IsOrderly s
    → ((n : ℕ) (row : Expense)
        → find (expense_is n) s.expenses ≡ some row
        → IsOrderly (act n row s).1)
    → IsOrderly (with_row path act s).1
with_row-IsOrderly none act s h f = h
with_row-IsOrderly (some n) act s h f = elim (Option-cases (find (expense_is n) s.expenses)) [
  | inl e ↦ rw (e, with_row) h
  | inr (row, e) ↦ rw (e, with_row) (f n row e)
]

add_expense-IsOrderly :
    (now id : ℕ) (r : ExpenseRequest) (who : Caller) (s : Books)
    → pos 0 ≤ℤ r.net_amount +ℤ r.vat_amount
    → IsOrderly s
    → IsOrderly (add_expense now id r who s).1
add_expense-IsOrderly now id r who s new h = elim (Bool-cases (any (expense_is id) s.expenses)) [
  | inl e ↦ rw (e, add_expense) h
  | inr e ↦
      rw (e, add_expense)
        (record { keys = (e, h.keys); fair = (new-IsFair now id r (actor who s) new, h.fair) })
]

create-IsOrderly :
    (down : Faults) (now approval id : ℕ) (who : Caller) (body : Option ExpenseRequest) (s : Books)
    → IsOrderly s
    → IsOrderly (admin_create_expense down now approval id who body s).1
unfolding admin_create_expense
create-IsOrderly down now approval id who none s h = h
create-IsOrderly down now approval id who (some r) s h = elim (Option-cases (validate_expense r)) [
  | inr (x, e) ↦ rw (e, admin_create_expense) h
  | inl e ↦
      rw (e, admin_create_expense)
        (gated-IsOrderly
          (gate down now approval (ask_for expense_record nil_id (r.net_amount +ℤ r.vat_amount)) who
            s.approvals)
          (add_expense now id r who) s h
          (λ a.
            add_expense-IsOrderly now id r who (record s { approvals = a }) (validated-nonneg r e)
              (record { keys = h.keys; fair = h.fair })))
]

change-IsOrderly :
    (n : ℕ) (r : ExpenseRequest) (row : Expense) (s : Books)
    → find (expense_is n) s.expenses ≡ some row
    → validate_expense r ≡ none
    → IsOrderly s
    → IsOrderly (change_expense n r row s).1
change-IsOrderly n r row s found valid h =
    elim (Bool-cases
      (ltb_ℤ (pos 0) (settled row) && not (eqb_ℤ (r.net_amount +ℤ r.vat_amount) (gross row)))) [
        | inl e ↦ rw (e, change_expense) h
        | inr e ↦
            rw (e, change_expense)
              (record {
                keys =
                    update-DistinctKeys (λ x. x.id) (expense_is n) (rewrite r) s.expenses
                      (λ x. refl) h.keys;
                fair =
                    found-update (λ x. x.id) IsFair n (rewrite r) s.expenses h.keys found
                      (rewrite-IsFair r row (validated-nonneg r valid) e
                        (find-All IsFair (expense_is n) s.expenses found h.fair))
                      h.fair;
              })
      ]

update_row-IsOrderly :
    (n : ℕ) (body : Option ExpenseRequest) (row : Expense) (s : Books)
    → find (expense_is n) s.expenses ≡ some row
    → IsOrderly s
    → IsOrderly (update_row n body row s).1
update_row-IsOrderly n none row s found h = h
update_row-IsOrderly n (some r) row s found h = elim (Option-cases (validate_expense r)) [
  | inr (x, e) ↦ rw (e, update_row) h
  | inl e ↦ rw (e, update_row) (change-IsOrderly n r row s found e h)
]

delete_row-IsOrderly :
    (n : ℕ) (row : Expense) (s : Books) → IsOrderly s → IsOrderly (delete_row n row s).1
delete_row-IsOrderly n row s h = elim (Bool-cases (ltb_ℤ (pos 0) (settled row))) [
  | inl e ↦ rw (e, delete_row) h
  | inr e ↦
      rw (e, delete_row)
        (record {
          keys = delete-DistinctKeys (λ x. x.id) (expense_is n) s.expenses h.keys;
          fair = delete-All (λ x. x.id) IsFair (expense_is n) s.expenses h.fair;
        })
]

settle_row-IsOrderly :
    (down : Faults) (now approval : ℕ) (who : Caller) (body : Option SettleRequest) (n : ℕ)
    (row : Expense) (s : Books)
    → find (expense_is n) s.expenses ≡ some row
    → IsOrderly s
    → IsOrderly (settle_row down now approval who body n row s).1
settle_row-IsOrderly down now approval who none n row s found h = h
settle_row-IsOrderly down now approval who (some r) n row s found h =
    elim (Option-cases (settle_error r row)) [
      | inr (x, e) ↦ rw (e, settle_row) h
      | inl e ↦
          rw (e, settle_row)
            (gated-IsOrderly
              (gate down now approval (ask_for expense_settle row.id r.amount) who s.approvals)
              (add_settlement now r who n row) s h
              (λ a. record {
                keys =
                    update-DistinctKeys (λ x. x.id) (expense_is n) (pay _) s.expenses (λ x. refl)
                      h.keys;
                fair =
                    found-update (λ x. x.id) IsFair n (pay _) s.expenses h.keys found
                      (pay-IsFair r _ row e refl
                        (find-All IsFair (expense_is n) s.expenses found h.fair))
                      h.fair;
              }))
    ]

-- The requests that write expenses.
pub data ExpenseCall : Type 0 where
  create :
      (down : Faults) (now approval id : ℕ) (who : Caller) (body : Option ExpenseRequest)
      → ExpenseCall
  update : (path : Option ℕ) (body : Option ExpenseRequest) → ExpenseCall
  delete : (path : Option ℕ) → ExpenseCall
  settle :
      (down : Faults) (now approval : ℕ) (who : Caller) (path : Option ℕ)
      (body : Option SettleRequest)
      → ExpenseCall

unfoldable pub answer : ExpenseCall → Books → Books
answer (create down now approval id who body) s =
    (admin_create_expense down now approval id who body s).1
answer (update path body) s = (admin_update_expense path body s).1
answer (delete path) s = (admin_delete_expense path s).1
answer (settle down now approval who path body) s =
    (admin_settle_expense down now approval who path body s).1

unfoldable pub answer_all : List ExpenseCall → Books → Books
answer_all [] s = s
answer_all (c ∷ cs) s = answer_all cs (answer c s)

answer-IsOrderly : (c : ExpenseCall) (s : Books) → IsOrderly s → IsOrderly (answer c s)
unfolding answer admin_update_expense admin_delete_expense admin_settle_expense
answer-IsOrderly (create down now approval id who body) s h =
    create-IsOrderly down now approval id who body s h
answer-IsOrderly (update path body) s h =
    with_row-IsOrderly path (λ n row. update_row n body row) s h
      (λ n row found. update_row-IsOrderly n body row s found h)
answer-IsOrderly (delete path) s h =
    with_row-IsOrderly path delete_row s h (λ n row found. delete_row-IsOrderly n row s h)
answer-IsOrderly (settle down now approval who path body) s h =
    with_row-IsOrderly path (settle_row down now approval who body) s h
      (λ n row found. settle_row-IsOrderly down now approval who body n row s found h)

answer_all-IsOrderly :
    (cs : List ExpenseCall) (s : Books) → IsOrderly s → IsOrderly (answer_all cs s)
unfolding answer_all
answer_all-IsOrderly [] s h = h
answer_all-IsOrderly (c ∷ cs) s h = answer_all-IsOrderly cs (answer c s) (answer-IsOrderly c s h)

-- From no expenses, and whatever the tables of the approval engine hold: after any sequence of
-- requests to create, edit, delete and settle expenses, each granted or refused, what was paid on
-- an expense exceeds it by at most half a ngwee for each payment made.
pub overpayment_bounded :
    (approvals : Rows.Store) (cs : List ExpenseCall)
    → All
        (λ e. settled e ≤ℤ gross e +ℤ pos (5000 * length e.settlements))
        (answer_all cs (record { approvals = approvals; expenses = [] })).expenses
overpayment_bounded approvals cs =
    let h =
      answer_all-IsOrderly cs (record { approvals = approvals; expenses = [] })
        (record { keys = tt; fair = tt }) in
    All-map (answer_all cs (record { approvals = approvals; expenses = [] })).expenses
      (λ e f. f.bounded) h.fair
