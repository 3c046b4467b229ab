-- ===== src/Payables/Fairness.antt =====
-- What one payment and one edit leave of an expense.
use arcus_invest_backend.Base.{
  ℕ, suc, ◌*◌, ◌≡◌, ◌⊎◌, inl, inr, ℤ, pos, ◌+ℤ◌, ◌-ℤ◌, ◌≤ℤ◌, ltb_ℤ, eqb_ℤ, true, false, ◌&&◌, not,
  Option, none, List, [], ◌∷◌, arith, length, All, Bool-cases, +ℤ_parts, int_laws,
}
use arcus_invest_backend.Base.Tables.{DistinctKeys}
use arcus_invest_backend.Payables.Expenses.{
  Expense, ExpenseSettlement, gross, settled, sum_settlements, outstanding,
}
use arcus_invest_backend.Payables.Handlers.{
  Books, ExpenseRequest, validate_expense, new_expense, rewrite, pay, SettleRequest, settle_error,
}

-- Every settlement is above zero, and they exceed the expense by half a ngwee each at most.
pub record IsFair (e : Expense) : Type 0 where
  pub nonneg : pos 0 ≤ℤ gross e
  pub positive : All (λ p. pos 1 ≤ℤ p.amount) e.settlements
  pub bounded : settled e ≤ℤ gross e +ℤ pos (5000 * length e.settlements)

pub record IsOrderly (s : Books) : Type 0 where
  pub keys : DistinctKeys (λ e. e.id) s.expenses
  pub fair : All IsFair s.expenses

sum-nonneg :
    (ps : List ExpenseSettlement) → All (λ p. pos 1 ≤ℤ p.amount) ps → pos 0 ≤ℤ sum_settlements ps
unfolding sum_settlements
sum-nonneg [] h = omega arith
sum-nonneg (p ∷ ps) h =
    omega (arith, h.0, sum-nonneg ps h.1, +ℤ_parts p.amount (sum_settlements ps))

pub validated-nonneg :
    (r : ExpenseRequest) → validate_expense r ≡ none → pos 0 ≤ℤ r.net_amount +ℤ r.vat_amount
unfolding validate_expense
validated-nonneg r h = ground (arith, +ℤ_parts r.net_amount r.vat_amount)

pub new-IsFair :
    (now id : ℕ) (r : ExpenseRequest) (by : Option ℕ)
    → pos 0 ≤ℤ r.net_amount +ℤ r.vat_amount
    → IsFair (new_expense now id r by)
unfolding gross settled sum_settlements
new-IsFair now id r by h = record {
  nonneg = h;
  positive = tt;
  bounded = omega (arith, h, +ℤ_parts (r.net_amount +ℤ r.vat_amount) (pos 0));
}

-- What the checks of a settlement establish.
settle_error-none :
    (r : SettleRequest) (e : Expense)
    → settle_error r e ≡ none
    → (pos 1 ≤ℤ r.amount) × (r.amount ≤ℤ outstanding e +ℤ pos 5000)
unfolding settle_error
settle_error-none r e ok = (ground arith, ground arith)

ltb_ℤ_true : (a b : ℤ) → ltb_ℤ a b ≡ true → a +ℤ pos 1 ≤ℤ b
ltb_ℤ_true a b h = ground (arith, +ℤ_parts a (pos 1))

outstanding-cases :
    (e : Expense)
    → ((outstanding e ≤ℤ pos 0) × (gross e ≤ℤ settled e)) ⊎ (outstanding e +ℤ settled e ≤ℤ gross e)
unfolding outstanding
outstanding-cases e = elim (Bool-cases (ltb_ℤ (gross e -ℤ settled e) (pos 0))) [
  | inl c ↦ inl (rw c (omega arith, omega (int_laws, ltb_ℤ_true (gross e -ℤ settled e) (pos 0) c)))
  | inr c ↦ inr (rw c (omega int_laws))
]

bounded_lem :
    (a s o g : ℤ) (n : ℕ)
    → a ≤ℤ o +ℤ pos 5000
    → ((o ≤ℤ pos 0) × (g ≤ℤ s)) ⊎ (o +ℤ s ≤ℤ g)
    → s ≤ℤ g +ℤ pos (5000 * n)
    → a +ℤ s ≤ℤ g +ℤ pos (5000 * suc n)
bounded_lem a s o g n h (inl c) b = omega (int_laws, h, b, c.0)
bounded_lem a s o g n h (inr c) b = omega (int_laws, h, b, c)

kept_bound :
    (s g new : ℤ) (n : ℕ)
    → (ltb_ℤ (pos 0) s && not (eqb_ℤ new g)) ≡ false
    → pos 0 ≤ℤ new
    → s ≤ℤ g +ℤ pos n
    → s ≤ℤ new +ℤ pos n
kept_bound s g new n ok h b = ground (arith, +ℤ_parts g (pos n), +ℤ_parts new (pos n))

pub pay-IsFair :
    (r : SettleRequest) (p : ExpenseSettlement) (e : Expense)
    → settle_error r e ≡ none
    → p.amount ≡ r.amount
    → IsFair e
    → IsFair (pay p e)
unfolding gross settled sum_settlements
pay-IsFair r p e ok same h =
    let checked = settle_error-none r e ok in
    record {
      nonneg = h.nonneg;
      positive = (rw same checked.0, h.positive);
      bounded = rw same (
          bounded_lem r.amount (settled e) (outstanding e) (gross e) (length e.settlements)
            checked.1 (outstanding-cases e) h.bounded);
    }

pub rewrite-IsFair :
    (r : ExpenseRequest) (e : Expense)
    → pos 0 ≤ℤ r.net_amount +ℤ r.vat_amount
    → (ltb_ℤ (pos 0) (settled e) && not (eqb_ℤ (r.net_amount +ℤ r.vat_amount) (gross e))) ≡ false
    → IsFair e
    → IsFair (rewrite r e)
unfolding gross settled
rewrite-IsFair r e new ok h = record {
  nonneg = new;
  positive = h.positive;
  bounded =
      kept_bound (settled e) (gross e) (r.net_amount +ℤ r.vat_amount) (5000 * length e.settlements)
        ok new h.bounded;
}
