-- ===== src/Reports/Sums.antt =====
-- Sums over the rows of a report: in any order, by band, and against what the rows were made from.
use mathlib.Core.List.{Permᴰ}
use arcus_invest_backend.Base.{
  ℕ, ◌≡◌, refl, sym, ◌∙◌, inl, inr, ℤ, pos, ◌+ℤ◌, ◌-ℤ◌, ◌≤ℤ◌, leb_ℤ, true, List, [], ◌∷◌, arith,
  int_laws, +ℤ_parts, if◌then◌else◌, Bool-cases, eq_of_parts,
}
use arcus_invest_backend.Base.Text.{Text, text_eq}
use arcus_invest_backend.Payables.Expenses.{Expense, outstanding, reclaimable_vat}
use arcus_invest_backend.Reports.Ageing.{
  AgeBand, current, from_30, from_60, from_90, same_band, total_owed, band_total,
}
use arcus_invest_backend.Reports.Receivables.{
  Opportunity, Payment, ReceivableRow, is_billed, owed_on, receivable_row, receivable_rows,
  invoiced_total, paid_total,
}
use arcus_invest_backend.Reports.Receivables as Receivables
use arcus_invest_backend.Reports.Position.{
  payable_rows, add_spend, spend_by_category, recoverable_vat, sunk_vat,
}

plus_swap : (a b r : ℤ) → a +ℤ (b +ℤ r) ≡ b +ℤ (a +ℤ r)
plus_swap a b r = omega int_laws

module _ {A : Type 0} (owed : A → ℤ) where
  pub total_owed-perm : {xs ys : List A} → Permᴰ xs ys → total_owed owed xs ≡ total_owed owed ys
  unfolding total_owed
  total_owed-perm Permᴰ.nil = refl
  total_owed-perm (Permᴰ.cons e d) = rw (e, total_owed-perm d) refl
  total_owed-perm (Permᴰ.swap {a = a} {b = b} {l = l} e f) =
      rw (sym e, sym f) (plus_swap (owed a) (owed b) (total_owed owed l))
  total_owed-perm (Permᴰ.trans d e) = total_owed-perm d ∙ total_owed-perm e

abbrev part : AgeBand → AgeBand → ℤ → ℤ → ℤ
part b c x rest = if same_band b c then x +ℤ rest else rest

four_bands :
    (c : AgeBand) (x p q r s t : ℤ)
    → p +ℤ q +ℤ r +ℤ s ≡ t
    → part current c x p +ℤ part from_30 c x q +ℤ part from_60 c x r +ℤ part from_90 c x s ≡ x +ℤ t
four_bands current x p q r s t h = rw (sym h) (omega int_laws)
four_bands from_30 x p q r s t h = rw (sym h) (omega int_laws)
four_bands from_60 x p q r s t h = rw (sym h) (omega int_laws)
four_bands from_90 x p q r s t h = rw (sym h) (omega int_laws)

-- The four bands of a report add up to its total.
pub bands_total :
    {A : Type 0} (owed : A → ℤ) (band : A → AgeBand) (rs : List A)
    → band_total owed band current rs
        +ℤ band_total owed band from_30 rs
        +ℤ band_total owed band from_60 rs
        +ℤ band_total owed band from_90 rs
      ≡ total_owed owed rs
unfolding total_owed band_total
bands_total owed band [] = omega int_laws
bands_total owed band (r ∷ rs) =
    four_bands (band r) (owed r) (band_total owed band current rs) (band_total owed band from_30 rs)
      (band_total owed band from_60 rs) (band_total owed band from_90 rs) (total_owed owed rs)
      (bands_total owed band rs)

-- A row that owes nothing adds nothing.
owes_nothing : (x t : ℤ) → pos 0 ≤ℤ x → leb_ℤ x (pos 0) ≡ true → t ≡ x +ℤ t
owes_nothing x t h e = ground (arith, +ℤ_parts x t, eq_of_parts t (x +ℤ t))

-- What all expenses still owe.
pub owed_by_all : List Expense → ℤ
owed_by_all [] = pos 0
owed_by_all (e ∷ es) = outstanding e +ℤ owed_by_all es

outstanding_nonneg : (e : Expense) → pos 0 ≤ℤ outstanding e
unfolding outstanding
outstanding_nonneg e = ground arith

pub payable_rows-total :
    (now : ℕ) (es : List Expense)
    → total_owed (λ r. r.outstanding) (payable_rows now es) ≡ owed_by_all es
unfolding total_owed payable_rows owed_by_all
payable_rows-total now [] = refl
payable_rows-total now (e ∷ es) = elim (Bool-cases (leb_ℤ (outstanding e) (pos 0))) [
  | inl c ↦ rw c (
      payable_rows-total now es
      ∙ owes_nothing (outstanding e) (owed_by_all es) (outstanding_nonneg e) c)
  | inr c ↦ rw (c, payable_rows-total now es) refl
]

-- What all billed deals still owe.
pub owed_on_all : List Payment → List Opportunity → ℤ
owed_on_all ps [] = pos 0
owed_on_all ps (o ∷ os) =
    let rest = owed_on_all ps os in if is_billed o then owed_on ps o +ℤ rest else rest

deal_nonneg : (o : Opportunity) (ps : List Payment) → pos 0 ≤ℤ Receivables.outstanding o ps
unfolding Receivables.outstanding
deal_nonneg o ps = ground arith

pub receivable_rows-total :
    (now : ℕ) (ps : List Payment) (os : List Opportunity)
    → total_owed (λ r. r.outstanding) (receivable_rows now ps os) ≡ owed_on_all ps os
unfolding total_owed receivable_rows owed_on_all
receivable_rows-total now ps [] = refl
receivable_rows-total now ps (o ∷ os) = elim (Bool-cases (is_billed o)) [
  | inr b ↦ rw b (receivable_rows-total now ps os)
  | inl b ↦ elim (Bool-cases (leb_ℤ (owed_on ps o) (pos 0))) [
    | inl c ↦
        rw (b, c)
          (receivable_rows-total now ps os
            ∙ owes_nothing (owed_on ps o) (owed_on_all ps os) (deal_nonneg o _) c)
    | inr c ↦ rw (b, c, receivable_rows-total now ps os) refl
  ]
]

pub total_vat : List Expense → ℤ
total_vat [] = pos 0
total_vat (e ∷ es) = e.vat_amount +ℤ total_vat es

split_vat : (v r a b t : ℤ) → a +ℤ b ≡ t → (r +ℤ a) +ℤ ((v -ℤ r) +ℤ b) ≡ v +ℤ t
split_vat v r a b t h = rw (sym h) (omega int_laws)

pub vat_split : (es : List Expense) → recoverable_vat es +ℤ sunk_vat es ≡ total_vat es
unfolding recoverable_vat sunk_vat total_vat
vat_split [] = omega int_laws
vat_split (e ∷ es) =
    split_vat e.vat_amount (reclaimable_vat e) (recoverable_vat es) (sunk_vat es) (total_vat es)
      (vat_split es)

pub total_net : List Expense → ℤ
total_net [] = pos 0
total_net (e ∷ es) = e.net_amount +ℤ total_net es

pub sum_spend : List (Text × ℤ) → ℤ
sum_spend [] = pos 0
sum_spend ((c, n) ∷ es) = n +ℤ sum_spend es

plus_assoc : (a b c : ℤ) → (a +ℤ b) +ℤ c ≡ a +ℤ (b +ℤ c)
plus_assoc a b c = omega int_laws

sum_spend-add :
    (c : Text) (n : ℤ) (es : List (Text × ℤ)) → sum_spend (add_spend c n es) ≡ n +ℤ sum_spend es
unfolding add_spend sum_spend
sum_spend-add c n [] = refl
sum_spend-add c n ((k, m) ∷ es) = elim (Bool-cases (text_eq k c)) [
  | inl e ↦ rw e (plus_assoc n m (sum_spend es))
  | inr e ↦ rw (e, sum_spend-add c n es) (plus_swap m n (sum_spend es))
]

pub spend_total : (es : List Expense) → sum_spend (spend_by_category es) ≡ total_net es
unfolding spend_by_category sum_spend total_net
spend_total [] = refl
spend_total (e ∷ es) =
    sum_spend-add e.category e.net_amount (spend_by_category es) ∙ rw (spend_total es) refl
