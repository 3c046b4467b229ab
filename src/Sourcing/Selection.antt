-- ===== src/Sourcing/Selection.antt =====
-- `ActiveSourcingPolicy`, `ValidateSelection` and `CheapestQuote`. An amount in kwacha is the product
-- of an amount and a rate, each in its own fixed unit; policies are listed newest first.
use arcus_invest_backend.Base.{
  ℕ, ◌==◌, ℤ, pos, ◌*ℤ◌, ltb_ℤ, leb_ℤ, Bool, true, Option, none, some, List, [], ◌∷◌, find, length,
  if◌then◌else◌,
}
use arcus_invest_backend.Base.Text.{Text, is_empty}

pub record SupplierQuote : Type 0 where
  pub id : ℕ
  pub amount : ℤ
  pub exchange_rate : ℤ

-- `AmountZMW`
unfoldable pub amount_zmw : SupplierQuote → ℤ
amount_zmw q = q.amount *ℤ q.exchange_rate

pub record SourcingPolicy : Type 0 where
  pub min_quotes : ℤ
  pub min_amount_zmw : ℤ
  pub allow_single_source : Bool
  pub is_active : Bool

abbrev pub default_sourcing_policy : SourcingPolicy
default_sourcing_policy = record {
  min_quotes = pos 1;
  min_amount_zmw = pos 0;
  allow_single_source = true;
  is_active = true;
}

-- `ActiveSourcingPolicy`, over the rows of the query or `none` for an error.
unfoldable pub active_sourcing_policy : Option (List SourcingPolicy) → SourcingPolicy
active_sourcing_policy none = default_sourcing_policy
active_sourcing_policy (some ps) = elim (find (λ p. p.is_active) ps) [
  | none ↦ default_sourcing_policy
  | some p ↦ p
]

pub data SelectionError : Type 0 where
  too_few_quotes single_source_reason_required selection_reason_required quote_not_on_request :
      SelectionError

abbrev pub quote_is : ℕ → SupplierQuote → Bool
quote_is n q = q.id == n

-- The rules once the winner is known.
abbrev pub validate_winner :
    SourcingPolicy → List SupplierQuote → Text → SupplierQuote → Option SelectionError
validate_winner p quotes single winner =
    if ltb_ℤ (amount_zmw winner) p.min_amount_zmw
    then none
    else (if leb_ℤ p.min_quotes (pos (length quotes))
        then none
        else (if p.allow_single_source
            then (if is_empty single then some single_source_reason_required else none)
            else some too_few_quotes))

unfoldable pub validate_selection :
    SourcingPolicy → List SupplierQuote → ℕ → Text → Text → Option SelectionError
validate_selection p quotes selected reason single =
    if is_empty reason
    then some selection_reason_required
    else elim (find (quote_is selected) quotes) [
      | none ↦ some quote_not_on_request
      | some winner ↦ validate_winner p quotes single winner
    ]

-- The loop of `CheapestQuote` from the first quotation on.
unfoldable pub cheapest_from : SupplierQuote → List SupplierQuote → SupplierQuote
cheapest_from best [] = best
cheapest_from best (q ∷ qs) =
    if ltb_ℤ (amount_zmw q) (amount_zmw best) then cheapest_from q qs else cheapest_from best qs

unfoldable pub cheapest_quote : List SupplierQuote → Option SupplierQuote
cheapest_quote [] = none
cheapest_quote (q ∷ qs) = some (cheapest_from q qs)
