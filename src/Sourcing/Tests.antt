-- ===== src/Sourcing/Tests.antt =====
-- Two quotations under a policy that wants three.
use arcus_invest_backend.Base.{◌≡◌, ◌↔◌, pos, true, false, none, some, [], ◌∷◌, find}
use arcus_invest_backend.Base.Text.{codes, is_empty}
use arcus_invest_backend.Sourcing.Selection.{
  SupplierQuote, SourcingPolicy, quote_is, validate_selection, cheapest_quote,
}
use arcus_invest_backend.Sourcing.Laws.{
  IsSettled, validate_selection_iff, IsCheapest, cheapest_quote-IsCheapest,
}

abbrev dear : SupplierQuote
dear = record { id = 1; amount = pos 90; exchange_rate = pos 2 }

abbrev cheap : SupplierQuote
cheap = record { id = 2; amount = pos 100; exchange_rate = pos 1 }

abbrev three_quotes : SourcingPolicy
three_quotes = record {
  min_quotes = pos 3;
  min_amount_zmw = pos 50;
  allow_single_source = true;
  is_active = true;
}

validate_selection_iff_example :
    (validate_selection three_quotes (dear ∷ cheap ∷ []) 2 (codes "price") (codes "sole agent")
      ≡ none)
    ↔ ((is_empty (codes "price") ≡ false)
        × (winner : SupplierQuote) × (find (quote_is 2) (dear ∷ cheap ∷ []) ≡ some winner)
        × IsSettled three_quotes (dear ∷ cheap ∷ []) (codes "sole agent") winner)
validate_selection_iff_example =
    validate_selection_iff three_quotes (dear ∷ cheap ∷ []) 2 (codes "price") (codes "sole agent")

cheapest_quote-IsCheapest_example :
    (r : SupplierQuote) × (cheapest_quote (dear ∷ cheap ∷ []) ≡ some r)
    × IsCheapest (dear ∷ cheap ∷ []) r
cheapest_quote-IsCheapest_example = cheapest_quote-IsCheapest dear (cheap ∷ [])
