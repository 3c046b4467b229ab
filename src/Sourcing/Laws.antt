-- ===== src/Sourcing/Laws.antt =====
-- What settles a sourcing request, and which quotation is marked the cheapest.
use arcus_invest_backend.Base.{
  ℕ, ◌≡◌, ◌↔◌, ◌⊎◌, inl, inr, refl, ap, pos, ◌≤ℤ◌, ltb_ℤ, true, false, Option, none, some, List, [],
  ◌∷◌, ◌++◌, arith, find, length, All, Bool-cases, Option-cases,
}
use arcus_invest_backend.Base.Text.{Text, is_empty}
use arcus_invest_backend.Sourcing.Selection.{
  SupplierQuote, amount_zmw, SourcingPolicy, quote_is, validate_winner, validate_selection,
  cheapest_from, cheapest_quote,
}

-- Whether the policy lets a decision stand on the quotations for the winner.
abbrev pub IsSettled : SourcingPolicy → List SupplierQuote → Text → SupplierQuote → Type 0
IsSettled p quotes single winner =
    (ltb_ℤ (amount_zmw winner) p.min_amount_zmw ≡ true)
    ⊎ ((p.min_quotes ≤ℤ pos (length quotes))
        ⊎ ((p.allow_single_source ≡ true) × (is_empty single ≡ false)))

validate_winner_iff :
    (p : SourcingPolicy) (quotes : List SupplierQuote) (single : Text) (winner : SupplierQuote)
    → (validate_winner p quotes single winner ≡ none) ↔ IsSettled p quotes single winner
validate_winner_iff p quotes single winner = ground arith

some_lem : {x y : SupplierQuote} → ◌≡◌ {A = Option SupplierQuote} (some x) (some y) → x ≡ y
some_lem h = ground arith

-- A selection is accepted exactly when it has a reason, its quotation is on the request, and the
-- winner is below the policy's amount, or the quotations are enough, or one source is allowed and
-- has a reason.
pub validate_selection_iff :
    (p : SourcingPolicy) (quotes : List SupplierQuote) (selected : ℕ) (reason single : Text)
    → (validate_selection p quotes selected reason single ≡ none) ↔ (
        (is_empty reason ≡ false)
        × (winner : SupplierQuote) × (find (quote_is selected) quotes ≡ some winner)
        × IsSettled p quotes single winner)
unfolding validate_selection
validate_selection_iff p quotes selected reason single = elim (Bool-cases (is_empty reason)) [
  | inl r ↦ (λ h. ground arith, λ k. ground arith)
  | inr r ↦ elim (Option-cases (find (quote_is selected) quotes)) [
    | inl e ↦ (λ h. ground arith, λ k. ground arith)
    | inr (w, e) ↦ (
      λ h. (
        r,
        w,
        e,
        (validate_winner_iff p quotes single w).0 (rw e at (rw (r, validate_selection) at h)),
      ),
      λ k. rw (r, validate_selection) (rw k.2 ((validate_winner_iff p quotes single k.1).1 k.3)),
    )
  ]
]

-- The first of the cheapest: dearer ones before it, none cheaper after it.
pub record IsCheapest (quotes : List SupplierQuote) (q : SupplierQuote) : Type 0 where
  pub before : List SupplierQuote
  pub after : List SupplierQuote
  pub place : quotes ≡ before ++ q ∷ after
  pub dearer : All (λ x. ltb_ℤ (amount_zmw q) (amount_zmw x) ≡ true) before
  pub no_cheaper : All (λ x. ltb_ℤ (amount_zmw x) (amount_zmw q) ≡ false) after

cheapest_le :
    (q : SupplierQuote) (qs : List SupplierQuote)
    → ltb_ℤ (amount_zmw q) (amount_zmw (cheapest_from q qs)) ≡ false
unfolding cheapest_from
cheapest_le q [] = ground arith
cheapest_le q (x ∷ qs) = ground (arith, cheapest_le q qs, cheapest_le x qs)

cons_lem :
    {x y : SupplierQuote} {xs ys : List SupplierQuote} → x ∷ xs ≡ y ∷ ys → (x ≡ y) × (xs ≡ ys)
cons_lem h = ground arith

-- A quotation that is no cheaper than the one in front of it changes nothing.
pass_over :
    (best q r : SupplierQuote) (qs before after : List SupplierQuote)
    → ltb_ℤ (amount_zmw q) (amount_zmw best) ≡ false
    → best ∷ qs ≡ before ++ r ∷ after
    → All (λ x. ltb_ℤ (amount_zmw r) (amount_zmw x) ≡ true) before
    → All (λ x. ltb_ℤ (amount_zmw x) (amount_zmw r) ≡ false) after
    → IsCheapest (best ∷ q ∷ qs) r
pass_over best q r qs [] after e place dearer rest = record {
  before = [];
  after = q ∷ after;
  place = rw ((cons_lem place).0, (cons_lem place).1) refl;
  dearer = tt;
  no_cheaper = (rw (cons_lem place).0 at e, rest);
}
pass_over best q r qs (x ∷ before) after e place dearer rest = record {
  before = best ∷ q ∷ before;
  after = after;
  place = rw (cons_lem place).1 refl;
  dearer = let d = rw (← (cons_lem place).0) at dearer.0 in (d, (ground (arith, d), dearer.1));
  no_cheaper = rest;
}

cheapest_from-IsCheapest :
    (best : SupplierQuote) (qs : List SupplierQuote)
    → IsCheapest (best ∷ qs) (cheapest_from best qs)
unfolding cheapest_from
cheapest_from-IsCheapest best [] = record {
  before = [];
  after = [];
  place = refl;
  dearer = tt;
  no_cheaper = tt;
}
cheapest_from-IsCheapest best (q ∷ qs) =
    elim (Bool-cases (ltb_ℤ (amount_zmw q) (amount_zmw best))) [
      | inl e ↦
          let h = cheapest_from-IsCheapest q qs in
          rw (e, cheapest_from)
            (record {
              before = best ∷ h.before;
              after = h.after;
              place = ap (λ x. best ∷ x) h.place;
              dearer = (ground (arith, cheapest_le q qs), h.dearer);
              no_cheaper = h.no_cheaper;
            })
      | inr e ↦
          let h = cheapest_from-IsCheapest best qs in
          rw (e, cheapest_from)
            (pass_over best q (cheapest_from best qs) qs h.before h.after e h.place h.dearer
              h.no_cheaper)
    ]

-- Of at least one quotation one is marked: those before it are dearer, and none after it is cheaper.
pub cheapest_quote-IsCheapest :
    (q : SupplierQuote) (qs : List SupplierQuote)
    → (r : SupplierQuote) × (cheapest_quote (q ∷ qs) ≡ some r) × IsCheapest (q ∷ qs) r
unfolding cheapest_quote
cheapest_quote-IsCheapest q qs = (cheapest_from q qs, refl, cheapest_from-IsCheapest q qs)
