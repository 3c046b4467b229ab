-- ===== src/Reports/Ageing.antt =====
-- `AgeBucket`, and the totals of an aged report. Times are in seconds.
use arcus_invest_backend.Base.{
  ℕ, ◌-◌, ◌/◌, leb, ℤ, pos, ◌+ℤ◌, Bool, true, false, Option, none, some, List, [], ◌∷◌,
  if◌then◌else◌,
}

pub data AgeBand : Type 0 where
  current from_30 from_60 from_90 : AgeBand

-- The whole days since, where a time to come gives none.
unfoldable pub days_since : ℕ → ℕ → ℕ
days_since from now = (now - from) / 86400

unfoldable pub age_bucket : Option ℕ → ℕ → AgeBand
age_bucket none now = current
age_bucket (some from) now =
    let days = days_since from now in
    if leb 90 days
    then from_90
    else (if leb 60 days then from_60 else (if leb 30 days then from_30 else current))

abbrev pub same_band : AgeBand → AgeBand → Bool
same_band current current = true
same_band from_30 from_30 = true
same_band from_60 from_60 = true
same_band from_90 from_90 = true
same_band _ _ = false

-- The loop that adds up a report, over rows that owe an amount and stand in a band.
module _ {A : Type 0} (owed : A → ℤ) where
  unfoldable pub total_owed : List A → ℤ
  total_owed [] = pos 0
  total_owed (r ∷ rs) = owed r +ℤ total_owed rs

module _ {A : Type 0} (owed : A → ℤ) (band : A → AgeBand) where
  unfoldable pub band_total : AgeBand → List A → ℤ
  band_total b [] = pos 0
  band_total b (r ∷ rs) =
      let rest = band_total b rs in if same_band b (band r) then owed r +ℤ rest else rest

pub record AgedReport (A : Type 0) : Type 0 where
  pub rows : List A
  pub buckets : AgeBand → ℤ
  pub total_outstanding : ℤ
