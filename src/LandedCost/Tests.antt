-- ===== src/LandedCost/Tests.antt =====
-- Runs of the apportionment.
use arcus_invest_backend.Base.{
  ℕ, ◌+◌, ◌*◌, ◌≤◌, ◌<◌, All, ◌≡◌, refl, ℤ, pos, negsuc, arith, List, [], ◌∷◌,
}
use arcus_invest_backend.Base.Int.{◌+ℤ◌, ◌*ℤ◌}
use arcus_invest_backend.Base.Words.{add64, mul64, quot64, rem64, wrap64}
use arcus_invest_backend.LandedCost.Spread.{
  ok, err, apportion_ngwee, total_weight, floor_shares, slots_from, placed_from, insert_slot,
  sort_slots, increment, hand_out, spread, spread_by,
}
use arcus_invest_backend.Base.Text.{text_eq}
use arcus_invest_backend.LandedCost.Spread.{negative_weight}
use arcus_invest_backend.LandedCost.Refine.{embed}
use arcus_invest_backend.LandedCost.Shares.{Apportioned, counted}
use arcus_invest_backend.LandedCost.Exact.{apportion_exact, apportion_refuses_negative}
use arcus_invest_backend.LandedCost.Receipt.{
  LineBasisWeight, basis_weights, basis_weight_of, basis_value, apportion_receipt, sum_shares,
  IsWholeNgwee, receipt_exact,
}

thirds : apportion_ngwee (pos 100) (pos 1 ∷ pos 1 ∷ pos 1 ∷ []) ≡ ok (pos 34 ∷ pos 33 ∷ pos 33 ∷ [])
unfolding apportion_ngwee total_weight floor_shares slots_from placed_from insert_slot sort_slots
    increment hand_out spread spread_by add64 mul64 quot64 rem64 wrap64 ◌+ℤ◌ ◌*ℤ◌
thirds = refl

-- Freight of K10,000,000 over goods of K100,000,000 and of 1 ngwee: the product leaves int64, and
-- the shares no longer add up to the charge.
overflows :
    apportion_ngwee (pos 1000000000) (pos 10000000000 ∷ pos 1 ∷ [])
    ≡ ok (negsuc 844674405 ∷ pos 1 ∷ [])
unfolding apportion_ngwee total_weight floor_shares slots_from placed_from insert_slot sort_slots
    increment hand_out spread spread_by add64 mul64 quot64 rem64 wrap64 ◌+ℤ◌ ◌*ℤ◌
overflows = refl

apportion_exact_example :
    (out : List ℕ) × (apportion_ngwee (pos 100) (embed (1 ∷ 1 ∷ 1 ∷ [])) ≡ ok (embed out))
    × Apportioned 100 (counted (1 ∷ 1 ∷ 1 ∷ [])) out
apportion_exact_example = apportion_exact 100 1 (1 ∷ 1 ∷ []) (omega arith)

apportion_refuses_negative_example :
    apportion_ngwee (pos 100) (pos 3 ∷ negsuc 0 ∷ []) ≡ err negative_weight
apportion_refuses_negative_example =
    apportion_refuses_negative (pos 100) (pos 3 ∷ negsuc 0 ∷ []) refl refl

abbrev two_lines : List LineBasisWeight
two_lines =
    record { value_ngwee = pos 300; quantity = pos 2; weight_grams = pos 10 }
    ∷ record { value_ngwee = pos 500; quantity = pos 1; weight_grams = pos 20 }
    ∷ []

by_value : basis_weights basis_value two_lines ≡ ok (embed (300 ∷ 500 ∷ []))
unfolding basis_weights basis_weight_of text_eq
by_value = refl

receipt_exact_example :
    (shares : List ℤ) × (ngwee : ℕ) × (apportion_receipt basis_value (pos 1000000) two_lines
      ≡ ok shares)
    × All IsWholeNgwee shares
    × (sum_shares shares ≡ pos (ngwee * 10000))
    × (ngwee * 10000 ≤ 1000000 + 5000)
    × (1000000 < ngwee * 10000 + 5000)
receipt_exact_example =
    receipt_exact basis_value 1000000 300 (500 ∷ []) two_lines by_value (omega arith)
