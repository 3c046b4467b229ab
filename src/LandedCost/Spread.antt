-- ===== src/LandedCost/Spread.antt =====
-- `ApportionNgwee`, on int64 arithmetic that wraps around.
use arcus_invest_backend.Base.{
  ℕ, zero, suc, ◌+◌, ℤ, pos, negsuc, ltb_ℤ, eqb_ℤ, neg_ℤ, List, [], ◌∷◌, length, if◌then◌else◌,
}
use arcus_invest_backend.Base.Words.{add64, mul64, quot64, rem64}

-- The errors of the package.
pub data ApportionError : Type 0 where
  no_lines_to_apportion negative_apportionment negative_weight unknown_basis : ApportionError

pub data Result (A : Type 0) : Type 0 where
  ok : A → Result A
  err : ApportionError → Result A

pub record Slot : Type 0 where
  pub index : ℕ
  pub remainder : ℤ

-- The loop that adds up the weights and refuses a negative one.
unfoldable pub total_weight : ℤ → List ℤ → Result ℤ
total_weight acc [] = ok acc
total_weight acc (w ∷ ws) =
    let rest = total_weight (add64 acc w) ws in
    if ltb_ℤ w (pos 0) then err negative_weight else rest

-- The floor share of each weight.
unfoldable pub floor_shares : ℤ → ℤ → List ℤ → List ℤ
floor_shares total weight [] = []
floor_shares total weight (w ∷ ws) = quot64 (mul64 total w) weight ∷ floor_shares total weight ws

unfoldable pub slots_from : ℕ → ℤ → ℤ → List ℤ → List Slot
slots_from i total weight [] = []
slots_from i total weight (w ∷ ws) =
    record { index = i; remainder = rem64 (mul64 total w) weight }
    ∷ slots_from (i + 1) total weight ws

unfoldable pub placed_from : ℤ → List ℤ → ℤ
placed_from acc [] = acc
placed_from acc (s ∷ ss) = placed_from (add64 acc s) ss

-- `sort.SliceStable` by falling remainder: of equal remainders the earlier slot stays first.
unfoldable pub insert_slot : Slot → List Slot → List Slot
insert_slot x [] = x ∷ []
insert_slot x (y ∷ ys) = if ltb_ℤ x.remainder y.remainder then y ∷ insert_slot x ys else x ∷ y ∷ ys

unfoldable pub sort_slots : List Slot → List Slot
sort_slots [] = []
sort_slots (x ∷ xs) = insert_slot x (sort_slots xs)

-- `out[i]++`
unfoldable pub increment : ℕ → List ℤ → List ℤ
increment i [] = []
increment zero (x ∷ xs) = add64 x (pos 1) ∷ xs
increment (suc i) (x ∷ xs) = x ∷ increment i xs

-- The loop that hands out what is left, one ngwee to a slot.
unfoldable pub hand_out : ℤ → List Slot → List ℤ → List ℤ
hand_out left [] out = out
hand_out left (s ∷ ss) out =
    let rest = hand_out (add64 left (negsuc 0)) ss (increment s.index out) in
    if ltb_ℤ (pos 0) left then rest else out

unfoldable pub spread : ℤ → ℤ → List ℤ → List ℤ
spread total weight weights =
    let out = floor_shares total weight weights in
    let left = add64 total (neg_ℤ (placed_from (pos 0) out)) in
    hand_out left (sort_slots (slots_from 0 total weight weights)) out

-- As many entries as there are weights, each the same.
abbrev pub filled : ℤ → List ℤ → List ℤ
filled v [] = []
filled v (w ∷ ws) = v ∷ filled v ws

-- Where every weight is zero each counts as one.
unfoldable pub spread_by : ℤ → List ℤ → Result ℤ → Result (List ℤ)
spread_by total weights (err e) = err e
spread_by total weights (ok weight) =
    if eqb_ℤ weight (pos 0)
    then ok (spread total (pos (length weights)) (filled (pos 1) weights))
    else ok (spread total weight weights)

unfoldable pub apportion_ngwee : ℤ → List ℤ → Result (List ℤ)
apportion_ngwee total [] = err no_lines_to_apportion
apportion_ngwee total (w ∷ ws) =
    if ltb_ℤ total (pos 0)
    then err negative_apportionment
    else (if eqb_ℤ total (pos 0)
        then ok (filled (pos 0) (w ∷ ws))
        else spread_by total (w ∷ ws) (total_weight (pos 0) (w ∷ ws)))
