-- ===== src/LandedCost/Refine.antt =====
-- `ApportionNgwee` and the reference on plain numbers, while no product leaves int64.
use arcus_invest_backend.Base.{
  ℕ, zero, suc, ◌+◌, ◌-◌, ◌*◌, ◌≤◌, ◌<◌, ◌==◌, ◌≡◌, refl, ap, ◌∙◌, ℤ, pos, negsuc, neg_ℤ, List, [],
  ◌∷◌, arith, length, All, if◌then◌else◌,
}
use arcus_invest_backend.Base.Int.{◌+ℤ◌}
use arcus_invest_backend.Base.Words.{half_word, add64, quot64, add64-pos, mul64-pos, wrap64}
use arcus_invest_backend.LandedCost.Spread.{
  Slot, ok, total_weight, floor_shares, placed_from, insert_slot, sort_slots, increment, hand_out,
}
use arcus_invest_backend.LandedCost.Reference.{sum, floors, bump, give, occurs}

-- Plain numbers as int64 values.
abbrev pub embed : List ℕ → List ℤ
embed [] = []
embed (x ∷ xs) = pos x ∷ embed xs

abbrev pub indices : List Slot → List ℕ
indices [] = []
indices (s ∷ ss) = s.index ∷ indices ss

pub sub64-pos : (a b : ℕ) → b ≤ a → a < half_word → add64 (pos a) (neg_ℤ (pos b)) ≡ pos (a - b)
unfolding add64 ◌+ℤ◌ wrap64
sub64-pos a b h k = ground arith

pub total_weight-pos :
    (acc : ℕ) (ws : List ℕ)
    → acc + sum ws < half_word
    → total_weight (pos acc) (embed ws) ≡ ok (pos (acc + sum ws))
unfolding total_weight
total_weight-pos acc [] h = ground arith
total_weight-pos acc (w ∷ ws) h = ground (arith, add64-pos acc w, total_weight-pos (acc + w) ws)

pub placed_from-pos :
    (acc : ℕ) (xs : List ℕ)
    → acc + sum xs < half_word
    → placed_from (pos acc) (embed xs) ≡ pos (acc + sum xs)
unfolding placed_from
placed_from-pos acc [] h = ground arith
placed_from-pos acc (x ∷ xs) h = ground (arith, add64-pos acc x, placed_from-pos (acc + x) xs)

pub floor_shares-pos :
    (t W : ℕ) (ws : List ℕ)
    → t * sum ws < half_word
    → floor_shares (pos t) (pos W) (embed ws) ≡ embed (floors t W ws)
unfolding floor_shares quot64
floor_shares-pos t W [] h = refl
floor_shares-pos t W (w ∷ ws) h =
    rw (mul64-pos t w (grind arith), floor_shares-pos t W ws (grind arith))

increment-pos :
    (i : ℕ) (xs : List ℕ)
    → All (λ x. x + 1 < half_word) xs
    → increment i (embed xs) ≡ embed (bump i xs)
unfolding increment
increment-pos i [] h = refl
increment-pos zero (x ∷ xs) h = ground (arith, add64-pos x 1)
increment-pos (suc i) (x ∷ xs) h = rw (increment-pos i xs h.1)

abbrev pub HasRoom : ℕ → List ℕ → Type 0
HasRoom l xs = All (λ x. x + l < half_word) xs

HasRoom-weaken : (l : ℕ) (xs : List ℕ) → HasRoom (suc l) xs → HasRoom l xs
HasRoom-weaken l [] h = tt
HasRoom-weaken l (x ∷ xs) h = (omega (arith, h.0), HasRoom-weaken l xs h.1)

HasRoom-one : (l : ℕ) (xs : List ℕ) → HasRoom (suc l) xs → HasRoom 1 xs
HasRoom-one l [] h = tt
HasRoom-one l (x ∷ xs) h = (omega (arith, h.0), HasRoom-one l xs h.1)

HasRoom-bump : (l i : ℕ) (xs : List ℕ) → HasRoom (suc l) xs → HasRoom l (bump i xs)
HasRoom-bump l i [] h = tt
HasRoom-bump l zero (x ∷ xs) h = (omega (arith, h.0), HasRoom-weaken l xs h.1)
HasRoom-bump l (suc i) (x ∷ xs) h = (omega (arith, h.0), HasRoom-bump l i xs h.1)

one_less : (l : ℕ) → suc l < half_word → add64 (pos (suc l)) (negsuc 0) ≡ pos l
one_less l k = sub64-pos (suc l) 1 (omega arith) k ∙ ap pos (omega arith)

pub hand_out-pos :
    (l : ℕ) (ss : List Slot) (xs : List ℕ)
    → l < half_word
    → HasRoom l xs
    → hand_out (pos l) ss (embed xs) ≡ embed (give l (indices ss) xs)
unfolding hand_out
hand_out-pos zero [] xs k h = refl
hand_out-pos (suc l) [] xs k h = refl
hand_out-pos zero (s ∷ ss) xs k h = refl
hand_out-pos (suc l) (s ∷ ss) xs k h = ground (
  arith,
  increment-pos s.index xs (HasRoom-one l xs h),
  hand_out-pos l ss (bump s.index xs) (omega arith) (HasRoom-bump l s.index xs h),
  one_less l k,
)

insert_slot-length :
    (x : Slot) (ys : List Slot) → length (indices (insert_slot x ys)) ≡ suc (length (indices ys))
unfolding insert_slot
insert_slot-length x [] = refl
insert_slot-length x (y ∷ ys) = ground (arith, insert_slot-length x ys)

pub sort_slots-length : (xs : List Slot) → length (indices (sort_slots xs)) ≡ length (indices xs)
unfolding sort_slots
sort_slots-length [] = refl
sort_slots-length (x ∷ xs) =
    omega (arith, insert_slot-length x (sort_slots xs), sort_slots-length xs)

insert_slot-occurs :
    (k : ℕ) (x : Slot) (ys : List Slot)
    → occurs k (indices (insert_slot x ys))
      ≡ (if x.index == k then 1 else 0) + occurs k (indices ys)
unfolding insert_slot
insert_slot-occurs k x [] = refl
insert_slot-occurs k x (y ∷ ys) = ground (arith, insert_slot-occurs k x ys)

pub sort_slots-occurs :
    (k : ℕ) (xs : List Slot) → occurs k (indices (sort_slots xs)) ≡ occurs k (indices xs)
unfolding sort_slots
sort_slots-occurs k [] = refl
sort_slots-occurs k (x ∷ xs) =
    omega (arith, insert_slot-occurs k x (sort_slots xs), sort_slots-occurs k xs)
