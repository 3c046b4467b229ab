-- ===== src/LandedCost/Slots.antt =====
-- The slots of `ApportionNgwee`, before and after they are sorted.
use arcus_invest_backend.Base.{ℕ, ◌+◌, ◌≤◌, ◌<◌, ◌≡◌, refl, ℤ, List, [], ◌∷◌, arith, length, All}
use arcus_invest_backend.LandedCost.Spread.{Slot, slots_from, insert_slot, sort_slots}
use arcus_invest_backend.LandedCost.Reference.{occurs}
use arcus_invest_backend.LandedCost.Refine.{indices, sort_slots-occurs, sort_slots-length}

slots_from-length :
    (i : ℕ) (t W : ℤ) (ws : List ℤ) → length (indices (slots_from i t W ws)) ≡ length ws
unfolding slots_from
slots_from-length i t W [] = refl
slots_from-length i t W (w ∷ ws) = omega (arith, slots_from-length (i + 1) t W ws)

abbrev AllBelow : ℕ → List ℕ → Type 0
AllBelow n is = All (λ i. i < n) is

slots_from-below :
    (i n : ℕ) (t W : ℤ) (ws : List ℤ)
    → i + length ws ≤ n
    → AllBelow n (indices (slots_from i t W ws))
unfolding slots_from
slots_from-below i n t W [] h = tt
slots_from-below i n t W (w ∷ ws) h = (omega arith, slots_from-below (i + 1) n t W ws (omega arith))

insert_slot-below :
    (n : ℕ) (x : Slot) (ys : List Slot)
    → x.index < n
    → AllBelow n (indices ys)
    → AllBelow n (indices (insert_slot x ys))
unfolding insert_slot
insert_slot-below n x [] h a = (h, tt)
insert_slot-below n x (y ∷ ys) h a = ground (arith, insert_slot-below n x ys h a.1)

sort_slots-below :
    (n : ℕ) (xs : List Slot) → AllBelow n (indices xs) → AllBelow n (indices (sort_slots xs))
unfolding sort_slots
sort_slots-below n [] a = tt
sort_slots-below n (x ∷ xs) a =
    insert_slot-below n x (sort_slots xs) a.0 (sort_slots-below n xs a.1)

slots_from-later :
    (k i : ℕ) (t W : ℤ) (ws : List ℤ) → k < i → occurs k (indices (slots_from i t W ws)) ≡ 0
unfolding slots_from
slots_from-later k i t W [] h = refl
slots_from-later k i t W (w ∷ ws) h = ground (arith, slots_from-later k (i + 1) t W ws)

slots_from-once : (k i : ℕ) (t W : ℤ) (ws : List ℤ) → occurs k (indices (slots_from i t W ws)) ≤ 1
unfolding slots_from
slots_from-once k i t W [] = omega arith
slots_from-once k i t W (w ∷ ws) =
    ground (arith, slots_from-later k (i + 1) t W ws, slots_from-once k (i + 1) t W ws)

-- The sorted slots of a list of weights.
abbrev pub order : ℤ → ℤ → List ℤ → List ℕ
order t W ws = indices (sort_slots (slots_from 0 t W ws))

pub order-length : (t W : ℤ) (ws : List ℤ) → length (order t W ws) ≡ length ws
order-length t W ws =
    omega (arith, sort_slots-length (slots_from 0 t W ws), slots_from-length 0 t W ws)

pub order-below : (t W : ℤ) (ws : List ℤ) → All (λ i. i < length ws) (order t W ws)
order-below t W ws =
    sort_slots-below (length ws) (slots_from 0 t W ws)
      (slots_from-below 0 (length ws) t W ws (omega arith))

pub order-once : (k : ℕ) (t W : ℤ) (ws : List ℤ) → occurs k (order t W ws) ≤ 1
order-once k t W ws =
    omega (arith, sort_slots-occurs k (slots_from 0 t W ws), slots_from-once k 0 t W ws)
