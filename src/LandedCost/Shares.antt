-- ===== src/LandedCost/Shares.antt =====
-- The shares that the reference gives in the order of the code, and what they satisfy.
use arcus_invest_backend.Base.{
  ℕ, ◌+◌, ◌-◌, ◌*◌, ◌≤◌, ◌<◌, ◌==◌, ◌≡◌, refl, ap, ◌∙◌, pos, List, [], ◌∷◌, arith, length,
  if◌then◌else◌,
}
use arcus_invest_backend.Base.Words.{half_word}
use arcus_invest_backend.LandedCost.Spread.{slots_from, placed_from, sort_slots, spread, filled}
use arcus_invest_backend.LandedCost.Reference.{
  sum, floors, give, left-le-length, sum-give, length-give, at, at-give,
}
use arcus_invest_backend.LandedCost.Refine.{
  embed, sub64-pos, placed_from-pos, floor_shares-pos, HasRoom, hand_out-pos,
}
use arcus_invest_backend.LandedCost.Slots.{order, order-length, order-below, order-once}

pub length-embed : (xs : List ℕ) → length (embed xs) ≡ length xs
length-embed [] = refl
length-embed (x ∷ xs) = omega (arith, length-embed xs)

length-floors : (t W : ℕ) (ws : List ℕ) → length (floors t W ws) ≡ length ws
length-floors t W [] = refl
length-floors t W (w ∷ ws) = omega (arith, length-floors t W ws)

-- Each entry is at most the sum.
room-of-sum : (l n : ℕ) (xs : List ℕ) → sum xs + l < n → n ≤ half_word → HasRoom l xs
room-of-sum l n [] h k = tt
room-of-sum l n (x ∷ xs) h k = (omega arith, room-of-sum l n xs (omega arith) k)

placed-sum : (xs : List ℕ) → sum xs < half_word → placed_from (pos 0) (embed xs) ≡ pos (sum xs)
placed-sum xs h = placed_from-pos 0 xs (omega arith) ∙ ap pos (omega arith)

-- What the shares of a charge over weights are.
pub record Apportioned (t : ℕ) (ws out : List ℕ) : Type 0 where
  pub exact : sum out ≡ t
  pub lines : length out ≡ length ws
  pub down : (k : ℕ) → at (floors t (sum ws) ws) k ≤ at out k
  pub up : (k : ℕ) → at out k ≤ at (floors t (sum ws) ws) k + 1

pub spread-pos :
    (t : ℕ) (ws : List ℕ)
    → 0 < sum ws
    → t * sum ws < half_word
    → spread (pos t) (pos (sum ws)) (embed ws)
      ≡ embed (
          give
            (t - sum (floors t (sum ws) ws))
            (order (pos t) (pos (sum ws)) (embed ws))
            (floors t (sum ws) ws))
unfolding spread
spread-pos t ws w h =
    let S = sum (floors t (sum ws) ws) in
    let (below, few) = left-le-length t ws w in
    let small : t < half_word = grind arith in
    rw
      (
        floor_shares-pos t (sum ws) ws h,
        placed-sum (floors t (sum ws) ws) (omega arith),
        sub64-pos t S below small,
      )
      (hand_out-pos (t - S) (sort_slots (slots_from 0 (pos t) (pos (sum ws)) (embed ws)))
        (floors t (sum ws) ws) (omega arith)
        (room-of-sum (t - S) half_word (floors t (sum ws) ws) (omega arith) (omega arith)))

-- The shares on plain numbers, by the order in which the code hands out what is left.
abbrev pub shares : ℕ → List ℕ → List ℕ
shares t ws =
    give (t - sum (floors t (sum ws) ws)) (order (pos t) (pos (sum ws)) (embed ws))
      (floors t (sum ws) ws)

pub shares-Apportioned : (t : ℕ) (ws : List ℕ) → 0 < sum ws → Apportioned t ws (shares t ws)
shares-Apportioned t ws w =
    let S = sum (floors t (sum ws) ws) in
    let (below, few) = left-le-length t ws w in
    let is = order (pos t) (pos (sum ws)) (embed ws) in
    record {
      exact = omega (
        arith,
        sum-give (t - S) is (floors t (sum ws) ws)
            (omega (arith, order-length (pos t) (pos (sum ws)) (embed ws), length-embed ws))
            (rw (length-floors t (sum ws) ws, ← length-embed ws)
              (order-below (pos t) (pos (sum ws)) (embed ws))),
      );
      lines =
          omega (arith, length-give (t - S) is (floors t (sum ws) ws), length-floors t (sum ws) ws);
      down = λ k. (at-give (t - S) k is (floors t (sum ws) ws)).0;
      up = λ k. omega (
        arith,
        at-give (t - S) k is (floors t (sum ws) ws),
        order-once k (pos t) (pos (sum ws)) (embed ws),
      );
    }

-- The weights that count: where all are zero, one for each line.
abbrev pub ones : List ℕ → List ℕ
ones [] = []
ones (w ∷ ws) = 1 ∷ ones ws

abbrev pub counted : List ℕ → List ℕ
counted ws = if sum ws == 0 then ones ws else ws

pub embed-ones : (ws : List ℕ) → filled (pos 1) (embed ws) ≡ embed (ones ws)
embed-ones [] = refl
embed-ones (w ∷ ws) = rw (embed-ones ws)

pub sum-ones : (ws : List ℕ) → sum (ones ws) ≡ length ws
sum-ones [] = refl
sum-ones (w ∷ ws) = omega (arith, sum-ones ws)
