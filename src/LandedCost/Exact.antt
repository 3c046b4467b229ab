-- ===== src/LandedCost/Exact.antt =====
-- `ApportionNgwee` as a whole, from the reference on plain numbers.
use arcus_invest_backend.Base.{
  ℕ, zero, suc, ◌*◌, ◌<◌, ◌==◌, ◌≡◌, refl, ap, ◌∙◌, ℤ, pos, true, List, [], ◌∷◌, arith, length, any,
  Bool-cases, inl, inr, ltb_ℤ,
}
use arcus_invest_backend.Base.Words.{half_word, add64}
use arcus_invest_backend.LandedCost.Spread.{
  ok, err, negative_weight, total_weight, spread, filled, spread_by, apportion_ngwee,
}
use arcus_invest_backend.LandedCost.Reference.{sum, floors, at}
use arcus_invest_backend.LandedCost.Refine.{embed, total_weight-pos}
use arcus_invest_backend.LandedCost.Shares.{
  Apportioned, spread-pos, shares, shares-Apportioned, ones, counted, embed-ones, sum-ones,
  length-embed,
}

abbrev zeros : List ℕ → List ℕ
zeros [] = []
zeros (w ∷ ws) = 0 ∷ zeros ws

filled-zeros : (ws : List ℕ) → filled (pos 0) (embed ws) ≡ embed (zeros ws)
filled-zeros [] = refl
filled-zeros (w ∷ ws) = rw (filled-zeros ws)

sum-zeros : (ws : List ℕ) → sum (zeros ws) ≡ 0
sum-zeros [] = refl
sum-zeros (w ∷ ws) = omega (arith, sum-zeros ws)

zeros-length : (ws : List ℕ) → length (zeros ws) ≡ length ws
zeros-length [] = refl
zeros-length (w ∷ ws) = omega (arith, zeros-length ws)

length-ones : (ws : List ℕ) → length (ones ws) ≡ length ws
length-ones [] = refl
length-ones (w ∷ ws) = omega (arith, length-ones ws)

length-zeros : (ws : List ℕ) → length (zeros ws) ≡ length (counted ws)
length-zeros ws = ground (arith, length-ones ws, zeros-length ws)

at-zeros : (ws : List ℕ) (k : ℕ) → at (zeros ws) k ≡ 0
at-zeros [] k = refl
at-zeros (w ∷ ws) zero = refl
at-zeros (w ∷ ws) (suc k) = at-zeros ws k

floors-zero : (W : ℕ) (ws : List ℕ) (k : ℕ) → at (floors 0 W ws) k ≡ 0
floors-zero W [] k = refl
floors-zero W (w ∷ ws) zero = omega arith
floors-zero W (w ∷ ws) (suc k) = floors-zero W ws k

zeros-Apportioned : (ws : List ℕ) → Apportioned 0 (counted ws) (zeros ws)
zeros-Apportioned ws = record {
  exact = sum-zeros ws;
  lines = length-zeros ws;
  down = λ k. omega (arith, at-zeros ws k, floors-zero (sum (counted ws)) (counted ws) k);
  up = λ k. omega (arith, at-zeros ws k, floors-zero (sum (counted ws)) (counted ws) k);
}

spread_by-weighted :
    (a : ℤ) (ws : List ℤ) (S : ℕ) → 0 < S → spread_by a ws (ok (pos S)) ≡ ok (spread a (pos S) ws)
unfolding spread_by
spread_by-weighted a ws S h = ground arith

spread_by-even :
    (a : ℤ) (ws : List ℤ)
    → spread_by a ws (ok (pos 0)) ≡ ok (spread a (pos (length ws)) (filled (pos 1) ws))
unfolding spread_by
spread_by-even a ws = refl

total_weight-negative :
    (acc : ℤ) (ws : List ℤ)
    → any (λ v. ltb_ℤ v (pos 0)) ws ≡ true
    → total_weight acc ws ≡ err negative_weight
unfolding total_weight
total_weight-negative acc [] h = ground arith
total_weight-negative acc (w ∷ ws) h = ground (arith, total_weight-negative (add64 acc w) ws)

weigh : (ws : List ℕ) → sum ws < half_word → total_weight (pos 0) (embed ws) ≡ ok (pos (sum ws))
weigh ws h = total_weight-pos 0 ws (omega arith) ∙ ap (λ (n : ℕ). ok (pos n)) (omega arith)

spread_by-ones :
    (t : ℕ) (ws : List ℕ)
    → 0 < length ws
    → sum ws ≡ 0
    → t * length ws < half_word
    → spread_by (pos t) (embed ws) (total_weight (pos 0) (embed ws))
      ≡ ok (embed (shares t (ones ws)))
spread_by-ones t ws n z h =
    rw
      (
        weigh ws (omega arith),
        z,
        spread_by-even (pos t) (embed ws),
        length-embed ws,
        embed-ones ws,
        ← sum-ones ws,
      )
      (ap ok (spread-pos t (ones ws) (omega (arith, sum-ones ws)) (rw (sum-ones ws) h)))

spread_by-sum :
    (t : ℕ) (ws : List ℕ)
    → 0 < t
    → 0 < sum ws
    → t * sum ws < half_word
    → spread_by (pos t) (embed ws) (total_weight (pos 0) (embed ws)) ≡ ok (embed (shares t ws))
spread_by-sum t ws p w h =
    rw (weigh ws (grind arith), spread_by-weighted (pos t) (embed ws) (sum ws) w)
      (ap ok (spread-pos t ws w h))

spread_by-pos :
    (t : ℕ) (ws : List ℕ)
    → 0 < length ws
    → 0 < t
    → t * sum (counted ws) < half_word
    → (spread_by (pos t) (embed ws) (total_weight (pos 0) (embed ws))
        ≡ ok (embed (shares t (counted ws))))
      × (0 < sum (counted ws))
spread_by-pos t ws n p h = elim (Bool-cases (sum ws == 0)) [
  | inl e ↦
      let h' = rw (e, sum-ones ws) at h in
      rw e (spread_by-ones t ws n (ground arith) h', omega (arith, sum-ones ws))
  | inr e ↦ rw e (spread_by-sum t ws p (ground arith) (rw e at h), ground arith)
]

-- Over at least one line, with no weight and no charge below zero, and while the charge times the
-- weights that count stays in int64, the apportionment succeeds: the shares add up to the charge
-- exactly, there is one for each weight, and each is the exact share rounded down or one more.
pub apportion_exact :
    (t w : ℕ) (ws : List ℕ)
    → t * sum (counted (w ∷ ws)) < half_word
    → (out : List ℕ) × (apportion_ngwee (pos t) (embed (w ∷ ws)) ≡ ok (embed out))
      × Apportioned t (counted (w ∷ ws)) out
unfolding apportion_ngwee
apportion_exact zero w ws h =
    (zeros (w ∷ ws), ap ok (filled-zeros (w ∷ ws)), zeros-Apportioned (w ∷ ws))
apportion_exact (suc t) w ws h =
    let (result, some_weight) = spread_by-pos (suc t) (w ∷ ws) (omega arith) (omega arith) h in
    (
      shares (suc t) (counted (w ∷ ws)),
      ground (arith, result),
      shares-Apportioned (suc t) (counted (w ∷ ws)) some_weight,
    )

-- A charge above zero is not apportioned over weights of which one is negative, however large the
-- weights are.
pub apportion_refuses_negative :
    (total : ℤ) (ws : List ℤ)
    → ltb_ℤ (pos 0) total ≡ true
    → any (λ v. ltb_ℤ v (pos 0)) ws ≡ true
    → apportion_ngwee total ws ≡ err negative_weight
unfolding apportion_ngwee spread_by
apportion_refuses_negative total [] p h = ground arith
apportion_refuses_negative total (w ∷ ws) p h =
    ground (arith, total_weight-negative (pos 0) (w ∷ ws) h)
