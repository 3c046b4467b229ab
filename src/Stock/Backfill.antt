-- ===== src/Stock/Backfill.antt =====
-- The backfill of opening balances.
use arcus_invest_backend.Base.{
  ℕ, ◌≡◌, refl, inl, inr, pos, eqb_ℤ, true, ◌||◌, Option, none, some, List, [], ◌∷◌, arith, All,
  Bool-cases, if◌then◌else◌, ==_refl,
}
use arcus_invest_backend.Stock.Ledger.{StockMovement}
use arcus_invest_backend.Stock.Handlers.{
  LegacyStock, has_movement, opening_movement, without_movements, carry_in, backfill,
}

-- Nothing is left to carry in for the product.
abbrev Settled : List StockMovement → LegacyStock → Type 0
Settled ms l = (has_movement l.id ms || eqb_ℤ l.stock (pos 0)) ≡ true

carry_in_mono :
    (now p : ℕ) (ls : List LegacyStock) (ms : List StockMovement)
    → has_movement p ms ≡ true
    → has_movement p (carry_in now ls ms) ≡ true
unfolding carry_in
carry_in_mono now p [] ms h = h
carry_in_mono now p (l ∷ ls) ms h =
    carry_in_mono now p ls (if eqb_ℤ l.stock (pos 0) then ms else opening_movement now l ∷ ms)
      (ground arith)

carry_in-Settled :
    (now : ℕ) (ls : List LegacyStock) (ms : List StockMovement)
    → All (Settled (carry_in now ls ms)) ls
unfolding carry_in
carry_in-Settled now [] ms = tt
carry_in-Settled now (l ∷ ls) ms =
    let next = if eqb_ℤ l.stock (pos 0) then ms else opening_movement now l ∷ ms in
    (
      elim (Bool-cases (eqb_ℤ l.stock (pos 0))) [
        | inl e ↦ ground arith
        | inr e ↦ ground (arith, carry_in_mono now l.id ls next, ==_refl l.id)
      ],
      carry_in-Settled now ls next,
    )

without-Settled :
    (now : ℕ) (ms : List StockMovement) (ls : List LegacyStock) (out : List StockMovement)
    → ((p : ℕ) → has_movement p ms ≡ true → has_movement p out ≡ true)
    → All (Settled out) (without_movements ms ls)
    → All (Settled out) ls
unfolding without_movements
without-Settled now ms [] out mono h = tt
without-Settled now ms (l ∷ ls) out mono h = elim (Bool-cases (has_movement l.id ms)) [
  | inl e ↦ (ground (arith, mono l.id e), without-Settled now ms ls out mono (rw e at h))
  | inr e ↦ let h' = rw e at h in (h'.0, without-Settled now ms ls out mono h'.1)
]

Settled-noop :
    (now : ℕ) (ls : List LegacyStock) (ms : List StockMovement)
    → All (Settled ms) ls
    → carry_in now (without_movements ms ls) ms ≡ ms
unfolding carry_in without_movements
Settled-noop now [] ms h = refl
Settled-noop now (l ∷ ls) ms h = ground (arith, Settled-noop now ls ms h.1)

-- A second run of the backfill, at any later time, writes nothing.
pub backfill_idempotent :
    (now later : ℕ) (legacy : Option (List LegacyStock)) (ms : List StockMovement)
    → backfill later legacy (backfill now legacy ms) ≡ backfill now legacy ms
unfolding backfill
backfill_idempotent now later none ms = refl
backfill_idempotent now later (some legacy) ms =
    let out = carry_in now (without_movements ms legacy) ms in
    Settled-noop later legacy out (
      without-Settled now ms legacy out (λ p. carry_in_mono now p (without_movements ms legacy) ms)
        (carry_in-Settled now (without_movements ms legacy) ms))
