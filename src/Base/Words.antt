-- ===== src/Base/Words.antt =====
-- Go's signed 64-bit arithmetic on integers: sums and products wrap around at 2 ^ 64.
use Prim.Native.Nat.{ℕ, ◌+◌, ◌-◌, ◌*◌, ◌/◌, ◌%◌, ◌<◌}
use mathlib.Core.Path.{◌≡◌}
use native.Mathlib.Omega.{arith}
use arcus_invest_backend.Base.Tests.{ltb, if◌then◌else◌}
use arcus_invest_backend.Base.Int.{ℤ, pos, negsuc, ◌+ℤ◌, ◌*ℤ◌, sub_ℕ}

abbrev pub word : ℕ
word = 18446744073709551616

abbrev pub half_word : ℕ
half_word = 9223372036854775808

-- The signed reading of a 64-bit pattern.
abbrev pub signed : ℕ → ℤ
signed n = if ltb n half_word then pos n else negsuc (word - n - 1)

unfoldable pub wrap64 : ℤ → ℤ
wrap64 (pos n) = signed (n % word)
wrap64 (negsuc n) = signed ((word - 1) - n % word)

-- `a + b` and `a * b` on int64.
unfoldable pub add64 : ℤ → ℤ → ℤ
add64 a b = wrap64 (a +ℤ b)

unfoldable pub mul64 : ℤ → ℤ → ℤ
mul64 a b = wrap64 (a *ℤ b)

-- `a / b` and `a % b` on int64 cut towards zero, so the remainder has the sign of `a`. The one
-- quotient out of range, of the least integer by -1, does not arise for a positive divisor.
unfoldable pub quot64 : ℤ → ℤ → ℤ
quot64 (pos a) (pos b) = pos (a / b)
quot64 (pos a) (negsuc b) = sub_ℕ 0 (a / (b + 1))
quot64 (negsuc a) (pos b) = sub_ℕ 0 ((a + 1) / b)
quot64 (negsuc a) (negsuc b) = pos ((a + 1) / (b + 1))

unfoldable pub rem64 : ℤ → ℤ → ℤ
rem64 (pos a) (pos b) = pos (a % b)
rem64 (pos a) (negsuc b) = pos (a % (b + 1))
rem64 (negsuc a) (pos b) = sub_ℕ 0 ((a + 1) % b)
rem64 (negsuc a) (negsuc b) = sub_ℕ 0 ((a + 1) % (b + 1))

-- Below 2 ^ 63 nothing wraps.
pub wrap64-pos : (n : ℕ) → n < half_word → wrap64 (pos n) ≡ pos n
unfolding wrap64
wrap64-pos n h = ground arith

pub add64-pos : (a b : ℕ) → a + b < half_word → add64 (pos a) (pos b) ≡ pos (a + b)
unfolding add64 ◌+ℤ◌ wrap64
add64-pos a b h = ground arith

pub mul64-pos : (a b : ℕ) → a * b < half_word → mul64 (pos a) (pos b) ≡ pos (a * b)
unfolding mul64 ◌*ℤ◌ wrap64
mul64-pos a b h = ground arith
