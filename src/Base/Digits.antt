-- ===== src/Base/Digits.antt =====
-- The binary digits of a word under the bit operations, by number.
use Prim.Native.Nat.{ℕ, zero, suc, ◌/◌, ◌%◌, ◌<◌, min, max, bit_and, bit_or}
use mathlib.Core.Path.{◌≡◌, ap, ◌∙◌}
use mathlib.Core.Bool.{Bool, true, ◌&&◌}
use native.Mathlib.Omega.{arith}
use systemrs.Base.Bits.{bit_and_low, bit_or_low}

unfoldable pub digit : ℕ → ℕ → ℕ
digit zero w = w % 2
digit (suc k) w = digit k (w / 2)

min_digit : (a b : ℕ) → min (a % 2) (b % 2) < 2
min_digit a b = omega arith

max_digit : (a b : ℕ) → max (a % 2) (b % 2) < 2
max_digit a b = omega arith

half_and : (a b : ℕ) → bit_and a b / 2 ≡ bit_and (a / 2) (b / 2)
half_and a b = omega (arith, bit_and_low a b, min_digit a b)

half_or : (a b : ℕ) → bit_or a b / 2 ≡ bit_or (a / 2) (b / 2)
half_or a b = omega (arith, bit_or_low a b, max_digit a b)

pub digit-bit_and : (k a b : ℕ) → digit k (bit_and a b) ≡ min (digit k a) (digit k b)
unfolding digit
digit-bit_and zero a b = omega (arith, bit_and_low a b, min_digit a b)
digit-bit_and (suc k) a b = ap (digit k) (half_and a b) ∙ digit-bit_and k (a / 2) (b / 2)

pub digit-bit_or : (k a b : ℕ) → digit k (bit_or a b) ≡ max (digit k a) (digit k b)
unfolding digit
digit-bit_or zero a b = omega (arith, bit_or_low a b, max_digit a b)
digit-bit_or (suc k) a b = ap (digit k) (half_or a b) ∙ digit-bit_or k (a / 2) (b / 2)

pub digit-lt : (k w : ℕ) → digit k w < 2
unfolding digit
digit-lt zero w = omega arith
digit-lt (suc k) w = digit-lt k (w / 2)

-- A property of the numbers below a bound, by evaluation.
unfoldable pub all_below : ℕ → (ℕ → Bool) → Bool
all_below zero p = true
all_below (suc n) p = p n && all_below n p

pub all_below-lt : (n : ℕ) (p : ℕ → Bool) (x : ℕ) → all_below n p ≡ true → x < n → p x ≡ true
unfolding all_below
all_below-lt zero p x h lt = absurd (omega arith)
all_below-lt (suc n) p x h lt = ground (arith, all_below-lt n p x)
