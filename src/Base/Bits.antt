-- ===== src/Base/Bits.antt =====
-- The native bit operations as arithmetic: a mask of low bits, disjoint fields, bounds.
use Prim.Native.Nat.{
  ℕ, zero, suc, ◌+◌, ◌-◌, ◌*◌, ◌/◌, ◌%◌, ◌^◌, ◌≤◌, ◌<◌, min, max, differ, digits, bitwise, bit_and,
  bit_or, bit_xor, bit_and-bitwise, bit_or-bitwise, bit_xor-bitwise,
}
use mathlib.Core.Path.{◌≡◌, refl, sym, ap, ◌∙◌}
use native.Mathlib.Omega.{arith}
use native.Mathlib.Nat.{pow-suc, one-le-pow}

-- The fuel of the digit recursion does not matter once it is enough.
module _ (z : ℕ → ℕ) (f : ℕ → ℕ → ℕ) where
  digits_enough : (n m a b : ℕ) → a ≤ n → a ≤ m → digits z f n a b ≡ digits z f m a b
  digits_enough zero zero a b p q = refl
  digits_enough zero (suc m) zero b p q = refl
  digits_enough zero (suc m) (suc a) b p q = absurd (omega arith)
  digits_enough (suc n) zero zero b p q = refl
  digits_enough (suc n) zero (suc a) b p q = absurd (omega arith)
  digits_enough (suc n) (suc m) zero b p q = refl
  digits_enough (suc n) (suc m) (suc a) b p q =
      rw (digits_enough n m (suc a / 2) (b / 2) (omega arith) (omega arith))

  digits_low :
      (a b : ℕ)
      → bitwise z f (suc a) b ≡ bitwise z f (suc a / 2) (b / 2) * 2 + f (suc a % 2) (b % 2)
  digits_low a b =
      omega (arith, digits_enough a (suc a / 2) (suc a / 2) (b / 2) (omega arith) (omega arith))

-- One digit at a time.
pub bit_or_low : (a b : ℕ) → bit_or a b ≡ bit_or (a / 2) (b / 2) * 2 + max (a % 2) (b % 2)
bit_or_low zero b = simp bit_or-bitwise (omega arith)
bit_or_low (suc a) b = simp bit_or-bitwise (digits_low (λ y. y) max a b)

pub bit_and_low : (a b : ℕ) → bit_and a b ≡ bit_and (a / 2) (b / 2) * 2 + min (a % 2) (b % 2)
bit_and_low zero b = simp bit_and-bitwise (omega arith)
bit_and_low (suc a) b = simp bit_and-bitwise (digits_low (λ y. 0) min a b)

bit_or-zero_below : (n a : ℕ) → a ≤ n → bit_or a 0 ≡ a
bit_or-zero_below n zero h = refl
bit_or-zero_below zero (suc a) h = absurd (omega arith)
bit_or-zero_below (suc n) (suc a) h =
    omega (arith, bit_or_low (suc a) 0, bit_or-zero_below n (suc a / 2) (omega arith))

bit_and-zero_below : (n a : ℕ) → a ≤ n → bit_and a 0 ≡ 0
bit_and-zero_below n zero h = refl
bit_and-zero_below zero (suc a) h = absurd (omega arith)
bit_and-zero_below (suc n) (suc a) h =
    omega (arith, bit_and_low (suc a) 0, bit_and-zero_below n (suc a / 2) (omega arith))

pub bit_or-zero : (a : ℕ) → bit_or a 0 ≡ a
bit_or-zero a = bit_or-zero_below a a (omega arith)

pub bit_and-zero : (a : ℕ) → bit_and a 0 ≡ 0
bit_and-zero a = bit_and-zero_below a a (omega arith)

twice_pow : (q k : ℕ) → q * 2 ^ suc k ≡ 2 * (q * 2 ^ k)
twice_pow q k = omega (arith, ap (λ (t : ℕ). q * t) (pow-suc 2 k))

-- Fields that do not meet are added: `r | (q << k)`.
pub bit_or_field : (k r q : ℕ) → r < 2 ^ k → bit_or r (q * 2 ^ k) ≡ r + q * 2 ^ k
bit_or_field zero zero q h = simp bit_or-bitwise (omega arith)
bit_or_field zero (suc r) q h = absurd (omega arith)
bit_or_field (suc k) r q h =
    ground
      (arith, bit_or_low r (q * 2 ^ suc k), twice_pow q k, bit_or_field k (r / 2) q (omega arith))

bit_and_split : (k q r : ℕ) → r < 2 ^ k → bit_and (r + q * 2 ^ k) (2 ^ k - 1) ≡ r
bit_and_split zero q r h = omega (arith, bit_and-zero (r + q * 2 ^ 0))
bit_and_split (suc k) q r h = ground (
  arith,
  bit_and_low (r + q * 2 ^ suc k) (2 ^ suc k - 1),
  twice_pow q k,
  pow-suc 2 k,
  one-le-pow k 2,
  bit_and_split k q (r / 2) (omega (arith, pow-suc 2 k)),
)

-- `a & ((1 << k) - 1)`
pub bit_and_mask : (k a : ℕ) → bit_and a (2 ^ k - 1) ≡ a % 2 ^ k
bit_and_mask k a = ground (arith, one-le-pow k 2, bit_and_split k (a / 2 ^ k) (a % 2 ^ k))

-- A word stays a word.
pub bit_and-le : (k a b : ℕ) → a < 2 ^ k → bit_and a b < 2 ^ k
bit_and-le zero zero b h = simp bit_and-bitwise (omega arith)
bit_and-le zero (suc a) b h = absurd (omega arith)
bit_and-le (suc k) a b h =
    omega (
      arith,
      bit_and_low a b,
      pow-suc 2 k,
      bit_and-le k (a / 2) (b / 2) (omega (arith, pow-suc 2 k)),
    )

differ-lt : (x y : ℕ) → x < 2 → y < 2 → differ x y < 2
differ-lt zero y h g = g
differ-lt (suc x) zero h g = h
differ-lt (suc x) (suc y) h g = differ-lt x y (omega arith) (omega arith)

bit_xor_low :
    (a b : ℕ) → bit_xor (suc a) b ≡ bit_xor (suc a / 2) (b / 2) * 2 + differ (suc a % 2) (b % 2)
bit_xor_low a b = simp bit_xor-bitwise (digits_low (λ y. y) differ a b)

pub bit_xor-lt : (k a b : ℕ) → a < 2 ^ k → b < 2 ^ k → bit_xor a b < 2 ^ k
bit_xor-lt k zero b h g = simp bit_xor-bitwise g
bit_xor-lt zero (suc a) b h g = absurd (omega arith)
bit_xor-lt (suc k) (suc a) b h g = omega (
  arith,
  bit_xor_low a b,
  differ-lt (suc a % 2) (b % 2) (omega arith) (omega arith),
  pow-suc 2 k,
  bit_xor-lt k (suc a / 2) (b / 2) (omega (arith, pow-suc 2 k)) (omega (arith, pow-suc 2 k)),
)

pub bit_or-lt : (k a b : ℕ) → a < 2 ^ k → b < 2 ^ k → bit_or a b < 2 ^ k
bit_or-lt zero zero zero h g = omega arith
bit_or-lt zero (suc a) b h g = absurd (omega arith)
bit_or-lt zero zero (suc b) h g = absurd (omega arith)
bit_or-lt (suc k) a b h g = omega (
  arith,
  bit_or_low a b,
  pow-suc 2 k,
  bit_or-lt k (a / 2) (b / 2) (omega (arith, pow-suc 2 k)) (omega (arith, pow-suc 2 k)),
)

bit_or_high : (k q r : ℕ) → r < 2 ^ k → bit_or (q * 2 ^ k) r ≡ q * 2 ^ k + r
bit_or_high zero q r h = ground (arith, bit_or-zero (q * 2 ^ 0))
bit_or_high (suc k) q r h = ground (
  arith,
  bit_or_low (q * 2 ^ suc k) r,
  twice_pow q k,
  bit_or_high k q (r / 2) (omega (arith, pow-suc 2 k)),
)

-- Fields from the highest down.
pub bit_or_below : (k a r : ℕ) → r < 2 ^ k → a % 2 ^ k ≡ 0 → bit_or a r ≡ a + r
bit_or_below k a r h e =
    let whole : a / 2 ^ k * 2 ^ k ≡ a = grind (arith, one-le-pow k 2) in
    ap (λ t. bit_or t r) (sym whole) ∙ bit_or_high k (a / 2 ^ k) r h ∙ ap (λ t. t + r) whole

-- A mask of high bits drops the low ones.
bit_and_high : (k q r m : ℕ) → r < 2 ^ k → bit_and (r + q * 2 ^ k) (m * 2 ^ k) ≡ bit_and q m * 2 ^ k
bit_and_high zero q zero m h = ground arith
bit_and_high zero q (suc r) m h = absurd (omega arith)
bit_and_high (suc k) q r m h = ground (
  arith,
  bit_and_low (r + q * 2 ^ suc k) (m * 2 ^ suc k),
  twice_pow q k,
  twice_pow m k,
  twice_pow (bit_and q m) k,
  bit_and_high k q (r / 2) m (omega (arith, pow-suc 2 k)),
)

pub bit_and_high_mask : (k m a : ℕ) → bit_and a ((2 ^ m - 1) * 2 ^ k) ≡ a / 2 ^ k % 2 ^ m * 2 ^ k
bit_and_high_mask k m a =
    let whole : a % 2 ^ k + a / 2 ^ k * 2 ^ k ≡ a = grind (arith, one-le-pow k 2) in
    ap (λ t. bit_and t ((2 ^ m - 1) * 2 ^ k)) (sym whole)
    ∙ bit_and_high k (a / 2 ^ k) (a % 2 ^ k) (2 ^ m - 1) (omega (arith, one-le-pow k 2))
    ∙ ap (λ t. t * 2 ^ k) (bit_and_mask m (a / 2 ^ k))
