-- ===== src/Twin/Text/Decimal.antt =====
-- Numbers, words and lines of the texts of crates/systemrs-twin/src/journal.rs.
use systemrs.Base.{
  ℕ, zero, suc, ◌+◌, ◌-◌, ◌*◌, ◌/◌, ◌%◌, ◌^◌, ◌≤◌, ◌<◌, List, [], ◌∷◌, ◌++◌, true, false, some,
  ◌==◌, ltb, ◌≡◌, refl, arith, ap, ◌∙◌, All, All-join, Bool-cases, inl, inr, is_cons, u64_max,
}
use native.Mathlib.Nat.{pow-suc}
use systemrs.Twin.Text.{decimal_from, decimal, parse_digits, parse_u64}

abbrev pub IsDigit : ℕ → Type 0
IsDigit c = (48 ≤ c) × (c ≤ 57)

decimal_from-digits : (f n : ℕ) → All IsDigit (decimal_from f n)
unfolding decimal_from
decimal_from-digits zero n = tt
decimal_from-digits (suc f) n = elim (Bool-cases (ltb n 10)) [
  | inl small ↦ rw small (ground (arith, small))
  | inr big ↦
      rw big (
        All-join IsDigit (decimal_from f (n / 10)) _ (decimal_from-digits f (n / 10)) (omega arith))
]

parse_digits-append :
    (a b : ℕ) (xs ys : List ℕ)
    → parse_digits a xs ≡ some b
    → parse_digits a (xs ++ ys) ≡ parse_digits b ys
unfolding parse_digits
parse_digits-append a b [] ys e = ground (arith, e)
parse_digits-append a b (x ∷ xs) ys e =
    ground (arith, e, parse_digits-append (a * 10 + (x - 48)) b xs ys)

some_fuel : (f n : ℕ) → n < 10 ^ suc f → 10 ≤ n → 0 < f
some_fuel zero n h g = absurd (omega arith)
some_fuel (suc f) n h g = omega arith

-- A number and one more digit.
last_digit :
    (a d : ℕ) → d < 10 → a * 10 + d ≤ u64_max → parse_digits a ((48 + d) ∷ []) ≡ some (a * 10 + d)
unfolding parse_digits
last_digit a d h g =
    let value : a * 10 + (48 + d - 48) ≡ a * 10 + d = omega arith in ground (arith, value)

parse_digits-decimal :
    (f n : ℕ) → n < 10 ^ f → n ≤ u64_max → 0 < f → parse_digits 0 (decimal_from f n) ≡ some n
unfolding decimal_from
parse_digits-decimal zero n h g p = absurd (omega arith)
parse_digits-decimal (suc f) n h g p = elim (Bool-cases (ltb n 10)) [
  | inl small ↦
      rw small (last_digit 0 n (ground (arith, small)) (omega arith) ∙ ap some (omega arith))
  | inr big ↦
      let tens : 10 ≤ n = ground (arith, big) in
      let front =
        parse_digits-decimal f (n / 10) (omega (arith, pow-suc 10 f)) (omega arith)
          (some_fuel f n h tens) in
      rw big (
        parse_digits-append 0 (n / 10) (decimal_from f (n / 10)) _ front
        ∙ last_digit (n / 10) (n % 10) (omega arith) (omega arith)
        ∙ ap some (omega arith))
]

digits_cons :
    (xs : List ℕ)
    → All IsDigit xs
    → is_cons xs ≡ true
    → (c : ℕ) × (cs : List ℕ) × (xs ≡ c ∷ cs) × IsDigit c
digits_cons [] h e = absurd (cc e)
digits_cons (c ∷ cs) (h, _) e = (c, cs, refl, h)

is_cons-snoc : (xs : List ℕ) (y : ℕ) → is_cons (xs ++ y ∷ []) ≡ true
is_cons-snoc [] y = refl
is_cons-snoc (x ∷ xs) y = refl

is_cons-decimal_from : (f n : ℕ) → 0 < f → is_cons (decimal_from f n) ≡ true
unfolding decimal_from
is_cons-decimal_from zero n p = absurd (omega arith)
is_cons-decimal_from (suc f) n p = elim (Bool-cases (ltb n 10)) [
  | inl small ↦ rw small refl
  | inr big ↦ rw big (is_cons-snoc (decimal_from f (n / 10)) _)
]

-- A number has a first digit.
pub decimal-cons :
    (n : ℕ) → (c : ℕ) × (cs : List ℕ) × (decimal n ≡ c ∷ cs) × All IsDigit (decimal n) × IsDigit c
unfolding decimal
decimal-cons n =
    let digits = decimal_from-digits 20 n in
    let (c, cs, e, d) = digits_cons (decimal n) digits (is_cons-decimal_from 20 n (omega arith)) in
    (c, cs, e, digits, d)

parse_u64-digits :
    (xs : List ℕ) (c : ℕ) (cs : List ℕ) → xs ≡ c ∷ cs → 48 ≤ c → parse_u64 xs ≡ parse_digits 0 xs
unfolding parse_u64
parse_u64-digits xs c cs e low =
    let sign : (c == 43) ≡ false = ground (arith, low) in rw e (rw sign refl)

-- Parsing undoes printing.
pub parse_u64-decimal : (n : ℕ) → n ≤ u64_max → parse_u64 (decimal n) ≡ some n
unfolding decimal
parse_u64-decimal n h =
    let (c, cs, e, digits, (low, high)) = decimal-cons n in
    parse_u64-digits (decimal n) c cs e low
    ∙ parse_digits-decimal 20 n (omega arith) h (omega arith)
