-- ===== src/Hart/Alu/Division.antt =====
-- The divisions of crates/systemrs-examples/src/rv32i.rs against integer arithmetic.
use native.Mathlib.Nat.{div-add-mod', mod-lt, div-le_self, mod-le}
use native.Mathlib.Decide.{dec_lt}
use systemrs.Base.{
  ℕ, suc, ◌+◌, ◌*◌, ◌/◌, ◌%◌, ◌≤◌, ◌<◌, ◌==◌, ◌≡◌, true, false, refl, arith, ◌⊎◌, inl, inr, ap, ◌∙◌,
}
use systemrs.Base.Int.{ℤ, pos, negsuc, ◌+ℤ◌, ◌*ℤ◌, sub_ℕ, pos_part, neg_part}
use systemrs.Base.Word.{as_i32, as_u32, as_u32-as_i32, div_ℤ, rem_ℤ}
use systemrs.Hart.Alu.{div_s, div_u, rem_s, rem_u, u32_max}
use systemrs.Hart.Alu.Arithmetic.{i32-cases, mul-pos_pos}
use systemrs.Hart.Bounds.{IsWord}

-- `z` is the quotient of `a` by `b`, rounded towards zero, with the remainder `r`.
abbrev pub IsQuotient : ℤ → ℤ → ℤ → ℤ → Type 0
IsQuotient a b z r =
    (z *ℤ b +ℤ r ≡ a)
    × (pos_part r + neg_part r < pos_part b + neg_part b)
    × (pos_part r ≤ pos_part a)
    × (neg_part r ≤ neg_part a)

i32-pos : (n : ℕ) → n < 2147483648 → as_i32 (as_u32 (pos n)) ≡ pos n
i32-pos n h = ground arith

i32-minus : (n : ℕ) → n ≤ 2147483648 → as_i32 (as_u32 (sub_ℕ 0 n)) ≡ sub_ℕ 0 n
i32-minus n h = ground arith

mul-minus_negsuc : (n b : ℕ) → sub_ℕ 0 n *ℤ negsuc b ≡ pos (n * suc b)
unfolding ◌*ℤ◌
mul-minus_negsuc n b = ground arith

mul-minus_pos : (n b : ℕ) → sub_ℕ 0 n *ℤ pos b ≡ sub_ℕ 0 (n * b)
unfolding ◌*ℤ◌
mul-minus_pos n b = ground arith

mul-pos_negsuc : (n b : ℕ) → pos n *ℤ negsuc b ≡ sub_ℕ 0 (n * suc b)
unfolding ◌*ℤ◌
mul-pos_negsuc n b = ground arith

add-minus : (m n : ℕ) → sub_ℕ 0 m +ℤ sub_ℕ 0 n ≡ sub_ℕ 0 (m + n)
unfolding ◌+ℤ◌
add-minus m n = ground arith

add-pos : (m n : ℕ) → pos m +ℤ pos n ≡ pos (m + n)
unfolding ◌+ℤ◌
add-pos m n = ground arith

minus-suc : (n : ℕ) → sub_ℕ 0 (suc n) ≡ negsuc n
minus-suc n = ground arith

parts-minus : (n : ℕ) → (pos_part (sub_ℕ 0 n) ≡ 0) × (neg_part (sub_ℕ 0 n) ≡ n)
parts-minus n = ground arith

-- The four cases of signs, for a quotient `q` and a remainder `r` of the magnitudes.
module _ (a b q r : ℕ) (sum : q * b + r ≡ a) (rest : r < b) where
  pos_pos : IsQuotient (pos a) (pos b) (pos q) (pos r)
  pos_pos =
      (rw (mul-pos_pos q b, add-pos (q * b) r) (ap pos sum), omega arith, omega arith, omega arith)

module _ (m b q r : ℕ) (sum : q * b + r ≡ suc m) (rest : r < b) where
  minus_pos : IsQuotient (negsuc m) (pos b) (sub_ℕ 0 q) (sub_ℕ 0 r)
  minus_pos = (
    rw (mul-minus_pos q b, add-minus (q * b) r) (ap (sub_ℕ 0) sum ∙ minus-suc m),
    omega (arith, parts-minus r),
    omega (arith, parts-minus r),
    omega (arith, parts-minus r),
  )

module _ (a n q r : ℕ) (sum : q * suc n + r ≡ a) (rest : r < suc n) where
  pos_minus : IsQuotient (pos a) (negsuc n) (sub_ℕ 0 q) (pos r)
  pos_minus = (
    rw (mul-minus_negsuc q n, add-pos (q * suc n) r) (ap pos sum),
    omega arith,
    omega arith,
    omega arith,
  )

module _ (m n q r : ℕ) (sum : q * suc n + r ≡ suc m) (rest : r < suc n) where
  minus_minus : IsQuotient (negsuc m) (negsuc n) (pos q) (sub_ℕ 0 r)
  minus_minus = (
    rw (mul-pos_negsuc q n, add-minus (q * suc n) r) (ap (sub_ℕ 0) sum ∙ minus-suc m),
    omega (arith, parts-minus r),
    omega (arith, parts-minus r),
    omega (arith, parts-minus r),
  )

-- The divisor is zero, or the quotient does not fit, or `q` and `r` are the quotient and remainder.
abbrev pub IsDivision : ℕ → ℕ → ℕ → ℕ → Type 0
IsDivision a b q r =
    ((b ≡ 0) × (q ≡ u32_max) × (r ≡ a))
    ⊎ ((a ≡ 0x8000_0000) × (b ≡ 0xffff_ffff) × (q ≡ a) × (r ≡ 0))
    ⊎ IsQuotient (as_i32 a) (as_i32 b) (as_i32 q) (as_i32 r)

abbrev pub IsUnsignedDivision : ℕ → ℕ → ℕ → ℕ → Type 0
IsUnsignedDivision a b q r = ((b ≡ 0) × (q ≡ u32_max) × (r ≡ a)) ⊎ ((q * b + r ≡ a) × (r < b))

unsigned : (a b : ℕ) → IsUnsignedDivision a b (div_u a b) (rem_u a b)
unfolding div_u rem_u
unsigned a b = elim (dec_lt 0 b) [
  | yes p ↦
      let nonzero : (b == 0) ≡ false = ground arith in
      rw nonzero (inr (div-add-mod' a b, mod-lt a p))
  | no p ↦ let e : b ≡ 0 = omega arith in rw e (inl (refl, refl, refl))
]

-- The quotient of two negative numbers fits but for one pair.
div-fits : (m n : ℕ) → m < 2147483648 → ((m ≡ 2147483647) × (n ≡ 0)) ⊎ (suc m / suc n < 2147483648)
div-fits m n h = elim (dec_lt m 2147483647) [
  | yes p ↦ inr (omega (arith, div-le_self (suc m) (suc n)))
  | no p ↦ elim (dec_lt 0 n) [
    | yes q ↦
        inr
          (omega (arith, half (suc m / suc n) (suc n) (omega arith), div-add-mod' (suc m) (suc n)))
    | no q ↦ inl (omega arith, omega arith)
  ]
]
  where
    half : (x y : ℕ) → 2 ≤ y → x * 2 ≤ x * y
    half x y g = grind arith

module _ (a b : ℕ) (ha : IsWord a) (hb : IsWord b) where
  by_positive :
      (b < 2147483648)
      → 0 < b
      → IsQuotient
          (as_i32 a)
          (pos b)
          (as_i32 (as_u32 (div_ℤ (as_i32 a) (pos b))))
          (as_i32 (as_u32 (rem_ℤ (as_i32 a) (pos b))))
  by_positive small p = elim (i32-cases a ha) [
    | inl (q, ea) ↦
        rw
          (
            ea,
            i32-pos (a / b) (omega (arith, div-le_self a b)),
            i32-pos (a % b) (omega (arith, mod-lt a p)),
          )
          (pos_pos a b (a / b) (a % b) (div-add-mod' a b) (mod-lt a p))
    | inr (m, _, q, ea) ↦
        rw
          (
            ea,
            i32-minus (suc m / b) (omega (arith, div-le_self (suc m) b)),
            i32-minus (suc m % b) (omega (arith, mod-lt (suc m) p)),
          )
          (minus_pos m b (suc m / b) (suc m % b) (div-add-mod' (suc m) b) (mod-lt (suc m) p))
  ]

  by_negative :
      (n : ℕ)
      → n < 2147483648
      → ((a ≡ 2147483648) × (n ≡ 0))
        ⊎ IsQuotient
            (as_i32 a)
            (negsuc n)
            (as_i32 (as_u32 (div_ℤ (as_i32 a) (negsuc n))))
            (as_i32 (as_u32 (rem_ℤ (as_i32 a) (negsuc n))))
  by_negative n small =
      let p : 0 < suc n = omega arith in
      elim (i32-cases a ha) [
        | inl (q, ea) ↦ inr (
            rw
              (
                ea,
                i32-minus (a / suc n) (omega (arith, div-le_self a (suc n))),
                i32-pos (a % suc n) (omega (arith, div-add-mod' a (suc n), mod-le a (suc n))),
              )
              (pos_minus a n (a / suc n) (a % suc n) (div-add-mod' a (suc n)) (mod-lt a p)))
        | inr (m, em, q, ea) ↦ elim (div-fits m n q) [
          | inl (full, one) ↦ inl (omega arith, one)
          | inr fits ↦ inr (
              rw
                (
                  ea,
                  i32-pos (suc m / suc n) fits,
                  i32-minus (suc m % suc n) (omega (arith, mod-le (suc m) (suc n))),
                )
                (minus_minus m n (suc m / suc n) (suc m % suc n) (div-add-mod' (suc m) (suc n))
                  (mod-lt (suc m) p)))
        ]
      ]

  signed : IsDivision a b (div_s (as_i32 a) (as_i32 b)) (rem_s (as_i32 a) (as_i32 b))
  unfolding div_s rem_s
  signed = elim (i32-cases b hb) [
    | inl (small, eb) ↦ elim (dec_lt 0 b) [
      | no p ↦
          let zero_b : (b == 0) ≡ true = ground arith in
          rw (eb, zero_b) (inl (omega arith, refl, as_u32-as_i32 a ha))
      | yes p ↦
          let nonzero : (b == 0) ≡ false = ground arith in
          rw (eb, nonzero) (inr (inr (by_positive small p)))
    ]
    | inr (n, en, q, eb) ↦ rw eb (elim (by_negative n q) [
      | inl (full, one) ↦ inr (inl (full, omega arith, rw (full, one) refl, rw (full, one) refl))
      | inr fits ↦ inr (inr fits)
    ])
  ]

  -- For all 32-bit operands: DIV and REM give the quotient rounded towards zero and the remainder of
  -- the dividend's sign, as signed numbers, and DIVU and REMU those of the unsigned numbers; a division
  -- by zero gives all ones and the dividend; and the one quotient that does not fit, of the least
  -- number by -1, gives the dividend with remainder zero.
  pub division :
      IsDivision a b (div_s (as_i32 a) (as_i32 b)) (rem_s (as_i32 a) (as_i32 b))
      × IsUnsignedDivision a b (div_u a b) (rem_u a b)
  division = (signed, unsigned a b)
