-- ===== src/Hart/Alu/Arithmetic.antt =====
-- The M extension of crates/systemrs-examples/src/rv32i.rs against integer arithmetic.
use native.Mathlib.Nat.{add-mul, mul-add, mul_comm}
use native.Mathlib.Decide.{dec_lt}
use systemrs.Base.{
  ℕ, suc, ◌+◌, ◌-◌, ◌*◌, ◌/◌, ◌%◌, ◌≤◌, ◌<◌, ◌≡◌, arith, ◌⊎◌, inl, inr, ap, ◌∙◌, sym,
}
use systemrs.Base.Int.{pos, negsuc, ◌+ℤ◌, ◌*ℤ◌, sub_ℕ}
use systemrs.Base.Word.{as_i32, as_u32, wrapping_mul, shift_right}
use systemrs.Hart.Alu.{mulh, mulhsu, mulhu}
use systemrs.Hart.Bounds.{IsWord}

-- A signed word by its sign.
pub i32-cases :
    (a : ℕ)
    → IsWord a
    → ((a < 2147483648) × (as_i32 a ≡ pos a))
      ⊎ ((n : ℕ) × (a + suc n ≡ 4294967296) × (n < 2147483648) × (as_i32 a ≡ negsuc n))
i32-cases a h = elim (dec_lt a 2147483648) [
  | yes p ↦ inl (p, ground arith)
  | no p ↦ inr (4294967295 - a, omega arith, omega arith, ground arith)
]

-- An integer by its upper half, rounded down, and its lower half.
recombine-pos :
    (n low : ℕ)
    → n < 9223372036854775808
    → low ≡ n % 4294967296
    → as_i32 (as_u32 (shift_right (pos n) 32)) *ℤ pos 4294967296 +ℤ pos low ≡ pos n
unfolding ◌+ℤ◌ ◌*ℤ◌
recombine-pos n low h e = ground arith

recombine-negsuc :
    (n low k : ℕ)
    → n < 9223372036854775808
    → low < 4294967296
    → n + 1 + low ≡ k * 4294967296
    → as_i32 (as_u32 (shift_right (negsuc n) 32)) *ℤ pos 4294967296 +ℤ pos low ≡ negsuc n
unfolding ◌+ℤ◌ ◌*ℤ◌
recombine-negsuc n low k h l e = ground arith

recombine-minus :
    (n low k : ℕ)
    → n ≤ 9223372036854775808
    → low < 4294967296
    → n + low ≡ k * 4294967296
    → as_i32 (as_u32 (shift_right (sub_ℕ 0 n) 32)) *ℤ pos 4294967296 +ℤ pos low ≡ sub_ℕ 0 n
recombine-minus n low k h l e = elim (dec_lt 0 n) [
  | yes p ↦
      let minus : sub_ℕ 0 n ≡ negsuc (n - 1) = ground arith in
      rw minus (recombine-negsuc (n - 1) low k (omega arith) l (omega arith))
  | no p ↦
      let none_left : n ≡ 0 = omega arith in
      rw none_left (recombine-pos 0 low (omega arith) (omega arith))
]

pub mul-pos_pos : (a b : ℕ) → pos a *ℤ pos b ≡ pos (a * b)
unfolding ◌*ℤ◌
mul-pos_pos a b = ground arith

mul-negsuc_pos : (a b : ℕ) → negsuc a *ℤ pos b ≡ sub_ℕ 0 (suc a * b)
unfolding ◌*ℤ◌
mul-negsuc_pos a b = ground arith

mul-pos_negsuc : (a b : ℕ) → pos a *ℤ negsuc b ≡ sub_ℕ 0 (a * suc b)
unfolding ◌*ℤ◌
mul-pos_negsuc a b = ground arith

mul-negsuc_negsuc : (a b : ℕ) → negsuc a *ℤ negsuc b ≡ pos (suc a * suc b)
unfolding ◌*ℤ◌
mul-negsuc_negsuc a b = ground arith

mul-le : (a b m n : ℕ) → a ≤ m → b ≤ n → a * b ≤ m * n
mul-le a b m n h g = grind arith

module _ (a b : ℕ) (ha : IsWord a) (hb : IsWord b) where
  abbrev low : ℕ
  low = wrapping_mul a b

  low-lt : low < 4294967296
  low-lt = omega arith

  times_b : (m : ℕ) → a + m ≡ 4294967296 → a * b + m * b ≡ 4294967296 * b
  times_b m p = sym (add-mul a m b) ∙ ap (λ t. t * b) p

  a_times : (n : ℕ) → b + n ≡ 4294967296 → a * b + a * n ≡ 4294967296 * a
  a_times n p = sym (mul-add a b n) ∙ ap (λ t. a * t) p ∙ mul_comm a 4294967296

  m_times : (m n : ℕ) → b + n ≡ 4294967296 → m * b + m * n ≡ 4294967296 * m
  m_times m n p = sym (mul-add m b n) ∙ ap (λ t. m * t) p ∙ mul_comm m 4294967296

  minus-low : (m : ℕ) → a + m ≡ 4294967296 → (k : ℕ) × (m * b + low ≡ k * 4294967296)
  minus-low m p = (b - a * b / 4294967296, omega (arith, times_b m p))

  minus-low_right : (n : ℕ) → b + n ≡ 4294967296 → (k : ℕ) × (a * n + low ≡ k * 4294967296)
  minus-low_right n p = (a - a * b / 4294967296, omega (arith, a_times n p))

  both-low : (m n : ℕ) → a + m ≡ 4294967296 → b + n ≡ 4294967296 → low ≡ m * n % 4294967296
  both-low m n p q = omega (arith, times_b m p, m_times m n q)

  mulhu-mul : mulhu a b * 4294967296 + low ≡ a * b
  unfolding mulhu
  mulhu-mul = omega (arith, mul-le a b 4294967295 4294967295 (omega arith) (omega arith))

  mulh-mul : as_i32 (mulh (as_i32 a) (as_i32 b)) *ℤ pos 4294967296 +ℤ pos low ≡ as_i32 a *ℤ as_i32 b
  unfolding mulh
  mulh-mul = elim (i32-cases a ha) [
    | inl (p, ea) ↦ elim (i32-cases b hb) [
      | inl (q, eb) ↦
          rw (ea, eb, mul-pos_pos a b)
            (recombine-pos (a * b) low
              (omega (arith, mul-le a b 2147483648 2147483648 (omega arith) (omega arith)))
              (omega arith))
      | inr (n, eb, q, e) ↦
          let (k, whole) = minus-low_right (suc n) eb in
          rw (ea, e, mul-pos_negsuc a n)
            (recombine-minus (a * suc n) low k
              (omega (arith, mul-le a (suc n) 2147483648 2147483648 (omega arith) (omega arith)))
              low-lt whole)
    ]
    | inr (m, ea, p, d) ↦ elim (i32-cases b hb) [
      | inl (q, eb) ↦
          let (k, whole) = minus-low (suc m) ea in
          rw (d, eb, mul-negsuc_pos m b)
            (recombine-minus (suc m * b) low k
              (omega (arith, mul-le (suc m) b 2147483648 2147483648 (omega arith) (omega arith)))
              low-lt whole)
      | inr (n, eb, q, e) ↦
          rw (d, e, mul-negsuc_negsuc m n)
            (recombine-pos (suc m * suc n) low
              (omega
                (arith, mul-le (suc m) (suc n) 2147483648 2147483648 (omega arith) (omega arith)))
              (both-low (suc m) (suc n) ea eb))
    ]
  ]

  mulhsu-mul : as_i32 (mulhsu (as_i32 a) b) *ℤ pos 4294967296 +ℤ pos low ≡ as_i32 a *ℤ pos b
  unfolding mulhsu
  mulhsu-mul = elim (i32-cases a ha) [
    | inl (p, ea) ↦
        rw (ea, mul-pos_pos a b)
          (recombine-pos (a * b) low
            (omega (arith, mul-le a b 2147483647 4294967295 (omega arith) (omega arith)))
            (omega arith))
    | inr (m, ea, p, d) ↦
        let (k, whole) = minus-low (suc m) ea in
        rw (d, mul-negsuc_pos m b)
          (recombine-minus (suc m * b) low k
            (omega (arith, mul-le (suc m) b 2147483648 4294967295 (omega arith) (omega arith)))
            low-lt whole)
  ]

  -- For all 32-bit operands, the high half that MULHU, MULH or MULHSU gives and the low half that MUL
  -- gives make up the whole product: of the operands as unsigned numbers, as signed ones, and of a
  -- signed one by an unsigned one. The high half counts 2 ^ 32, and is signed where an operand is.
  pub mul_halves :
      (mulhu a b * 4294967296 + wrapping_mul a b ≡ a * b)
      × (as_i32 (mulh (as_i32 a) (as_i32 b)) *ℤ pos 4294967296 +ℤ pos (wrapping_mul a b)
          ≡ as_i32 a *ℤ as_i32 b)
      × (as_i32 (mulhsu (as_i32 a) b) *ℤ pos 4294967296 +ℤ pos (wrapping_mul a b)
          ≡ as_i32 a *ℤ pos b)
  mul_halves = (mulhu-mul, mulh-mul, mulhsu-mul)
