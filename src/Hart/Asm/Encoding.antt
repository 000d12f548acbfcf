-- ===== src/Hart/Asm/Encoding.antt =====
-- What the decoder of crates/systemrs-examples/src/rv32i.rs reads in a word of its assembler.
use systemrs.Base.{ℕ, ◌+◌, ◌*◌, ◌/◌, ◌%◌, ◌^◌, ◌<◌, ◌≡◌, refl, arith}
use systemrs.Base.Bits.{bit_or_field, bit_and_mask, bit_and_high_mask}
use systemrs.Base.Int.{ℤ}
use systemrs.Base.Word.{◌<<<◌, as_u32}
use systemrs.Hart.Asm.{r, i, s, b, u, j}
use Prim.Native.Nat.{bit_or}

or_field : (k a q : ℕ) → a < 2 ^ k → q * 2 ^ k < 2 ^ 32 → bit_or a (q <<< k) ≡ a + q * 2 ^ k
or_field k a q h g = ground (arith, bit_or_field k a q h)

pub r_sum :
    (op rd f3 rs1 rs2 f7 : ℕ)
    → op < 128
    → rd < 32
    → f3 < 8
    → rs1 < 32
    → rs2 < 32
    → f7 < 128
    → r op rd f3 rs1 rs2 f7
      ≡ op + rd * 128 + f3 * 4096 + rs1 * 32768 + rs2 * 1048576 + f7 * 33554432
unfolding r
r_sum op rd f3 rs1 rs2 f7 a b c d e f =
    rw
      (
        or_field 7 op rd (omega arith) (omega arith),
        or_field 12 (op + rd * 128) f3 (omega arith) (omega arith),
        or_field 15 (op + rd * 128 + f3 * 4096) rs1 (omega arith) (omega arith),
        or_field 20 (op + rd * 128 + f3 * 4096 + rs1 * 32768) rs2 (omega arith) (omega arith),
        or_field 25 (op + rd * 128 + f3 * 4096 + rs1 * 32768 + rs2 * 1048576) f7 (omega arith)
            (omega arith),
      )
      refl

pub i_sum :
    (op rd f3 rs1 : ℕ) (imm : ℤ)
    → op < 128
    → rd < 32
    → f3 < 8
    → rs1 < 32
    → i op rd f3 rs1 imm ≡ op + rd * 128 + f3 * 4096 + rs1 * 32768 + as_u32 imm % 4096 * 1048576
unfolding i
i_sum op rd f3 rs1 imm a b c d =
    rw
      (
        bit_and_mask 12 (as_u32 imm),
        or_field 7 op rd (omega arith) (omega arith),
        or_field 12 (op + rd * 128) f3 (omega arith) (omega arith),
        or_field 15 (op + rd * 128 + f3 * 4096) rs1 (omega arith) (omega arith),
        or_field 20 (op + rd * 128 + f3 * 4096 + rs1 * 32768) (as_u32 imm % 4096) (omega arith)
            (omega arith),
      )
      refl

pub s_sum :
    (op f3 rs1 rs2 : ℕ) (imm : ℤ)
    → op < 128
    → f3 < 8
    → rs1 < 32
    → rs2 < 32
    → s op f3 rs1 rs2 imm
      ≡ op
        + as_u32 imm % 4096 % 32 * 128
        + f3 * 4096
        + rs1 * 32768
        + rs2 * 1048576
        + as_u32 imm % 4096 / 32 % 128 * 33554432
unfolding s r
s_sum op f3 rs1 rs2 imm a b c d =
    let v = as_u32 imm % 4096 in
    rw (bit_and_mask 12 (as_u32 imm), bit_and_mask 5 v, bit_and_mask 7 (v / 32))
      (r_sum op (v % 32) f3 rs1 rs2 (v / 32 % 128) a (omega arith) b c d (omega arith))

pub b_sum :
    (op f3 rs1 rs2 : ℕ) (imm : ℤ)
    → op < 128
    → f3 < 8
    → rs1 < 32
    → rs2 < 32
    → b op f3 rs1 rs2 imm
      ≡ op
        + as_u32 imm / 2048 % 2 * 128
        + as_u32 imm / 2 % 16 * 256
        + f3 * 4096
        + rs1 * 32768
        + rs2 * 1048576
        + as_u32 imm / 32 % 64 * 33554432
        + as_u32 imm / 4096 % 2 * 2147483648
unfolding b
b_sum op f3 rs1 rs2 imm a c d e =
    let v = as_u32 imm in
    let w₁ : ℕ = op + v / 2048 % 2 * 128 in
    let w₂ : ℕ = w₁ + v / 2 % 16 * 256 in
    let w₃ : ℕ = w₂ + f3 * 4096 in
    let w₄ : ℕ = w₃ + rs1 * 32768 in
    let w₅ : ℕ = w₄ + rs2 * 1048576 in
    let w₆ : ℕ = w₅ + v / 32 % 64 * 33554432 in
    rw
      (
        bit_and_mask 1 (v / 2048),
        bit_and_mask 4 (v / 2),
        bit_and_mask 6 (v / 32),
        bit_and_mask 1 (v / 4096),
        or_field 7 op (v / 2048 % 2) (omega arith) (omega arith),
        or_field 8 w₁ (v / 2 % 16) (omega arith) (omega arith),
        or_field 12 w₂ f3 (omega arith) (omega arith),
        or_field 15 w₃ rs1 (omega arith) (omega arith),
        or_field 20 w₄ rs2 (omega arith) (omega arith),
        or_field 25 w₅ (v / 32 % 64) (omega arith) (omega arith),
        or_field 31 w₆ (v / 4096 % 2) (omega arith) (omega arith),
      )
      refl

pub u_sum :
    (op rd imm : ℕ) → op < 128 → rd < 32 → u op rd imm ≡ op + rd * 128 + imm / 4096 % 1048576 * 4096
unfolding u
u_sum op rd imm a b =
    rw
      (
        bit_and_high_mask 12 20 imm,
        or_field 7 op rd (omega arith) (omega arith),
        bit_or_field 12 (op + rd * 128) (imm / 4096 % 1048576) (omega arith),
      )
      refl

pub j_sum :
    (op rd : ℕ) (imm : ℤ)
    → op < 128
    → rd < 32
    → j op rd imm
      ≡ op
        + rd * 128
        + as_u32 imm / 4096 % 256 * 4096
        + as_u32 imm / 2048 % 2 * 1048576
        + as_u32 imm / 2 % 1024 * 2097152
        + as_u32 imm / 1048576 % 2 * 2147483648
unfolding j
j_sum op rd imm a c =
    let v = as_u32 imm in
    let w₁ : ℕ = op + rd * 128 in
    let w₂ : ℕ = w₁ + v / 4096 % 256 * 4096 in
    let w₃ : ℕ = w₂ + v / 2048 % 2 * 1048576 in
    let w₄ : ℕ = w₃ + v / 2 % 1024 * 2097152 in
    rw
      (
        bit_and_mask 8 (v / 4096),
        bit_and_mask 1 (v / 2048),
        bit_and_mask 10 (v / 2),
        bit_and_mask 1 (v / 1048576),
        or_field 7 op rd (omega arith) (omega arith),
        or_field 12 w₁ (v / 4096 % 256) (omega arith) (omega arith),
        or_field 20 w₂ (v / 2048 % 2) (omega arith) (omega arith),
        or_field 21 w₃ (v / 2 % 1024) (omega arith) (omega arith),
        or_field 31 w₄ (v / 1048576 % 2) (omega arith) (omega arith),
      )
      refl
