-- ===== src/Hart/Decode/Fields.antt =====
-- The fields that the decoder of crates/systemrs-examples/src/rv32i.rs reads, as quotients and
-- remainders of the word.
use Prim.Native.Nat.{bit_or, bit_and}
use systemrs.Base.{ℕ, ◌+◌, ◌-◌, ◌*◌, ◌/◌, ◌%◌, ◌^◌, ◌<◌, ◌≡◌, ap, ◌∙◌, arith, ltb, if◌then◌else◌}
use systemrs.Base.Bits.{bit_or_below, bit_and_mask, bit_and_high_mask}
use systemrs.Base.Int.{ℤ, pos, negsuc}
use systemrs.Base.Word.{◌<<<◌, ◌>>>◌}
use systemrs.Hart.Alu.{sign_extend}
use systemrs.Hart.Decode

-- The integer that the low bits of a word stand for.
abbrev pub signed : ℕ → ℕ → ℤ
signed half v = if ltb v half then pos v else negsuc (2 * half - 1 - v)

pub sign_extend_8 : (v : ℕ) → v < 256 → sign_extend v 8 ≡ signed 128 v
unfolding sign_extend
sign_extend_8 v h = ground arith

pub sign_extend_12 : (v : ℕ) → v < 4096 → sign_extend v 12 ≡ signed 2048 v
unfolding sign_extend
sign_extend_12 v h = ground arith

pub sign_extend_13 : (v : ℕ) → v < 8192 → sign_extend v 13 ≡ signed 4096 v
unfolding sign_extend
sign_extend_13 v h = ground arith

pub sign_extend_16 : (v : ℕ) → v < 65536 → sign_extend v 16 ≡ signed 32768 v
unfolding sign_extend
sign_extend_16 v h = ground arith

pub sign_extend_21 : (v : ℕ) → v < 2097152 → sign_extend v 21 ≡ signed 1048576 v
unfolding sign_extend
sign_extend_21 v h = ground arith

module _ (w : ℕ) where
  pub opcode-mod : Decode.opcode w ≡ w % 128
  unfolding Decode.opcode
  opcode-mod = bit_and_mask 7 w

  pub rd-mod : Decode.rd w ≡ w / 128 % 32
  unfolding Decode.rd
  rd-mod = bit_and_mask 5 (w / 128)

  pub funct3-mod : Decode.funct3 w ≡ w / 4096 % 8
  unfolding Decode.funct3
  funct3-mod = bit_and_mask 3 (w / 4096)

  pub rs1-mod : Decode.rs1 w ≡ w / 32768 % 32
  unfolding Decode.rs1
  rs1-mod = bit_and_mask 5 (w / 32768)

  pub rs2-mod : Decode.rs2 w ≡ w / 1048576 % 32
  unfolding Decode.rs2
  rs2-mod = bit_and_mask 5 (w / 1048576)

  pub funct7-mod : Decode.funct7 w ≡ w / 33554432 % 128
  unfolding Decode.funct7
  funct7-mod = bit_and_mask 7 (w / 33554432)

  pub imm_i-signed : Decode.imm_i w ≡ signed 2048 (w / 1048576 % 4096)
  unfolding Decode.imm_i
  imm_i-signed =
      rw (bit_and_mask 12 (w / 1048576)) (sign_extend_12 (w / 1048576 % 4096) (omega arith))

  pub imm_u-mod : Decode.imm_u w ≡ w / 4096 % 1048576 * 4096
  unfolding Decode.imm_u
  imm_u-mod = bit_and_high_mask 12 20 w

module _ (w : ℕ) where
  or_below :
      (k a r j : ℕ)
      → r * 2 ^ j < 2 ^ k
      → r * 2 ^ j < 2 ^ 32
      → a % 2 ^ k ≡ 0
      → bit_or a (r <<< j) ≡ a + r * 2 ^ j
  or_below k a r j h g e = ground (arith, bit_or_below k a (r * 2 ^ j))

  pub imm_s-signed : Decode.imm_s w ≡ signed 2048 (w / 33554432 % 128 * 32 + w / 128 % 32)
  unfolding Decode.imm_s
  imm_s-signed =
      let hi = w / 33554432 % 128 in
      let lo = w / 128 % 32 in
      let value : bit_or (bit_and (w >>> 25) 0x7f <<< 5) (bit_and (w >>> 7) 0x1f) ≡ hi * 32 + lo =
        rw (bit_and_mask 7 (w / 33554432), bit_and_mask 5 (w / 128))
          (ground (arith, bit_or_below 5 (hi * 32) lo (omega arith) (omega arith))) in
      ap (λ v. sign_extend v 12) value ∙ sign_extend_12 (hi * 32 + lo) (omega arith)

  pub imm_b-signed :
      Decode.imm_b w
      ≡ signed 4096 (
          w / 2147483648 % 2 * 4096
          + w / 128 % 2 * 2048
          + w / 33554432 % 64 * 32
          + w / 256 % 16 * 2)
  unfolding Decode.imm_b
  imm_b-signed =
      let a = w / 2147483648 % 2 in
      let b = w / 128 % 2 in
      let c = w / 33554432 % 64 in
      let d = w / 256 % 16 in
      let value : bit_or
            (bit_or (bit_or (bit_and (w >>> 31) 1 <<< 12) (bit_and (w >>> 7) 1 <<< 11))
              (bit_and (w >>> 25) 0x3f <<< 5))
            (bit_and (w >>> 8) 0xf <<< 1)
          ≡ a * 4096 + b * 2048 + c * 32 + d * 2 =
        rw
          (
            bit_and_mask 1 (w / 2147483648),
            bit_and_mask 1 (w / 128),
            bit_and_mask 6 (w / 33554432),
            bit_and_mask 4 (w / 256),
            or_below 12 (a <<< 12) b 11 (omega arith) (omega arith) (omega arith),
            or_below 11 ((a <<< 12) + b * 2048) c 5 (omega arith) (omega arith) (omega arith),
            or_below 5 ((a <<< 12) + b * 2048 + c * 32) d 1 (omega arith) (omega arith)
                (omega arith),
          )
          (omega arith) in
      ap (λ v. sign_extend v 13) value ∙ sign_extend_13 _ (omega arith)

  pub imm_j-signed :
      Decode.imm_j w
      ≡ signed 1048576 (
          w / 2147483648 % 2 * 1048576
          + w / 4096 % 256 * 4096
          + w / 1048576 % 2 * 2048
          + w / 2097152 % 1024 * 2)
  unfolding Decode.imm_j
  imm_j-signed =
      let a = w / 2147483648 % 2 in
      let b = w / 4096 % 256 in
      let c = w / 1048576 % 2 in
      let d = w / 2097152 % 1024 in
      let value : bit_or
            (bit_or (bit_or (bit_and (w >>> 31) 1 <<< 20) (bit_and (w >>> 12) 0xff <<< 12))
              (bit_and (w >>> 20) 1 <<< 11))
            (bit_and (w >>> 21) 0x3ff <<< 1)
          ≡ a * 1048576 + b * 4096 + c * 2048 + d * 2 =
        rw
          (
            bit_and_mask 1 (w / 2147483648),
            bit_and_mask 8 (w / 4096),
            bit_and_mask 1 (w / 1048576),
            bit_and_mask 10 (w / 2097152),
            or_below 20 (a <<< 20) b 12 (omega arith) (omega arith) (omega arith),
            or_below 12 ((a <<< 20) + b * 4096) c 11 (omega arith) (omega arith) (omega arith),
            or_below 11 ((a <<< 20) + b * 4096 + c * 2048) d 1 (omega arith) (omega arith)
                (omega arith),
          )
          (omega arith) in
      ap (λ v. sign_extend v 21) value ∙ sign_extend_21 _ (omega arith)
