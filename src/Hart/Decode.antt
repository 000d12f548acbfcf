-- ===== src/Hart/Decode.antt =====
-- crates/systemrs-examples/src/rv32i.rs: the fields of an instruction word, the first part of `step`.
pub mod Fields
use Prim.Native.Nat.{bit_and, bit_or}
use systemrs.Base.{ℕ}
use systemrs.Base.Int.{ℤ}
use systemrs.Base.Word.{◌<<<◌, ◌>>>◌}
use systemrs.Hart.Alu.{sign_extend}

unfoldable pub opcode : ℕ → ℕ
opcode inst = bit_and inst 0x7f

unfoldable pub rd : ℕ → ℕ
rd inst = bit_and (inst >>> 7) 0x1f

unfoldable pub funct3 : ℕ → ℕ
funct3 inst = bit_and (inst >>> 12) 0x7

unfoldable pub rs1 : ℕ → ℕ
rs1 inst = bit_and (inst >>> 15) 0x1f

unfoldable pub rs2 : ℕ → ℕ
rs2 inst = bit_and (inst >>> 20) 0x1f

unfoldable pub funct7 : ℕ → ℕ
funct7 inst = bit_and (inst >>> 25) 0x7f

unfoldable pub imm_i : ℕ → ℤ
unfolding sign_extend
imm_i inst = sign_extend (bit_and (inst >>> 20) 0xfff) 12

unfoldable pub imm_s : ℕ → ℤ
unfolding sign_extend
imm_s inst = sign_extend (bit_or (bit_and (inst >>> 25) 0x7f <<< 5) (bit_and (inst >>> 7) 0x1f)) 12

unfoldable pub imm_b : ℕ → ℤ
unfolding sign_extend
imm_b inst =
    sign_extend
      (bit_or
        (bit_or (bit_or (bit_and (inst >>> 31) 1 <<< 12) (bit_and (inst >>> 7) 1 <<< 11))
          (bit_and (inst >>> 25) 0x3f <<< 5))
        (bit_and (inst >>> 8) 0xf <<< 1))
      13

unfoldable pub imm_u : ℕ → ℕ
imm_u inst = bit_and inst 0xffff_f000

unfoldable pub imm_j : ℕ → ℤ
unfolding sign_extend
imm_j inst =
    sign_extend
      (bit_or
        (bit_or (bit_or (bit_and (inst >>> 31) 1 <<< 20) (bit_and (inst >>> 12) 0xff <<< 12))
          (bit_and (inst >>> 20) 1 <<< 11))
        (bit_and (inst >>> 21) 0x3ff <<< 1))
      21
