-- ===== src/Hart/Alu.antt =====
-- crates/systemrs-examples/src/rv32i.rs: the functions of the M extension, and the values that the
-- register instructions compute.
pub mod Arithmetic
pub mod Division
use Prim.Native.Nat.{bit_and, bit_or, bit_xor}
use systemrs.Base.{
  ℕ, ◌-◌, ◌*◌, ◌/◌, ◌%◌, ◌^◌, Bool, not, Option, none, some, ◌==◌, ltb, leb, if◌then◌else◌,
}
use systemrs.Base.Int.{ℤ, pos, ◌*ℤ◌, ltb_ℤ}
use systemrs.Base.Word.{
  wrapping_add, wrapping_sub, wrapping_mul, ◌<<<◌, ◌>>>◌, as_i32, as_u32, shift_right, div_ℤ, rem_ℤ,
  is_zero_ℤ,
}

unfoldable pub sign_extend : ℕ → ℕ → ℤ
sign_extend value bits = shift_right (as_i32 (value <<< (32 - bits))) (32 - bits)

unfoldable pub mulh : ℤ → ℤ → ℕ
mulh a b = as_u32 (shift_right (a *ℤ b) 32)

unfoldable pub mulhsu : ℤ → ℕ → ℕ
mulhsu a b = as_u32 (shift_right (a *ℤ pos b) 32)

unfoldable pub mulhu : ℕ → ℕ → ℕ
mulhu a b = a * b / 2 ^ 32 % 2 ^ 32

abbrev pub u32_max : ℕ
u32_max = 0xffff_ffff

-- `wrapping_div` and `wrapping_rem` differ from `/` and `%` only where the quotient does not fit, which
-- the cast to `u32` wraps in the same way.
unfoldable pub div_s : ℤ → ℤ → ℕ
div_s a b = if is_zero_ℤ b then u32_max else as_u32 (div_ℤ a b)

unfoldable pub div_u : ℕ → ℕ → ℕ
div_u a b = if b == 0 then u32_max else a / b

unfoldable pub rem_s : ℤ → ℤ → ℕ
rem_s a b = if is_zero_ℤ b then as_u32 a else as_u32 (rem_ℤ a b)

unfoldable pub rem_u : ℕ → ℕ → ℕ
rem_u a b = if b == 0 then a else a % b

-- `u32::from(b)`
abbrev pub from_bool : Bool → ℕ
from_bool b = if b then 1 else 0

-- The test of a branch, if `funct3` names one.
unfoldable pub branch_taken : ℕ → ℕ → ℕ → Option Bool
branch_taken funct3 a b =
    if funct3 == 0
    then some (a == b)
    else if funct3 == 1
    then some (not (a == b))
    else if funct3 == 4
    then some (ltb_ℤ (as_i32 a) (as_i32 b))
    else if funct3 == 5
    then some (not (ltb_ℤ (as_i32 a) (as_i32 b)))
    else if funct3 == 6
    then some (ltb a b)
    else if funct3 == 7
    then some (leb b a)
    else none

-- The value of an OP-IMM instruction.
unfoldable pub op_imm : ℕ → ℕ → ℕ → ℕ → ℤ → Option ℕ
op_imm funct3 funct7 shamt a imm_i =
    let imm = as_u32 imm_i in
    if funct3 == 0
    then some (wrapping_add a imm)
    else if funct3 == 2
    then some (from_bool (ltb_ℤ (as_i32 a) imm_i))
    else if funct3 == 3
    then some (from_bool (ltb a imm))
    else if funct3 == 4
    then some (bit_xor a imm)
    else if funct3 == 6
    then some (bit_or a imm)
    else if funct3 == 7
    then some (bit_and a imm)
    else if funct3 == 1
    then some (a <<< shamt)
    else if funct3 == 5
    then some (
        if not (bit_and funct7 0x20 == 0)
        then as_u32 (shift_right (as_i32 a) shamt)
        else a >>> shamt)
    else none

-- The value of an OP instruction of the M extension.
unfoldable pub op_m : ℕ → ℕ → ℕ → Option ℕ
unfolding mulh mulhsu mulhu div_s div_u rem_s rem_u
op_m funct3 a b =
    if funct3 == 0
    then some (wrapping_mul a b)
    else if funct3 == 1
    then some (mulh (as_i32 a) (as_i32 b))
    else if funct3 == 2
    then some (mulhsu (as_i32 a) b)
    else if funct3 == 3
    then some (mulhu a b)
    else if funct3 == 4
    then some (div_s (as_i32 a) (as_i32 b))
    else if funct3 == 5
    then some (div_u a b)
    else if funct3 == 6
    then some (rem_s (as_i32 a) (as_i32 b))
    else if funct3 == 7
    then some (rem_u a b)
    else none

-- The value of a base OP instruction.
unfoldable pub op_base : ℕ → ℕ → ℕ → ℕ → Option ℕ
op_base funct3 funct7 a b =
    let shamt = bit_and b 0x1f in
    if funct3 == 0
    then (if funct7 == 0
        then some (wrapping_add a b)
        else if funct7 == 0x20
        then some (wrapping_sub a b)
        else none)
    else if funct3 == 1
    then some (a <<< shamt)
    else if funct3 == 2
    then some (from_bool (ltb_ℤ (as_i32 a) (as_i32 b)))
    else if funct3 == 3
    then some (from_bool (ltb a b))
    else if funct3 == 4
    then some (bit_xor a b)
    else if funct3 == 5
    then (if funct7 == 0
        then some (a >>> shamt)
        else if funct7 == 0x20
        then some (as_u32 (shift_right (as_i32 a) shamt))
        else none)
    else if funct3 == 6
    then some (bit_or a b)
    else if funct3 == 7
    then some (bit_and a b)
    else none

unfoldable pub op : ℕ → ℕ → ℕ → ℕ → Option ℕ
unfolding op_m op_base
op funct3 funct7 a b = if funct7 == 1 then op_m funct3 a b else op_base funct3 funct7 a b
