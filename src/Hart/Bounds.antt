-- ===== src/Hart/Bounds.antt =====
-- The ranges of the values in crates/systemrs-examples/src/rv32i.rs: what an instruction computes is a
-- 32-bit word, and register zero stays zero.
pub mod Instructions
use Prim.Native.Nat.{bit_and, bit_or, bit_xor}
use native.Mathlib.Nat.{one-le-pow}
use systemrs.Base.{
  ℕ, zero, suc, ◌+◌, ◌-◌, ◌*◌, ◌/◌, ◌%◌, ◌^◌, ◌≤◌, ◌<◌, List, [], ◌∷◌, Bool, true, false, not,
  Option, none, some, ◌==◌, ◌||◌, ltb, if◌then◌else◌, ◌≡◌, refl, arith, All, length, get_elem?, set,
  length-set, Bool-cases, inl, inr,
}
use systemrs.Base.Bits.{bit_and-le, bit_or-lt, bit_xor-lt, bit_and_mask, bit_and_high_mask}
use systemrs.Base.Int.{ℤ}
use systemrs.Base.Word.{as_u32, as_u32-lt, as_i32, bit_not, is_zero_ℤ}
use systemrs.Hart.{
  Bus, Csrs, HartState, StepResult, Trap, get_reg, set_reg, csr_read, csr_write, csr_value, csr_op,
  do_write, apply_mret, take_trap, cause,
}
use systemrs.Hart.Alu.{
  mulh, mulhsu, mulhu, div_s, div_u, rem_s, rem_u, from_bool, branch_taken, op_imm, op_m, op_base,
  op,
}
use systemrs.Hart.Decode
use systemrs.Hart.Decode.Fields.{imm_u-mod, rs1-mod}
use systemrs.Hart.Exec.{
  Outcome, commit, load_value, write_back, branch, load, store, system, step, load_len, store_len,
}

abbrev pub IsWord : ℕ → Type 0
IsWord w = w < 4294967296

abbrev pub AllSome : (ℕ → Type 0) → Option ℕ → Type 0
AllSome P none = Unit {0}
AllSome P (some v) = P v

-- A property of both branches.
module _ {ℓ κ} {A : Type ℓ} (P : A → Type κ) where
  pub if_both : (c : Bool) {x y : A} → P x → P y → P (if c then x else y)
  if_both true p q = p
  if_both false p q = q

-- The register file: 32 words, the first of which is zero.
pub record IsRegs (regs : List ℕ) : Type 0 where
  pub count : length regs ≡ 32
  pub words : All IsWord regs
  pub zero_reg : get_elem? regs 0 ≡ some 0

pub record IsCsrs (csr : Csrs) : Type 0 where
  pub mstatus_word : IsWord csr.mstatus
  pub mie_word : IsWord csr.mie
  pub mip_word : IsWord csr.mip
  pub mtvec_word : IsWord csr.mtvec
  pub mepc_word : IsWord csr.mepc
  pub mcause_word : IsWord csr.mcause
  pub mscratch_word : IsWord csr.mscratch

pub record IsHart (st : HartState) : Type 0 where
  pub regs_ok : IsRegs st.regs
  pub pc_word : IsWord st.pc
  pub csr_ok : IsCsrs st.csr

-- A bus that reads words.
abbrev pub IsWordBus {ℓ} : {S : Type ℓ} → Bus S → Type ℓ
IsWordBus {S} bus = (s : S) (addr len : ℕ) → AllSome IsWord (bus.read s addr len).1

All-set : (P : ℕ → Type 0) (xs : List ℕ) (i v : ℕ) → All P xs → P v → All P (set xs i v)
All-set P [] i v h p = tt
All-set P (x ∷ xs) zero v (q, h) p = (p, h)
All-set P (x ∷ xs) (suc i) v (q, h) p = (q, All-set P xs i v h p)

pub get_reg-IsWord : (regs : List ℕ) (i : ℕ) → All IsWord regs → IsWord (get_reg regs i)
get_reg-IsWord [] i h = omega arith
get_reg-IsWord (x ∷ xs) zero (p, h) = p
get_reg-IsWord (x ∷ xs) (suc i) (p, h) = get_reg-IsWord xs i h

set-IsRegs :
    (regs : List ℕ) (rd v : ℕ) → (rd == 0) ≡ false → IsRegs regs → IsWord v → IsRegs (set regs rd v)
set-IsRegs regs zero v ne r w = absurd (ground arith)
set-IsRegs [] (suc rd) v ne r w = r
set-IsRegs (x ∷ xs) (suc rd) v ne r w = record {
  count = omega (arith, r.count, length-set xs rd v);
  words = (r.words.0, All-set IsWord xs rd v r.words.1 w);
  zero_reg = r.zero_reg;
}

pub set_reg-IsRegs :
    (regs : List ℕ) (rd v : ℕ) → IsRegs regs → IsWord v → IsRegs (set_reg regs rd v)
unfolding set_reg
set_reg-IsRegs regs rd v r w = elim (Bool-cases (rd == 0)) [
  | inl e ↦ rw e r
  | inr ne ↦ rw ne (set-IsRegs regs rd v ne r w)
]

-- Bit operations on words.
pub bit_and-IsWord : (a b : ℕ) → IsWord a → IsWord (bit_and a b)
bit_and-IsWord a b h = bit_and-le 32 a b h

pub bit_or-IsWord : (a b : ℕ) → IsWord a → IsWord b → IsWord (bit_or a b)
bit_or-IsWord a b h g = bit_or-lt 32 a b h g

bit_xor-IsWord : (a b : ℕ) → IsWord a → IsWord b → IsWord (bit_xor a b)
bit_xor-IsWord a b h g = bit_xor-lt 32 a b h g

shr-IsWord : (a k : ℕ) → IsWord a → IsWord (a / 2 ^ k)
shr-IsWord a k h = grind (arith, one-le-pow k 2)

from_bool-IsWord : (c : Bool) → IsWord (from_bool c)
from_bool-IsWord true = omega arith
from_bool-IsWord false = omega arith

module _ (a b : ℕ) (ha : IsWord a) (hb : IsWord b) where
  op_m-IsWord : (f3 : ℕ) → AllSome IsWord (op_m f3 a b)
  unfolding op_m mulh mulhsu mulhu div_s div_u rem_s rem_u
  op_m-IsWord f3 =
      let P = AllSome IsWord in
      if_both P (f3 == 0) (omega arith) (
        if_both P (f3 == 1) (as_u32-lt _) (
          if_both P (f3 == 2) (as_u32-lt _) (
            if_both P (f3 == 3) (omega arith) (
              if_both P (f3 == 4)
                (if_both IsWord (is_zero_ℤ (as_i32 b)) (omega arith) (as_u32-lt _))
                (if_both P (f3 == 5) (if_both IsWord (b == 0) (omega arith) (grind arith)) (
                  if_both P (f3 == 6)
                    (if_both IsWord (is_zero_ℤ (as_i32 b)) (as_u32-lt _) (as_u32-lt _))
                    (if_both P (f3 == 7) (if_both IsWord (b == 0) ha (grind arith)) tt)))))))

  op_base-IsWord : (f3 f7 : ℕ) → AllSome IsWord (op_base f3 f7 a b)
  unfolding op_base
  op_base-IsWord f3 f7 =
      let P = AllSome IsWord in
      if_both P (f3 == 0)
        (if_both P (f7 == 0) (omega arith) (if_both P (f7 == 0x20) (omega arith) tt))
        (if_both P (f3 == 1) (omega arith) (
          if_both P (f3 == 2) (from_bool-IsWord _) (
            if_both P (f3 == 3) (from_bool-IsWord _) (
              if_both P (f3 == 4) (bit_xor-IsWord a b ha hb) (
                if_both P (f3 == 5)
                  (if_both P (f7 == 0) (shr-IsWord a (bit_and b 0x1f) ha)
                    (if_both P (f7 == 0x20) (as_u32-lt _) tt))
                  (if_both P (f3 == 6) (bit_or-IsWord a b ha hb)
                    (if_both P (f3 == 7) (bit_and-IsWord a b ha) tt)))))))

  pub op-IsWord : (f3 f7 : ℕ) → AllSome IsWord (op f3 f7 a b)
  unfolding op
  op-IsWord f3 f7 = if_both (AllSome IsWord) (f7 == 1) (op_m-IsWord f3) (op_base-IsWord f3 f7)

pub op_imm-IsWord :
    (f3 f7 shamt a : ℕ) (imm : ℤ) → IsWord a → AllSome IsWord (op_imm f3 f7 shamt a imm)
unfolding op_imm
op_imm-IsWord f3 f7 shamt a imm ha =
    let P = AllSome IsWord in
    let hi = as_u32-lt imm in
    if_both P (f3 == 0) (omega arith) (
      if_both P (f3 == 2) (from_bool-IsWord _) (
        if_both P (f3 == 3) (from_bool-IsWord _) (
          if_both P (f3 == 4) (bit_xor-IsWord a (as_u32 imm) ha hi) (
            if_both P (f3 == 6) (bit_or-IsWord a (as_u32 imm) ha hi) (
              if_both P (f3 == 7) (bit_and-IsWord a (as_u32 imm) ha) (
                if_both P (f3 == 1) (omega arith) (
                  if_both P (f3 == 5)
                    (if_both IsWord (not (bit_and f7 0x20 == 0)) (as_u32-lt _)
                      (shr-IsWord a shamt ha))
                    tt)))))))
