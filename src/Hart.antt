-- ===== src/Hart.antt =====
-- crates/systemrs-examples/src/rv32i.rs: the RV32IM hart. This file has its state, its traps and its
-- control registers; the children have the instructions, the assembler and the threads.
pub mod Alu
pub mod Asm
pub mod Decode
pub mod Exec
pub mod Bounds
pub mod Handlers
pub mod Socket
pub mod Run
pub mod Soc
use Prim.Native.Nat.{bit_and, bit_or}
use systemrs.Base.{
  ℕ, ◌/◌, ◌*◌, List, Bool, true, false, not, Option, none, some, ◌==◌, ◌||◌, if◌then◌else◌, set,
  get_elem?, replicate,
}
use systemrs.Base.Word.{bit_not}

abbrev pub num_regs : ℕ
num_regs = 32

abbrev pub csr_mstatus : ℕ
csr_mstatus = 0x300

abbrev pub csr_mie : ℕ
csr_mie = 0x304

abbrev pub csr_mtvec : ℕ
csr_mtvec = 0x305

abbrev pub csr_mscratch : ℕ
csr_mscratch = 0x340

abbrev pub csr_mepc : ℕ
csr_mepc = 0x341

abbrev pub csr_mcause : ℕ
csr_mcause = 0x342

abbrev pub csr_mip : ℕ
csr_mip = 0x344

abbrev pub mstatus_mie : ℕ
mstatus_mie = 0x8

abbrev pub mstatus_mpie : ℕ
mstatus_mpie = 0x80

abbrev pub mstatus_mpp : ℕ
mstatus_mpp = 0x1800

abbrev pub mip_msip : ℕ
mip_msip = 0x8

abbrev pub mip_mtip : ℕ
mip_mtip = 0x80

abbrev pub mip_meip : ℕ
mip_meip = 0x800

-- The trait `Bus`: an access of a number of bytes, which may fail.
pub record Bus {ℓ} (S : Type ℓ) : Type ℓ where
  pub read : S → ℕ → ℕ → S × Option ℕ
  pub write : S → ℕ → ℕ → ℕ → S × Bool

pub data Trap : Type 0 where
  instruction_access_fault illegal_instruction breakpoint load_access_fault store_access_fault
        ecall_from_m machine_software machine_timer machine_external :
      Trap

unfoldable pub cause : Trap → ℕ
cause Trap.instruction_access_fault = 1
cause Trap.illegal_instruction = 2
cause Trap.breakpoint = 3
cause Trap.load_access_fault = 5
cause Trap.store_access_fault = 7
cause Trap.ecall_from_m = 11
cause Trap.machine_software = 0x8000_0003
cause Trap.machine_timer = 0x8000_0007
cause Trap.machine_external = 0x8000_000b

unfoldable pub is_interrupt : Trap → Bool
is_interrupt Trap.machine_software = true
is_interrupt Trap.machine_timer = true
is_interrupt Trap.machine_external = true
is_interrupt _ = false

pub data StepResult : Type 0 where
  next : StepResult
  trapped : Trap → StepResult
  wait_for_interrupt : StepResult

pub record Csrs : Type 0 where
  pub mstatus : ℕ
  pub mie : ℕ
  pub mip : ℕ
  pub mtvec : ℕ
  pub mepc : ℕ
  pub mcause : ℕ
  pub mscratch : ℕ

pub record HartState : Type 0 where
  pub regs : List ℕ
  pub pc : ℕ
  pub csr : Csrs

unfoldable pub new : ℕ → HartState
new entry = record {
  regs = replicate num_regs 0;
  pc = entry;
  csr = record { mstatus = 0; mie = 0; mip = 0; mtvec = 0; mepc = 0; mcause = 0; mscratch = 0 };
}

unfoldable pub set_reg : List ℕ → ℕ → ℕ → List ℕ
set_reg regs rd value = if rd == 0 then regs else set regs rd value

-- `st.regs[i]`, at an index of five bits.
abbrev from_slot : Option ℕ → ℕ
from_slot none = 0
from_slot (some v) = v

abbrev pub get_reg : List ℕ → ℕ → ℕ
get_reg regs i = from_slot (get_elem? regs i)

unfoldable pub csr_read : Csrs → ℕ → ℕ
csr_read csr addr =
    if addr == csr_mstatus
    then csr.mstatus
    else if addr == csr_mie
    then csr.mie
    else if addr == csr_mtvec
    then csr.mtvec
    else if addr == csr_mscratch
    then csr.mscratch
    else if addr == csr_mepc
    then csr.mepc
    else if addr == csr_mcause
    then csr.mcause
    else if addr == csr_mip
    then csr.mip
    else 0

-- The pending bits belong to the lines: a write of them has no effect.
unfoldable pub csr_write : Csrs → ℕ → ℕ → Csrs
csr_write csr addr value =
    if addr == csr_mstatus
    then record csr { mstatus = value }
    else if addr == csr_mie
    then record csr { mie = value }
    else if addr == csr_mtvec
    then record csr { mtvec = value }
    else if addr == csr_mscratch
    then record csr { mscratch = value }
    else if addr == csr_mepc
    then record csr { mepc = value }
    else if addr == csr_mcause
    then record csr { mcause = value }
    else csr

-- The value that an access of a control register writes.
unfoldable pub csr_value : ℕ → ℕ → ℕ → ℕ → ℕ
csr_value funct3 old rs1v imm =
    if funct3 == 1
    then rs1v
    else if funct3 == 2
    then bit_or old rs1v
    else if funct3 == 3
    then bit_and old (bit_not rs1v)
    else if funct3 == 5
    then imm
    else if funct3 == 6
    then bit_or old imm
    else if funct3 == 7
    then bit_and old (bit_not imm)
    else old

unfoldable pub do_write : ℕ → ℕ → Bool
do_write funct3 rs1_field =
    if funct3 == 1 || funct3 == 5
    then true
    else if funct3 == 2 || funct3 == 3 || funct3 == 6 || funct3 == 7
    then not (rs1_field == 0)
    else false

unfoldable pub csr_op : HartState → ℕ → ℕ → ℕ → ℕ → ℕ → HartState
unfolding csr_read csr_write csr_value do_write set_reg
csr_op st funct3 addr rs1_field rs1v rd =
    let old = csr_read st.csr addr in
    record st {
      csr =
          if do_write funct3 rs1_field
          then csr_write st.csr addr (csr_value funct3 old rs1v rs1_field)
          else st.csr;
      regs = set_reg st.regs rd old;
    }

abbrev pub is_set : ℕ → ℕ → Bool
is_set word bit = not (bit_and word bit == 0)

unfoldable pub apply_mret : Csrs → Csrs
apply_mret csr =
    let status =
      if is_set csr.mstatus mstatus_mpie
      then bit_or csr.mstatus mstatus_mie
      else bit_and csr.mstatus (bit_not mstatus_mie) in
    record csr { mstatus = bit_or status mstatus_mpie }

unfoldable pub take_trap : HartState → Trap → HartState
unfolding cause
take_trap st trap =
    let status =
      if is_set st.csr.mstatus mstatus_mie
      then bit_or st.csr.mstatus mstatus_mpie
      else bit_and st.csr.mstatus (bit_not mstatus_mpie) in
    record st {
      csr = record st.csr {
        mepc = st.pc;
        mcause = cause trap;
        mstatus = bit_or (bit_and status (bit_not mstatus_mie)) mstatus_mpp;
      };
      pc = bit_and st.csr.mtvec (bit_not 3);
    }
