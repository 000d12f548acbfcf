-- ===== src/Hart/Soc.antt =====
-- crates/systemrs-examples/src/rv32i.rs, `build_soc_hart`: the thread of the machine-mode hart, which
-- takes interrupts. The levels of the lines are read off the state of the bus; a line that is not in the
-- table panics, which is `none`.
pub mod Interrupts
use Prim.Native.Nat.{bit_and, bit_or}
use systemrs.Base.{ℕ, Bool, true, false, Option, none, some, ◌==◌, if◌then◌else◌}
use systemrs.Base.Word.{bit_not}
use systemrs.Time.{SimTime, is_zero}
use systemrs.Kernel.Process.{WaitReq}
use systemrs.Irq.{IrqController, IrqLine, pending}
use systemrs.Hart.{
  Bus, Csrs, HartState, StepResult, Trap, is_set, take_trap, mstatus_mie, mip_msip, mip_mtip,
  mip_meip,
}
use systemrs.Hart.Exec.{Outcome, step}

pub record HartIrqs : Type 0 where
  pub timer : Option IrqLine
  pub software : Option IrqLine
  pub external : Option IrqLine

-- `line.is_some_and(|l| l.pending(cx))`
abbrev pub is_pending : IrqController → Option IrqLine → Option Bool
is_pending controller none = some false
is_pending controller (some line) = pending line controller

-- The pending bits, cleared and then set by the lines.
abbrev pub or_if : ℕ → ℕ → Bool → ℕ
or_if mip bit on = if on then bit_or mip bit else mip

abbrev pub cleared : ℕ → ℕ
cleared mip = bit_and mip (bit_not (bit_or (bit_or mip_msip mip_mtip) mip_meip))

infixl 5 ◌>>=◌
abbrev ◌>>=◌ {ℓ κ} : {A : Type ℓ} {B : Type κ} → Option A → (A → Option B) → Option B
none >>= f = none
some a >>= f = f a

unfoldable pub sample_irqs : IrqController → Csrs → HartIrqs → Option Csrs
unfolding pending
sample_irqs controller csr irqs = do
  software ← is_pending controller irqs.software
  timer ← is_pending controller irqs.timer
  external ← is_pending controller irqs.external
  some (record csr {
    mip =
        or_if (or_if (or_if (cleared csr.mip) mip_msip software) mip_mtip timer) mip_meip external;
  })

unfoldable pub pending_interrupt : Csrs → Option Trap
pending_interrupt csr =
    if bit_and csr.mstatus mstatus_mie == 0
    then none
    else let active = bit_and csr.mip csr.mie in
      if is_set active mip_meip
      then some Trap.machine_external
      else if is_set active mip_msip
      then some Trap.machine_software
      else if is_set active mip_mtip
      then some Trap.machine_timer
      else none

abbrev pub take_pending : HartState → Option Trap → HartState
take_pending st none = st
take_pending st (some trap) = take_trap st trap

module _ {ℓ} {S : Type ℓ} (bus : Bus S) (lines : S → IrqController) (irqs : HartIrqs)
    (cycle : SimTime) (wake : ℕ) where
  -- What a round leaves in the cell of the hart, and its wait.
  abbrev pub SocRound : Type ℓ
  SocRound = S × HartState × Option WaitReq

  abbrev pub cycle_wait : Option WaitReq
  cycle_wait = if is_zero cycle then none else some (WaitReq.time cycle)

  -- Steps 3 and 4 of the loop; a hart that waits for an interrupt samples the lines once more.
  abbrev pub executed : Outcome bus → Option SocRound
  executed (s, st, StepResult.next) = some (s, st, cycle_wait)
  executed (s, st, StepResult.trapped trap) = some (s, take_trap st trap, cycle_wait)
  executed (s, st, StepResult.wait_for_interrupt) = do
    csr ← sample_irqs (lines s) st.csr irqs
    some (
      s,
      record st { csr = csr },
      (if bit_and csr.mip csr.mie == 0 then some (WaitReq.event wake) else none),
    )

  abbrev pub fetched : HartState → S × Option ℕ → Option SocRound
  fetched st (s, none) = some (s, take_trap st Trap.instruction_access_fault, cycle_wait)
  fetched st (s, some inst) = executed (step bus s st inst)

  unfoldable pub soc_round : S → HartState → Option SocRound
  soc_round s st = do
    csr ← sample_irqs (lines s) st.csr irqs
    let st' = take_pending (record st { csr = csr }) (pending_interrupt csr)
    fetched st' (bus.read s st'.pc 4)
