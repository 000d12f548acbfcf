-- ===== src/Hart/Run.antt =====
-- crates/systemrs-examples/src/rv32i.rs, `build_hart`: the thread of the simple hart, over any bus. The
-- wait of a round is part of its outcome.
pub mod SumProgram
pub mod InMemory
use systemrs.Base.{ℕ, zero, suc, Option, none, some, if◌then◌else◌}
use systemrs.Time.{SimTime, is_zero}
use systemrs.Kernel.Process.{WaitReq}
use systemrs.Hart.{Bus, HartState, StepResult}
use systemrs.Hart.Exec.{Outcome, step}

-- A round of the loop ends with a wait, if the cycle takes time, or with `break`.
pub data Round {ℓ} (S : Type ℓ) : Type ℓ where
  again : S → HartState → Option WaitReq → Round S
  halted : S → HartState → Round S

module _ {ℓ} {S : Type ℓ} (bus : Bus S) (cycle : SimTime) where
  abbrev pub stepped : Outcome bus → Round S
  stepped (s, st, StepResult.next) =
      Round.again s st (if is_zero cycle then none else some (WaitReq.time cycle))
  stepped (s, st, StepResult.trapped trap) = Round.halted s st
  stepped (s, st, StepResult.wait_for_interrupt) = Round.halted s st

  abbrev pub fetched : HartState → S × Option ℕ → Round S
  fetched st (s, none) = Round.halted s st
  fetched st (s, some inst) = stepped (step bus s st inst)

  unfoldable pub hart_round : S → HartState → Round S
  hart_round s st = fetched st (bus.read s st.pc 4)

  -- The loop; `none` is a loop that has not ended within the fuel.
  unfoldable pub run_hart : ℕ → S → HartState → Option (S × HartState)
  unfolding hart_round
  run_hart zero s st = none
  run_hart (suc fuel) s st = elim (hart_round s st) [
    | Round.again s' st' wait ↦ run_hart fuel s' st'
    | Round.halted s' st' ↦ some (s', st')
  ]
