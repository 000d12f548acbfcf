-- ===== src/Kernel/Process.antt =====
-- crates/systemrs-kernel/src/process.rs: processes, their wait requests and wait states. The name of
-- a process and its `WakeReason`, which nothing reads, are left out.
use systemrs.Base.{ℕ, List, Bool, true, false, Option}
use systemrs.Time.{SimTime}

pub data ProcKind : Type 0 where
  method thread : ProcKind

-- A body is a closure or a coroutine, taken out of its slot while it runs: the model keeps whether
-- the slot is filled.
pub data ProcessBody : Type 0 where
  method : Bool → ProcessBody
  thread : Bool → ProcessBody

pub data WaitReq : Type 0 where
  time : SimTime → WaitReq
  event : ℕ → WaitReq
  event_timeout : ℕ → SimTime → WaitReq
  or : List ℕ → WaitReq
  or_timeout : List ℕ → SimTime → WaitReq
  and : List ℕ → WaitReq

pub data WaitState : Type 0 where
  static : WaitState
  timed : WaitState
  event : ℕ → WaitState
  or : List ℕ → WaitState
  and : List ℕ → WaitState

pub record Process : Type 0 where
  pub kind : ProcKind
  pub body : ProcessBody
  pub static_sens : List ℕ
  pub wait : WaitState
  pub wait_gen : ℕ
  pub pending_wait : Option WaitReq
  pub queued : Bool
  pub dead : Bool

unfoldable pub in_dynamic_wait : Process → Bool
in_dynamic_wait p = elim p.wait [ WaitState.static ↦ false | _ ↦ true ]
