-- ===== src/Kernel/Activate.antt =====
-- The running of one process of crates/systemrs-kernel/src/sim.rs: `run_method` and `resume_thread`.
--
-- Process bodies, channel updates, the elaboration hook and the starvation gate are the model
-- author's code: a `Program` says what each asks of the kernel, as a function of the kernel's state
-- and of an environment of its own.
pub mod Killed
use systemrs.Base.{
  ℕ, zero, suc, List, [], ◌∷◌, Bool, Option, none, some, true, false, not, reverse, ltb, leb,
  if◌then◌else◌, ◌==◌, incr_u64, ◌||◌, ◌&&◌,
}
use systemrs.Time.{SimTime, is_inf}
use systemrs.Kernel.Event.{Pending}
use systemrs.Kernel.Process.{Process, ProcKind, ProcessBody, WaitReq, WaitState}
use systemrs.Kernel.State.{Inner, Phase, Starvation, GateOutcome, pending_of, set_pending, set_proc}
use systemrs.Kernel.Notify.{has_pending_delta}
use systemrs.Kernel.Trigger.{make_runnable, trigger, enqueue}
use systemrs.Kernel.Wait.{install_wait}
use systemrs.Kernel.Wheel.{next_timed_when, fire_timed_at, runnable_empty, still_waits, no_entry}
use systemrs.Kernel.Ctx.{Op, perform_all}

-- What one activation of a process does: its calls, and whether it suspends (a thread only).
pub record Activation : Type 0 where
  pub ops : List Op
  pub suspends : Bool

pub record Program (E : Type 0) : Type 0 where
  pub body : E → Inner → ℕ → Activation × E
  pub update : E → Inner → ℕ → List Op × E
  pub gate : E → Inner → GateOutcome × List Op × E
  pub elaborate : E → Inner → Option (List Op) × E

pub data Run {ℓ} (A : Type ℓ) : Type ℓ where
  done : A → Run A
  panicked : Run A
  out_of_fuel : Run A

infixl 5 ◌>>=◌
abbrev pub ◌>>=◌ {ℓ κ} : {A : Type ℓ} {B : Type κ} → Run A → (A → Run B) → Run B
done a >>= f = f a
panicked >>= f = panicked
out_of_fuel >>= f = out_of_fuel

abbrev pub or_panic {ℓ} : {A : Type ℓ} → Option A → Run A
or_panic none = panicked
or_panic (some a) = done a

abbrev pub has_body : ProcKind → ProcessBody → Bool
has_body ProcKind.method (ProcessBody.method b) = b
has_body ProcKind.thread (ProcessBody.thread b) = b
has_body ProcKind.method (ProcessBody.thread b) = false
has_body ProcKind.thread (ProcessBody.method b) = false

abbrev pub fill : Bool → ProcessBody → ProcessBody
fill b (ProcessBody.method _) = ProcessBody.method b
fill b (ProcessBody.thread _) = ProcessBody.thread b

-- `run_method` and `resume_thread` up to the body: an empty slot or one of the other kind panics.
unfoldable pub begin_activation : ProcKind → Inner → ℕ → Option Inner
begin_activation kind s pid = elim (s.procs.get pid) [
  | none ↦ none
  | some p ↦
      if has_body kind p.body
      then some
          (record (set_proc s pid
            (λ q. record q { queued = false; pending_wait = none; body = fill false q.body })) {
              running = some pid;
            })
      else none
]

-- `run_method` after the body.
unfoldable pub end_method : Inner → ℕ → Option Inner
end_method s pid = elim (s.procs.get pid) [
  | none ↦ none
  | some p ↦
      let s₁ : Inner =
        record (set_proc s pid (λ q. record q {
          pending_wait = none;
          body = if q.dead then q.body else fill true q.body;
        })) { running = none } in
      elim p.pending_wait [
        | none ↦ some (set_proc s₁ pid (λ q. record q { wait = WaitState.static }))
        | some req ↦ install_wait s₁ pid req
      ]
]

-- `resume_thread` after the body: suspended with a request, or finished.
unfoldable pub end_thread : Inner → ℕ → Bool → Option Inner
end_thread s pid true = elim (s.procs.get pid) [
  | none ↦ none
  | some p ↦ elim p.pending_wait [
    | none ↦ none
    | some req ↦
        install_wait
          (record (set_proc s pid
            (λ q. record q { pending_wait = none; body = fill true q.body })) { running = none })
          pid req
  ]
]
end_thread s pid false = elim (s.procs.get pid) [
  | none ↦ none
  | some p ↦ some (record (set_proc s pid (λ q. record q { dead = true })) { running = none })
]

abbrev pub end_activation : ProcKind → Inner → ℕ → Bool → Option Inner
end_activation ProcKind.method s pid suspends = end_method s pid
end_activation ProcKind.thread s pid suspends = end_thread s pid suspends

module _ {E : Type 0} (program : Program E) where
  unfoldable pub run_process : ProcKind → ℕ → Inner × E → Run (Inner × E)
  unfolding begin_activation end_method end_thread
  run_process kind pid (s, env) = do
    s₁ ← or_panic (begin_activation kind s pid)
    let (a, env') = program.body env s₁ pid
    s₂ ← or_panic (perform_all a.ops s₁)
    s₃ ← or_panic (end_activation kind s₂ pid a.suspends)
    done (s₃, env')
