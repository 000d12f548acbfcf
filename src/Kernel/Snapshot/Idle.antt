-- ===== src/Kernel/Snapshot/Idle.antt =====
-- Runs of a quiescent kernel with nothing due: `run_until` of crates/systemrs-kernel/src/sim.rs.
use systemrs.Base.{ℕ, suc, [], true, false, some, ◌≡◌, refl, subst, arith, if◌then◌else◌, ltb}
use systemrs.Time.{SimTime}
use systemrs.Kernel.State.{Inner, Phase}
use systemrs.Kernel.Notify.{has_pending_delta}
use systemrs.Kernel.Wheel.{next_timed_when, runnable_empty}
use systemrs.Kernel.Activate.{Program, done}
use systemrs.Kernel.Delta.{ensure_started, toggle_methods, toggle_threads}
use systemrs.Kernel.Sched.{
  drain_methods, evaluate, crunch, advance, run_loop, run_until, elaborate_once, commit_if_pending,
  is_build,
}
use systemrs.Kernel.Snapshot.{is_quiescent}
use systemrs.Kernel.Snapshot.Settled.{no_entry-nil, no_wake-nil}

abbrev pub evaluating : Inner → Inner
evaluating s = record s { phase = Phase.evaluate }

-- The kernel with its queues, its deltas and its phase as they are when it is quiescent.
abbrev cleared : Inner → Inner
cleared s = record s {
  method_pop = [];
  method_push = [];
  thread_pop = [];
  thread_push = [];
  delta_events = [];
  delta_wakes = [];
}

cleared-eq : (s : Inner) → is_quiescent s ≡ true → cleared s ≡ s
unfolding is_quiescent runnable_empty
cleared-eq s q =
    rw
      (
        no_entry-nil s.method_pop (ground (arith, q)),
        no_entry-nil s.method_push (ground (arith, q)),
        no_entry-nil s.thread_pop (ground (arith, q)),
        no_entry-nil s.thread_push (ground (arith, q)),
        no_entry-nil s.delta_events (ground (arith, q)),
        no_wake-nil s.delta_wakes (ground (arith, q)),
      )
      refl

-- Where the clock stands after a run to a time at which nothing is due.
abbrev pub moved : SimTime → Inner → Inner
moved end s = record s { now = if ltb s.now end then end else s.now }

module _ {E : Type 0} (program : Program E) where
  crunch-idle :
      (fuel : ℕ) (s : Inner) (env : E)
      → is_quiescent s ≡ true
      → crunch program (suc (suc fuel)) (s, env) ≡ done (evaluating s, env)
  unfolding crunch evaluate drain_methods toggle_methods toggle_threads runnable_empty
  crunch-idle fuel s env q =
      subst (λ t. crunch program (suc (suc fuel)) (t, env) ≡ done (evaluating t, env))
        (cleared-eq s q) refl

  has_pending_delta-idle : (s : Inner) → is_quiescent s ≡ true → has_pending_delta s ≡ false
  unfolding has_pending_delta
  has_pending_delta-idle s q = subst (λ t. has_pending_delta t ≡ false) (cleared-eq s q) refl

  elaborate_once-idle :
      (s : Inner) (env : E)
      → is_build s.phase ≡ false
      → elaborate_once program (s, env) ≡ done (s, env)
  unfolding elaborate_once
  elaborate_once-idle s env built = rw (built) refl

  ensure_started-idle : (s : Inner) → s.started ≡ true → ensure_started s ≡ some s
  unfolding ensure_started
  ensure_started-idle s started = rw (started) refl

  commit_if_pending-idle :
      (s : Inner) (env : E)
      → is_quiescent s ≡ true
      → commit_if_pending program (s, env) ≡ done (s, env)
  unfolding commit_if_pending
  commit_if_pending-idle s env quiet = rw (has_pending_delta-idle s quiet) refl

  advance-idle :
      (end when : SimTime) (s : Inner) (env : E)
      → (next_timed_when (evaluating s)).0 ≡ some when
      → ltb end when ≡ true
      → advance program end (evaluating s, env)
        ≡ done (false, (moved end (next_timed_when (evaluating s)).1, env))
  unfolding advance
  advance-idle end when s env next later = rw (next, advance) (rw (later) refl)

  -- A run of a quiescent kernel with nothing due up to its end returns, after one round: it calls no
  -- process, drops the dead entries in front of the heap, leaves the phase at evaluate, and changes
  -- nothing else but the clock, which it moves on to the end. The kernel has started and is not in its
  -- build phase, and its next live entry is later than the end.
  pub run_until-idle :
      (fuel : ℕ) (end when : SimTime) (s : Inner) (env : E)
      → is_quiescent s ≡ true
      → s.started ≡ true
      → is_build s.phase ≡ false
      → (next_timed_when (evaluating s)).0 ≡ some when
      → ltb end when ≡ true
      → run_until program (suc (suc (suc fuel))) end (s, env)
        ≡ done (moved end (next_timed_when (evaluating s)).1, env)
  unfolding run_until run_loop
  run_until-idle fuel end when s env quiet started built next later =
      rw (elaborate_once-idle s env built) (
        rw (ensure_started-idle s started) (
          rw (commit_if_pending-idle s env quiet)
            (rw (crunch-idle fuel s env quiet) (rw (advance-idle end when s env next later) refl))))
