-- ===== src/Tests/Snapshots.antt =====
-- The theorems on snapshots at a kernel with one process and one event.
use systemrs.Base.{◌≡◌, refl, [], ◌∷◌, true, false, some, arith, ◌==◌, Bool-cases, inl, inr, subst}
use mathlib.Core.Option.{some-injective}
use systemrs.Base.Arena.{empty, insert, Dense}
use systemrs.Time.{picosecond}
use systemrs.Kernel.Event.{Event}
use systemrs.Kernel.Event
use systemrs.Kernel.Process.{Process, ProcKind, ProcessBody, WaitState}
use systemrs.Kernel.State.{Inner, Phase, TimedTarget, GateOutcome}
use systemrs.Kernel.State
use systemrs.Kernel.Wheel.{runnable_empty, next_timed_when, drop_dead, is_live}
use systemrs.Kernel.Ctx.{new_process}
use systemrs.Kernel.Delta.{ensure_started}
use systemrs.Kernel.Activate.{Program, done}
use systemrs.Kernel.Sched.{run_until}
use systemrs.Kernel.Snapshot.Idle.{run_until-idle, moved, evaluating}
use systemrs.Kernel.Snapshot.{capture, snapshot, apply, is_quiescent}
use systemrs.Kernel.Snapshot.Settled.{Settled, Rebuilt, apply-snapshot}
use systemrs.Kernel.Snapshot.Unstarted.{unstarted-lost}

abbrev built : Process
built = new_process ProcKind.method (ProcessBody.method true) []

-- A model of one method, which runs at the start, and one event.
abbrev rebuilt : Inner
rebuilt = record (State.new picosecond) {
  procs = insert empty built;
  events = insert empty Event.new;
  initial_procs = 0 ∷ [];
}

-- The same model, run until the method waits.
abbrev settled : Inner
settled = record rebuilt {
  procs = insert empty (record built { wait = WaitState.timed; wait_gen = 3 });
  initial_procs = [];
  started = true;
  phase = Phase.evaluate;
  now = 40;
  delta_count = 4;
  seq = 4;
  timed = record { when = 50; seq = 3; target = TimedTarget.wake 0 3 } ∷ [];
}

one-Dense : {A : Type 0} (v : A) → Dense (insert empty v)
one-Dense v = ((λ k lt. (v, ground arith)), (λ k le. ground arith))

settled-Settled : Settled settled
unfolding is_quiescent runnable_empty
settled-Settled = record {
  quiescent = refl;
  started = refl;
  initial = refl;
  no_update = λ c. refl;
  not_queued = λ k p found. elim (Bool-cases (0 == k)) [
    | inl here ↦ subst (λ q. q.queued ≡ false) (some-injective _ p (rw (here) at found)) refl
    | inr apart ↦ absurd (cc (rw (apart) at found))
  ];
  dense_procs = one-Dense _;
  dense_events = one-Dense _;
}

settled-Rebuilt : Rebuilt settled rebuilt
settled-Rebuilt = record {
  procs = λ k. elim (Bool-cases (0 == k)) [
    | inl here ↦ rw (here) (built, refl, refl, refl, refl, refl)
    | inr apart ↦ rw (apart) refl
  ];
  events = λ k. elim (Bool-cases (0 == k)) [
    | inl here ↦ rw (here) (Event.new, refl, refl, refl)
    | inr apart ↦ rw (apart) refl
  ];
  procs_size = refl;
  events_size = refl;
  chans = refl;
  resolution = refl;
  starvation = refl;
  gate_installed = refl;
  elaborated = refl;
  ended = refl;
}

apply-snapshot_example :
    (snapshot settled ≡ some (capture settled))
    × (apply (capture settled) rebuilt ≡ (true, settled))
apply-snapshot_example = apply-snapshot settled rebuilt settled-Settled settled-Rebuilt

-- A model whose processes make no calls.
abbrev silent : Program (Unit {0})
silent = record {
  body = λ env s pid. (record { ops = []; suspends = true }, tt);
  update = λ env s chan. ([], tt);
  gate = λ env s. (GateOutcome.exit, [], tt);
  elaborate = λ env s. (some [], tt);
}

abbrev applied : Inner
unfolding apply capture
applied = (apply (capture rebuilt) rebuilt).1

unstarted-lost_example :
    (snapshot rebuilt ≡ some (capture rebuilt))
    × (applied.initial_procs ≡ [])
    × (ensure_started applied ≡ some applied)
unfolding apply capture is_quiescent runnable_empty
unstarted-lost_example = unstarted-lost rebuilt rebuilt applied 0 [] refl refl refl refl

run_until-idle_example :
    run_until silent 3 45 (settled, tt)
    ≡ done (moved 45 (next_timed_when (evaluating settled)).1, tt)
unfolding is_quiescent runnable_empty next_timed_when drop_dead is_live
run_until-idle_example = run_until-idle silent 0 45 50 settled tt refl refl refl refl refl
