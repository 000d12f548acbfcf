-- ===== src/Tests/KernelRuns.antt =====
-- The theorems on the wheel, the delta cycle, waits, kills and whole runs, at the small kernel state.
use systemrs.Base.{◌≡◌, ◌≤◌, refl, [], ◌∷◌, Option, none, some, true, false, arith, incr_u64}
use systemrs.Time.{SimTime, add}
use systemrs.Kernel.Process.{ProcKind, WaitReq}
use systemrs.Kernel.State.{Inner, TimedTarget, GateOutcome, set_proc}
use systemrs.Kernel.Notify.{has_pending_delta, heap_push}
use systemrs.Kernel.Trigger.{trigger, fire_static, dynamic_loop, fire_dynamic}
use systemrs.Kernel.Wait.{install_wait, install_req}
use systemrs.Kernel.Wait.Timeouts.{install_wait-dead}
use systemrs.Kernel.Wait.ZeroTimeout.{zero_timeout-now}
use systemrs.Kernel.Wheel.{
  fire_entry, runnable_empty, drop_dead, is_live, next_timed_when, fire_timed_at,
}
use systemrs.Kernel.Ctx.{Op, kill, perform_all}
use systemrs.Kernel.Activate.{Program, Run, done, panicked, run_process, begin_activation}
use systemrs.Kernel.Activate.Killed.{kill-queued}
use systemrs.Kernel.Delta.{
  ensure_started, commit_and_notify, toggle_methods, toggle_threads, do_timestep,
}
use systemrs.Kernel.Sched.{run_until, drain_methods}
use systemrs.Kernel.Invariant.{Inv}
use systemrs.Kernel.Invariant.Wheel.{Earliest, next_timed_when-Earliest, Fired, fire_timed_at-Fired}
use systemrs.Kernel.Invariant.Runs.{Ends}
use systemrs.Kernel.Invariant.Until.{run_until-Inv}
use systemrs.Tests.KernelState.{sample, sample-Inv, thread_process, method_process, known_two}

-- A model whose processes ask to run again after 20 units, and whose threads then wait.
abbrev ticker : Program (Unit {0})
ticker = record {
  body = λ env s pid. (record { ops = Op.arms (WaitReq.time 20) ∷ []; suspends = true }, tt);
  update = λ env s chan. ([], tt);
  gate = λ env s. (GateOutcome.exit, [], tt);
  elaborate = λ env s. (some [], tt);
}

next_timed_when-Earliest_example : Earliest sample sample.timed (some 50)
unfolding next_timed_when is_live drop_dead
next_timed_when-Earliest_example = next_timed_when-Earliest sample sample-Inv

fire_timed_at-Fired_example : Fired 10 50 sample (fire_timed_at sample 50)
fire_timed_at-Fired_example = fire_timed_at-Fired sample 50 (omega arith, tt) sample-Inv

-- The thread waits: what the call leaves.
abbrev waits_for : WaitReq → Inner
waits_for req =
    install_req req 1 ProcKind.thread (incr_u64 0)
      (set_proc sample 1 (λ q. record q { wait_gen = incr_u64 q.wait_gen }))

install_wait-dead_example :
    is_live
      (waits_for (WaitReq.time 5))
      (record { when = 60; seq = 0; target = TimedTarget.wake 1 0 })
    ≡ false
unfolding install_wait
install_wait-dead_example =
    install_wait-dead sample (waits_for (WaitReq.time 5)) 1 (WaitReq.time 5) thread_process 60 0
      refl (omega arith) refl

zero_timeout-now_example :
    ((waits_for (WaitReq.event_timeout 2 0)).now ≡ 10)
    × ((next_timed_when (waits_for (WaitReq.event_timeout 2 0))).0
        ≡ some (waits_for (WaitReq.event_timeout 2 0)).now)
unfolding install_wait
zero_timeout-now_example =
    zero_timeout-now sample (waits_for (WaitReq.event_timeout 2 0)) 1 2 thread_process sample-Inv
      refl refl known_two refl

abbrev both_queued : Inner
both_queued = record sample { thread_pop = 1 ∷ []; method_pop = 0 ∷ [] }

kill-queued_example :
    ((kill both_queued 1).thread_pop ≡ 1 ∷ [])
    × ((kill both_queued 1).thread_push ≡ both_queued.thread_push)
    × (run_process ticker ProcKind.thread 1 (record (kill both_queued 1) { thread_pop = [] }, tt)
        ≡ panicked)
    × ((kill both_queued 0).method_pop ≡ 0 ∷ [])
    × ((kill both_queued 0).method_push ≡ both_queued.method_push)
    × ((t : Inner) × (begin_activation ProcKind.method
            (record (kill both_queued 0) { method_pop = [] })
            0
          ≡ some t)
        × (t.running ≡ some 0))
kill-queued_example =
    kill-queued ticker tt both_queued 1 0 [] [] thread_process method_process refl refl refl refl
      refl refl refl refl

run_until-Inv_example :
    Ends
      (λ (m : Inner × Unit {0}). Inv 10 m.0 × (10 ≤ m.0.now))
      (run_until ticker 20 100 (sample, tt))
run_until-Inv_example = run_until-Inv ticker 20 100 sample tt (omega arith) sample-Inv

-- The run returns: the clock stands at the last event, since nothing is left to do.
now_of : Run (Inner × Unit {0}) → Option SimTime
now_of (done (s, env)) = some s.now
now_of _ = none

run_returns : now_of (run_until ticker 4 100 (sample, tt)) ≡ some 50
unfolding run_until now_of perform_all ensure_started has_pending_delta commit_and_notify
    drain_methods toggle_methods trigger fire_dynamic dynamic_loop fire_static toggle_threads
    runnable_empty next_timed_when drop_dead is_live fire_timed_at do_timestep heap_push add
    fire_entry
run_returns = refl
