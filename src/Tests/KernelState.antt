-- ===== src/Tests/KernelState.antt =====
-- A small kernel state, and the theorems on notifications, triggers and waits at it: event 0 has a delta
-- notification pending, event 1 a timed one and event 2 none; process 0 is a method, sensitive to
-- event 2, and process 1 a thread that waits for event 2.
use systemrs.Base.{ℕ, ◌≡◌, refl, [], ◌∷◌, none, some, true, false, arith, zero, suc, get_elem?}
use systemrs.Time.{picosecond, add}
use systemrs.Kernel.Event.{Event, Pending}
use systemrs.Kernel.Event
use systemrs.Kernel.Process.{Process, ProcKind, ProcessBody, WaitState}
use systemrs.Kernel.State.{Inner, TimedEntry, TimedTarget, IsEvent, pending_of}
use systemrs.Kernel.State
use systemrs.Base.Arena.{empty, insert}
use systemrs.Kernel.Notify.Slots.{SlotsAgree}
use systemrs.Kernel.Notify.Collapse.{Call, due_of, call, at, call-collapse, call-SlotsAgree}
use systemrs.Kernel.Trigger.{trigger, resolve_wait}
use systemrs.Kernel.Trigger.Fifo.{trigger-order}
use systemrs.Kernel.Invariant.{Inv}

abbrev pub worker : ProcKind → ProcessBody → WaitState → Process
worker kind body wait = record {
  kind = kind;
  body = body;
  static_sens = [];
  wait = wait;
  wait_gen = 0;
  pending_wait = none;
  queued = false;
  dead = false;
}

abbrev pub method_process : Process
method_process = worker ProcKind.method (ProcessBody.method true) WaitState.static

abbrev pub thread_process : Process
thread_process = worker ProcKind.thread (ProcessBody.thread true) (WaitState.event 2)

abbrev pub sample : Inner
sample = record (State.new picosecond) {
  procs = insert (insert empty method_process) thread_process;
  events =
      insert
        (insert (insert empty (record Event.new { pending = Pending.delta 0 }))
          (record Event.new { pending = Pending.timed 0 50 }))
        (record Event.new { static_methods = 0 ∷ []; dynamic_threads = 1 ∷ [] });
  delta_events = 0 ∷ [];
  timed = record { when = 50; seq = 0; target = TimedTarget.event 1 } ∷ [];
  seq = 1;
  now = 10;
}

holds_at :
    (i ev : ℕ) → get_elem? sample.delta_events i ≡ some ev → pending_of sample ev ≡ Pending.delta i
holds_at zero ev h = ground arith
holds_at (suc i) ev h = absurd (cc)

pub sample-SlotsAgree : SlotsAgree sample
sample-SlotsAgree = record { holds = holds_at; records = λ i ev h. ground arith }

pub sample-Inv : Inv 10 sample
sample-Inv = record {
  since = omega arith;
  slots = sample-SlotsAgree;
  bounded = λ k h. ground arith;
  sorted = (tt, tt);
  ahead = (omega arith, tt);
  fits = omega arith;
}

pub known_one : IsEvent sample 1
known_one = (record Event.new { pending = Pending.timed 0 50 }, refl)

pub known_two : IsEvent sample 2
known_two = (record Event.new { static_methods = 0 ∷ []; dynamic_threads = 1 ∷ [] }, refl)

call-collapse_example : due_of (call (Call.timed 5) sample 1) 1 ≡ at 15
unfolding add
call-collapse_example = call-collapse (Call.timed 5) sample 1 1 known_one

call-SlotsAgree_example : SlotsAgree (call Call.cancelled sample 0)
call-SlotsAgree_example =
    call-SlotsAgree Call.cancelled sample 0 sample-SlotsAgree
      (record Event.new { pending = Pending.delta 0 }, refl)

trigger-order_example :
    ((trigger sample 2).method_push ≡ 0 ∷ []) × ((trigger sample 2).thread_push ≡ 1 ∷ [])
unfolding resolve_wait
trigger-order_example =
    trigger-order sample 2 (((λ e. ground arith), tt), (tt, tt))
      (
        (
          record {
            process = method_process;
            found = refl;
            has_kind = refl;
            alive = refl;
            unqueued = refl;
            not_running = λ e. cc;
            waits = refl;
          },
          tt,
        ),
        tt,
      )
      (
        tt,
        (
          record {
            process = thread_process;
            found = refl;
            has_kind = refl;
            alive = refl;
            unqueued = refl;
            not_running = λ e. cc;
            waits = refl;
          },
          tt,
        ),
      )
