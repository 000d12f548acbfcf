-- ===== src/Kernel/Delta.antt =====
-- The delta cycle and the time step of crates/systemrs-kernel/src/sim.rs: `commit_and_notify`, the
-- toggles of the run queues, `do_timestep` and `ensure_started`. Stage hooks and the time-advance hook
-- are documented as read-only and are left out.
pub mod Wakes
pub mod Fires
use systemrs.Base.{
  ℕ, List, [], ◌∷◌, Option, none, some, true, false, reverse, ltb, if◌then◌else◌, incr_u64,
}
use systemrs.Time.{SimTime}
use systemrs.Kernel.Event.{Pending}
use systemrs.Kernel.State.{Inner, Phase, pending_of, set_pending, set_proc}
use systemrs.Kernel.Trigger.{make_runnable, trigger, enqueue}
use systemrs.Kernel.Wheel.{still_waits}
use systemrs.Kernel.Ctx.{perform_all}
use systemrs.Kernel.Activate.{Program, Run, done, or_panic, ◌>>=◌}

unfoldable pub toggle_methods : Inner → Inner
toggle_methods s = elim s.method_pop [
  | [] ↦ record s { method_pop = s.method_push; method_push = [] }
  | _ ∷ _ ↦ s
]

unfoldable pub toggle_threads : Inner → Inner
toggle_threads s = elim s.thread_pop [
  | [] ↦ record s { thread_pop = s.thread_push; thread_push = [] }
  | _ ∷ _ ↦ s
]

-- DELTA NOTIFY: the events from the last slot down, each if it is still pending.
abbrev pub fire_pending : Inner → ℕ → Pending → Inner
fire_pending s ev (Pending.delta idx) = trigger (set_pending s ev Pending.none) ev
fire_pending s ev (Pending.timed seq when) = s
fire_pending s ev Pending.none = s

unfoldable pub fire_deltas : List ℕ → Inner → Inner
fire_deltas [] s = s
fire_deltas (ev ∷ evs) s = fire_deltas evs (fire_pending s ev (pending_of s ev))

unfoldable pub wake_deltas : List (ℕ × ℕ) → Inner → Inner
wake_deltas [] s = s
wake_deltas ((pid, generation) ∷ wakes) s =
    wake_deltas wakes (if still_waits generation (s.procs.get pid) then make_runnable s pid else s)

-- The notify phase of `commit_and_notify`.
unfoldable pub notify_phase : Inner → Inner
unfolding fire_deltas wake_deltas
notify_phase s =
    let s₁ =
      fire_deltas (reverse s.delta_events) (record s { phase = Phase.notify; delta_events = [] }) in
    let s₂ = wake_deltas s₁.delta_wakes (record s₁ { delta_wakes = [] }) in
    record s₂ { delta_count = incr_u64 s₂.delta_count }

-- The start of `commit_and_notify`: the update queue is taken.
unfoldable pub begin_update : Inner → Inner
begin_update s = record s {
  phase = Phase.update;
  change_stamp = incr_u64 s.change_stamp;
  update_queue = [];
  update_pending = λ _. false;
}

-- `Sim::do_timestep`, as a release build runs it: the assertion that time grows is a debug one.
unfoldable pub do_timestep : Inner → SimTime → Inner
do_timestep s when = record s {
  now = when;
  change_stamp = incr_u64 s.change_stamp;
  delta_count_baseline_at_now = s.delta_count;
}

abbrev pub queue_initial : List ℕ → Inner → Option Inner
queue_initial [] s = some s
queue_initial (pid ∷ pids) s = elim (s.procs.get pid) [
  | none ↦ none
  | some p ↦
      queue_initial pids (enqueue p.kind pid (set_proc s pid (λ q. record q { queued = true })))
]

unfoldable pub ensure_started : Inner → Option Inner
ensure_started s =
    if s.started
    then some s
    else queue_initial s.initial_procs (record s { started = true; initial_procs = [] })

module _ {E : Type 0} (program : Program E) where
  unfoldable pub update_channels : List ℕ → Inner × E → Run (Inner × E)
  update_channels [] m = done m
  update_channels (chan ∷ chans) (s, env) =
      if ltb chan s.chans
      then (do
        let (ops, env') = program.update env s chan
        s' ← or_panic (perform_all ops s)
        update_channels chans (s', env'))
      else update_channels chans (s, env)

  unfoldable pub commit_and_notify : Inner × E → Run (Inner × E)
  unfolding begin_update update_channels notify_phase
  commit_and_notify (s, env) = do
    (s', env') ← update_channels s.update_queue (begin_update s, env)
    done (notify_phase s', env')
