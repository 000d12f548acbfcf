-- ===== src/Kernel/Snapshot.antt =====
-- crates/systemrs-kernel/src/snapshot.rs: the capture of the scheduler at a quiescent boundary, and its
-- application to a rebuilt model; `snapshot` and `restore` are those of `Sim` in sim.rs. The Boolean
-- of an application says whether it succeeded.
pub mod RoundTrip
pub mod Settled
pub mod Unstarted
pub mod Idle
use systemrs.Base.{
  ℕ, zero, suc, List, [], ◌∷◌, ◌++◌, Bool, true, false, Option, none, some, ◌&&◌, ◌||◌, not, length,
  map, if◌then◌else◌, ◌==◌,
}
use systemrs.Base.Arena.{Arena, modify}
use systemrs.Time.{SimTime}
use systemrs.Kernel.Event.{Event, Pending}
use systemrs.Kernel.Process.{Process, WaitState}
use systemrs.Kernel.State.{Inner, Phase, TimedEntry, set_event, set_proc}
use systemrs.Kernel.Wheel.{runnable_empty, no_entry}
use systemrs.Kernel.Activate.{Program, Run, done, ◌>>=◌}
use systemrs.Kernel.Sched.{elaborate_once}

pub record EventSnap : Type 0 where
  pub id : ℕ
  pub pending : Pending
  pub trigger_stamp : ℕ
  pub dynamic_methods : List ℕ
  pub dynamic_threads : List ℕ

pub record ProcSnap : Type 0 where
  pub id : ℕ
  pub wait : WaitState
  pub wait_gen : ℕ
  pub dead : Bool

pub record KernelSnapshot : Type 0 where
  pub now : SimTime
  pub delta_count : ℕ
  pub change_stamp : ℕ
  pub delta_count_baseline_at_now : ℕ
  pub seq : ℕ
  pub phase : Phase
  pub timed : List TimedEntry
  pub events : List EventSnap
  pub procs : List ProcSnap

abbrev pub is_none {ℓ} : {A : Type ℓ} → Option A → Bool
is_none none = true
is_none (some a) = false

abbrev pub no_wake : List (ℕ × ℕ) → Bool
no_wake [] = true
no_wake (w ∷ ws) = false

unfoldable pub is_quiescent : Inner → Bool
is_quiescent s =
    is_none s.running
    && runnable_empty s
    && no_entry s.update_queue
    && no_entry s.delta_events
    && no_wake s.delta_wakes

-- `iter().map(..).collect()` over an arena: the entries below a key, in the order of the keys.
abbrev pub entry_list {ℓ κ} : {A : Type ℓ} {B : Type κ} → (ℕ → A → B) → ℕ → Option A → List B
entry_list f k none = []
entry_list f k (some a) = f k a ∷ []

abbrev pub collect {ℓ κ} : {A : Type ℓ} {B : Type κ} → (ℕ → A → B) → (ℕ → Option A) → ℕ → List B
collect f get zero = []
collect f get (suc k) = collect f get k ++ entry_list f k (get k)

abbrev pub event_snap : ℕ → Event → EventSnap
event_snap id e = record {
  id = id;
  pending = e.pending;
  trigger_stamp = e.trigger_stamp;
  dynamic_methods = e.dynamic_methods;
  dynamic_threads = e.dynamic_threads;
}

abbrev pub proc_snap : ℕ → Process → ProcSnap
proc_snap id p = record { id = id; wait = p.wait; wait_gen = p.wait_gen; dead = p.dead }

unfoldable pub capture : Inner → KernelSnapshot
capture s = record {
  now = s.now;
  delta_count = s.delta_count;
  change_stamp = s.change_stamp;
  delta_count_baseline_at_now = s.delta_count_baseline_at_now;
  seq = s.seq;
  phase = s.phase;
  timed = s.timed;
  events = collect event_snap s.events.get s.events.size;
  procs = collect proc_snap s.procs.get s.procs.size;
}

-- `Sim::snapshot`
unfoldable pub snapshot : Inner → Option KernelSnapshot
unfolding is_quiescent capture
snapshot s = if is_quiescent s then some (capture s) else none

abbrev pub put_event : EventSnap → Event → Event
put_event es e = record e {
  pending = es.pending;
  trigger_stamp = es.trigger_stamp;
  dynamic_methods = es.dynamic_methods;
  dynamic_threads = es.dynamic_threads;
}

abbrev pub put_proc : ProcSnap → Process → Process
put_proc ps p = record p { wait = ps.wait; wait_gen = ps.wait_gen; dead = ps.dead; queued = false }

-- `for es in &snap.events` and `for ps in &snap.procs`: each entry is found by its key and assigned to.
unfoldable pub put_all {ℓ κ} :
    {A : Type ℓ} {B : Type κ} → (B → ℕ) → (B → A → A) → List B → Arena A → Bool × Arena A
put_all id put [] a = (true, a)
put_all id put (b ∷ bs) a =
    let rest = put_all id put bs (modify a (id b) (put b)) in
    elim (a.get (id b)) [ none ↦ (false, a) | some _ ↦ rest ]

unfoldable pub apply_events : List EventSnap → Inner → Bool × Inner
unfolding put_all
apply_events snaps s =
    let (found, a) = put_all (λ es. es.id) put_event snaps s.events in
    (found, record s { events = a })

unfoldable pub apply_procs : List ProcSnap → Inner → Bool × Inner
unfolding put_all
apply_procs snaps s =
    let (found, a) = put_all (λ ps. ps.id) put_proc snaps s.procs in (found, record s { procs = a })

-- The last assignments of `apply`.
abbrev pub park : Inner → Inner
park s = record s {
  started = true;
  running = none;
  method_pop = [];
  method_push = [];
  thread_pop = [];
  thread_push = [];
  update_queue = [];
  update_pending = λ _. false;
  delta_events = [];
  delta_wakes = [];
  initial_procs = [];
}

abbrev pub put_counters : KernelSnapshot → Inner → Inner
put_counters snap s = record s {
  now = snap.now;
  delta_count = snap.delta_count;
  change_stamp = snap.change_stamp;
  delta_count_baseline_at_now = snap.delta_count_baseline_at_now;
  seq = snap.seq;
  phase = snap.phase;
  timed = snap.timed;
}

unfoldable pub apply : KernelSnapshot → Inner → Bool × Inner
unfolding apply_events apply_procs
apply snap s =
    if length snap.procs == s.procs.size && length snap.events == s.events.size
    then (let (events_found, s₁) = apply_events snap.events (put_counters snap s) in
        let (procs_found, s₂) = apply_procs snap.procs s₁ in
        if events_found then if procs_found then (true, park s₂) else (false, s₂) else (false, s₁))
    else (false, s)

-- `Sim::restore`
module _ {E : Type 0} (program : Program E) where
  unfoldable pub restore : KernelSnapshot → Inner × E → Run (Bool × (Inner × E))
  unfolding apply
  restore snap m = do
    (s, env) ← elaborate_once program m
    let (ok, s') = apply snap s
    done (ok, (s', env))
