-- ===== src/Kernel/Ctx.antt =====
-- What a process body, a channel update or the model's construction asks of the kernel: the calls of
-- crates/systemrs-kernel/src/ctx.rs that change its state, `Inner::notify_immediate`, and
-- `Sim::add_process` and `Sim::schedule_event_at` of sim.rs. A panic is `none`. What the destructors of a
-- killed thread do is not modelled.
use systemrs.Base.{
  ℕ, List, [], ◌∷◌, ◌++◌, Bool, Option, none, some, true, false, if◌then◌else◌, leb, incr_u64, ◌==◌,
}
use systemrs.Base.Arena.{insert}
use systemrs.Time.{SimTime}
use systemrs.Kernel.Event.{Event}
use systemrs.Kernel.Process.{Process, ProcKind, ProcessBody, WaitReq, WaitState}
use systemrs.Kernel.State.{Inner, Phase, set_event, set_proc}
use systemrs.Kernel.Notify.{alloc_event, cancel, notify_delta, notify_timed, schedule_event_at}
use systemrs.Kernel.Trigger.{make_runnable, trigger}

-- The assertion on the phase comes first.
unfoldable pub notify_immediate : Inner → ℕ → Option Inner
notify_immediate s ev = elim s.phase [ Phase.evaluate ↦ some (trigger (cancel s ev) ev) | _ ↦ none ]

unfoldable pub request_update : Inner → ℕ → Inner
request_update s chan = if s.update_pending chan then s else record s {
  update_pending = λ c. if c == chan then true else s.update_pending c;
  update_queue = s.update_queue ++ chan ∷ [];
}

-- `arm`: every `wait_*` and `next_trigger_*` records its request with the running process.
unfoldable pub arm : Inner → WaitReq → Option Inner
arm s req = elim s.running [
  | none ↦ none
  | some pid ↦ elim (s.procs.get pid) [
    | none ↦ none
    | some p ↦ some (set_proc s pid (λ q. record q { pending_wait = some req }))
  ]
]

abbrev pub new_process : ProcKind → ProcessBody → List ℕ → Process
new_process kind body sens = record {
  kind = kind;
  body = body;
  static_sens = sens;
  wait = WaitState.static;
  wait_gen = 0;
  pending_wait = none;
  queued = false;
  dead = false;
}

unfoldable pub spawn_thread : Inner → Inner × ℕ
spawn_thread s =
    let pid = s.procs.size in
    let p = new_process ProcKind.thread (ProcessBody.thread true) [] in
    (make_runnable (record s { procs = insert s.procs p }) pid, pid)

-- A parked coroutine is taken out of its slot and dropped.
abbrev pub take_fiber : ProcessBody → ProcessBody
take_fiber (ProcessBody.thread b) = ProcessBody.thread false
take_fiber (ProcessBody.method b) = ProcessBody.method b

unfoldable pub kill : Inner → ℕ → Inner
kill s pid = elim (s.procs.get pid) [
  | none ↦ s
  | some p ↦
      if p.dead
      then s
      else set_proc s pid (λ q. record q {
        dead = true;
        wait_gen = incr_u64 q.wait_gen;
        wait = WaitState.static;
        queued = false;
        body = take_fiber q.body;
      })
]

pub data Op : Type 0 where
  notify_now notify cancels request_updates kills : ℕ → Op
  notify_after : ℕ → SimTime → Op
  arms : WaitReq → Op
  spawn_threads alloc_events : Op

-- `self.events[ev]` panics on an id that was not handed out.
abbrev pub at_event : Inner → ℕ → Option Inner → Option Inner
at_event s ev r = elim (s.events.get ev) [ none ↦ none | some e ↦ r ]

unfoldable pub perform : Op → Inner → Option Inner
perform (notify_now ev) s = at_event s ev (notify_immediate s ev)
perform (notify ev) s = at_event s ev (some (notify_delta s ev))
perform (notify_after ev after) s = at_event s ev (some (notify_timed s ev after))
perform (cancels ev) s = at_event s ev (some (cancel s ev))
perform (request_updates chan) s = some (request_update s chan)
perform (kills pid) s = some (kill s pid)
perform (arms req) s = arm s req
perform spawn_threads s = some (spawn_thread s).0
perform alloc_events s = some (alloc_event s).0

infixl 5 ◌>>=◌
abbrev pub ◌>>=◌ {ℓ κ} : {A : Type ℓ} {B : Type κ} → Option A → (A → Option B) → Option B
none >>= f = none
some a >>= f = f a

unfoldable pub perform_all : List Op → Inner → Option Inner
unfolding perform
perform_all [] s = some s
perform_all (op ∷ ops) s = perform op s >>= perform_all ops

-- `Sim::schedule_event_at`
unfoldable pub sim_schedule_event_at : Inner → ℕ → SimTime → Inner
sim_schedule_event_at s ev when =
    if leb when s.now then notify_delta s ev else schedule_event_at s ev when

abbrev add_static : ProcKind → ℕ → Event → Event
add_static ProcKind.method pid e = record e { static_methods = e.static_methods ++ pid ∷ [] }
add_static ProcKind.thread pid e = record e { static_threads = e.static_threads ++ pid ∷ [] }

unfoldable pub sensitise : List ℕ → ℕ → ProcKind → Inner → Inner
sensitise [] pid kind s = s
sensitise (ev ∷ sens) pid kind s = sensitise sens pid kind (set_event s ev (add_static kind pid))

abbrev filled : ProcKind → ProcessBody
filled ProcKind.method = ProcessBody.method true
filled ProcKind.thread = ProcessBody.thread true

-- `Sim::add_method` and `Sim::add_thread`
unfoldable pub add_process : Inner → ProcKind → List ℕ → Bool → Inner × ℕ
unfolding sensitise
add_process s kind sens initialize =
    let pid = s.procs.size in
    let s' =
      sensitise sens pid kind
        (record s { procs = insert s.procs (new_process kind (filled kind) sens) }) in
    (if initialize then record s' { initial_procs = s'.initial_procs ++ pid ∷ [] } else s', pid)
