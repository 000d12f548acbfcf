-- ===== src/Kernel/Invariant/Calls.antt =====
-- The invariant of the kernel over the calls of crates/systemrs-kernel/src/ctx.rs and the installation
-- of a wait.
use systemrs.Base.{
  ℕ, ◌≡◌, ◌≤◌, refl, subst, List, [], ◌∷◌, Option, none, some, arith, Bool-cases, Option-cases, inl,
  inr, leb, incr_u64, get_elem?,
}
use systemrs.Base.Arena.{Arena}
use systemrs.Time.{SimTime, add, is_zero}
use systemrs.Time.Laws.{le-add}
use systemrs.Kernel.Event.{Event, Pending, new}
use systemrs.Kernel.Process.{Process, ProcKind, WaitReq, WaitState}
use systemrs.Kernel.State.{Inner, Phase, TimedEntry, TimedTarget, IsEvent, set_proc}
use systemrs.Kernel.Notify.{cancel}
use systemrs.Kernel.Notify.Heap.{heap_push-Sorted, All-heap_push}
use systemrs.Kernel.Trigger.{trigger}
use systemrs.Kernel.Trigger.Frame.{
  Keeps, Keeps-refl, Keeps-trans, set_event-Keeps, set_proc-Keeps, trigger-Keeps,
  make_runnable-Keeps,
}
use systemrs.Kernel.Wait.{
  subscribe_dynamic, subscribe_all, schedule_proc_wake, install_req, install_wait, known,
  req_events,
}
use systemrs.Kernel.Ctx.{
  notify_immediate, request_update, arm, spawn_thread, kill, Op, notify_now, notify, notify_after,
  cancels, request_updates, kills, arms, spawn_threads, alloc_events, perform, perform_all,
  sim_schedule_event_at, at_event, ◌>>=◌,
}
use systemrs.Kernel.Invariant.{Inv, Holds, Keeps-Inv}
use systemrs.Kernel.Invariant.Notifications.{
  cancel-Inv, notify_delta-Inv, notify_timed-Inv, schedule_event_at-Inv, alloc_event-Inv,
}

-- What the invariant speaks of.
abbrev pub Untouched : Inner → Inner → Type 0
Untouched s t =
    (t.events ≡ s.events)
    × (t.delta_events ≡ s.delta_events)
    × (t.timed ≡ s.timed)
    × (t.now ≡ s.now)

pub Untouched-Inv : {lo : SimTime} {s t : Inner} → Untouched s t → Inv lo s → Inv lo t
Untouched-Inv {s} {t} (e, d, h, n) v = record {
  slots = record {
    holds = λ i ev p. rw e (v.slots.holds i ev (subst (λ l. get_elem? l i ≡ some ev) d p));
    records = λ i ev p. rw d (
        v.slots.records i ev (
          subst
            (λ (a : Arena Event).
              (elim (a.get ev) as (λ x. Event) [ none ↦ new | some x ↦ x ]).pending
              ≡ Pending.delta i)
            e p));
  };
  bounded = rw e v.bounded;
  sorted = rw h v.sorted;
  ahead = rw (h, n) v.ahead;
  fits = rw n v.fits;
  since = rw n v.since;
}

notify_immediate-Inv :
    {lo : SimTime} (s : Inner) (ev : ℕ) → Inv lo s → Holds (Inv lo) (notify_immediate s ev)
unfolding notify_immediate
notify_immediate-Inv {lo} s ev v = go s.phase
  where
    go :
        (p : Phase)
        → Holds (Inv lo) (elim p [ Phase.evaluate ↦ some (trigger (cancel s ev) ev) | _ ↦ none ])
    go Phase.evaluate = Keeps-Inv (trigger-Keeps (cancel s ev) ev) (cancel-Inv ev v)
    go Phase.build = tt
    go Phase.update = tt
    go Phase.notify = tt

request_update-Inv :
    {lo : SimTime} {s : Inner} (chan : ℕ) → Inv lo s → Inv lo (request_update s chan)
unfolding request_update
request_update-Inv {s} chan v = elim (Bool-cases (s.update_pending chan)) [
  | inl h ↦ rw h v
  | inr h ↦ rw h (Untouched-Inv (refl, refl, refl, refl) v)
]

kill-Inv : {lo : SimTime} {s : Inner} (pid : ℕ) → Inv lo s → Inv lo (kill s pid)
unfolding kill
kill-Inv {s} pid v = Untouched-Inv (ground arith) v

arm-Inv : {lo : SimTime} {s : Inner} (req : WaitReq) → Inv lo s → Holds (Inv lo) (arm s req)
unfolding arm
arm-Inv {lo} {s} req v = running s.running
  where
    found :
        (pid : ℕ) (o : Option Process)
        → Holds (Inv lo) (elim o [
          | none ↦ none
          | some p ↦ some (set_proc s pid (λ q. record q { pending_wait = some req }))
        ])
    found pid none = tt
    found pid (some p) = Keeps-Inv (set_proc-Keeps s pid _) v

    running :
        (r : Option ℕ)
        → Holds (Inv lo) (elim r [
          | none ↦ none
          | some pid ↦ elim (s.procs.get pid) [
            | none ↦ none
            | some p ↦ some (set_proc s pid (λ q. record q { pending_wait = some req }))
          ]
        ])
    running none = tt
    running (some pid) = found pid (s.procs.get pid)

spawn_thread-Inv : {lo : SimTime} {s : Inner} → Inv lo s → Inv lo (spawn_thread s).0
unfolding spawn_thread
spawn_thread-Inv {s} v =
    Keeps-Inv (make_runnable-Keeps _ s.procs.size) (Untouched-Inv (refl, refl, refl, refl) v)

-- The call at an event that is allocated; at another it panics.
at_event-Inv :
    (lo : SimTime) (s : Inner) (ev : ℕ) (r : Option Inner)
    → (IsEvent s ev → Holds (Inv lo) r)
    → Holds (Inv lo) (at_event s ev r)
at_event-Inv lo s ev r f = elim (Option-cases (s.events.get ev)) [
  | inl h ↦ rw (h, at_event, Holds) tt
  | inr (e, h) ↦ rw (h, at_event, Holds) (f (e, h))
]

pub perform-Inv : {lo : SimTime} (op : Op) (s : Inner) → Inv lo s → Holds (Inv lo) (perform op s)
unfolding perform
perform-Inv {lo} (notify_now ev) s v = at_event-Inv lo s ev _ (λ k. notify_immediate-Inv s ev v)
perform-Inv {lo} (notify ev) s v = at_event-Inv lo s ev (some _) (λ k. notify_delta-Inv ev k v)
perform-Inv {lo} (notify_after ev after) s v =
    at_event-Inv lo s ev (some _) (λ k. notify_timed-Inv ev after k v)
perform-Inv {lo} (cancels ev) s v = at_event-Inv lo s ev (some _) (λ k. cancel-Inv ev v)
perform-Inv (request_updates chan) s v = request_update-Inv chan v
perform-Inv (kills pid) s v = kill-Inv pid v
perform-Inv (arms req) s v = arm-Inv req v
perform-Inv spawn_threads s v = spawn_thread-Inv v
perform-Inv alloc_events s v = alloc_event-Inv v

pub Holds-bind :
    {lo : SimTime} (r : Option Inner) (f : Inner → Option Inner)
    → Holds (Inv lo) r
    → ((t : Inner) → Inv lo t → Holds (Inv lo) (f t))
    → Holds (Inv lo) (r >>= f)
Holds-bind none f h k = tt
Holds-bind (some t) f h k = k t h

-- Whatever calls a piece of model code makes, in whatever order, the invariant of the kernel holds
-- after them, unless a call panics.
pub perform_all-Inv :
    {lo : SimTime} (ops : List Op) (s : Inner) → Inv lo s → Holds (Inv lo) (perform_all ops s)
unfolding perform_all
perform_all-Inv [] s v = v
perform_all-Inv (op ∷ ops) s v =
    Holds-bind (perform op s) (perform_all ops) (perform-Inv op s v) (perform_all-Inv ops)

-- A time scheduled from outside is armed if it lies ahead, and is a delta notification otherwise.
sim_schedule_event_at-Inv :
    {lo : SimTime} {s : Inner} (ev : ℕ) (when : SimTime)
    → IsEvent s ev
    → Inv lo s
    → Inv lo (sim_schedule_event_at s ev when)
unfolding sim_schedule_event_at
sim_schedule_event_at-Inv {s} ev when known v = elim (Bool-cases (leb when s.now)) [
  | inl h ↦ rw h (notify_delta-Inv ev known v)
  | inr h ↦ rw h (schedule_event_at-Inv ev when known (ground arith) v)
]

subscribe_dynamic-Keeps :
    (s : Inner) (ev pid : ℕ) (kind : ProcKind) → Keeps s (subscribe_dynamic s ev pid kind)
unfolding subscribe_dynamic
subscribe_dynamic-Keeps s ev pid ProcKind.method = set_event-Keeps s ev _ (λ e. refl)
subscribe_dynamic-Keeps s ev pid ProcKind.thread = set_event-Keeps s ev _ (λ e. refl)

subscribe_all-Keeps :
    (list : List ℕ) (pid : ℕ) (kind : ProcKind) (s : Inner)
    → Keeps s (subscribe_all list pid kind s)
unfolding subscribe_all
subscribe_all-Keeps [] pid kind s = Keeps-refl s
subscribe_all-Keeps (ev ∷ list) pid kind s =
    Keeps-trans (subscribe_dynamic-Keeps s ev pid kind)
      (subscribe_all-Keeps list pid kind (subscribe_dynamic s ev pid kind))

schedule_proc_wake-Inv :
    {lo : SimTime} {s : Inner} (pid generation : ℕ) (t : SimTime)
    → Inv lo s
    → Inv lo (schedule_proc_wake s pid generation (add s.now t))
unfolding schedule_proc_wake
schedule_proc_wake-Inv {s} pid generation t v =
    let e : TimedEntry = record {
      when = add s.now t;
      seq = s.seq;
      target = TimedTarget.wake pid generation;
    } in
    record {
      slots = record { holds = v.slots.holds; records = v.slots.records };
      bounded = v.bounded;
      sorted = heap_push-Sorted e s.timed v.sorted;
      ahead = All-heap_push (λ x. s.now ≤ x.when) e s.timed (le-add s.now t v.fits) v.ahead;
      fits = v.fits;
      since = v.since;
    }

install_req-Inv :
    {lo : SimTime} (req : WaitReq) (pid : ℕ) (kind : ProcKind) (generation : ℕ) {s : Inner}
    → Inv lo s
    → Inv lo (install_req req pid kind generation s)
unfolding install_req
install_req-Inv (WaitReq.time t) pid kind generation {s} v =
    let v' = Keeps-Inv (set_proc-Keeps s pid (λ p. record p { wait = WaitState.timed })) v in
    elim (Bool-cases (is_zero t)) [
      | inl h ↦ rw h (Untouched-Inv (refl, refl, refl, refl) v')
      | inr h ↦ rw h (schedule_proc_wake-Inv pid generation t v')
    ]
install_req-Inv (WaitReq.event ev) pid kind generation {s} v =
    Keeps-Inv (subscribe_dynamic-Keeps _ ev pid kind) (Keeps-Inv (set_proc-Keeps s pid _) v)
install_req-Inv (WaitReq.event_timeout ev t) pid kind generation {s} v =
    schedule_proc_wake-Inv pid generation t
      (Keeps-Inv (subscribe_dynamic-Keeps _ ev pid kind) (Keeps-Inv (set_proc-Keeps s pid _) v))
install_req-Inv (WaitReq.or list) pid kind generation {s} v =
    Keeps-Inv (set_proc-Keeps _ pid _) (Keeps-Inv (subscribe_all-Keeps list pid kind s) v)
install_req-Inv (WaitReq.or_timeout list t) pid kind generation {s} v =
    schedule_proc_wake-Inv pid generation t
      (Keeps-Inv (set_proc-Keeps _ pid _) (Keeps-Inv (subscribe_all-Keeps list pid kind s) v))
install_req-Inv (WaitReq.and list) pid kind generation {s} v =
    Keeps-Inv (set_proc-Keeps _ pid _) (Keeps-Inv (subscribe_all-Keeps list pid kind s) v)

pub install_wait-Inv :
    {lo : SimTime} {s : Inner} (pid : ℕ) (req : WaitReq)
    → Inv lo s
    → Holds (Inv lo) (install_wait s pid req)
unfolding install_wait
install_wait-Inv {s} pid req v = elim (Option-cases (s.procs.get pid)) [
  | inl h ↦ rw (h, install_wait) tt
  | inr (p, h) ↦
      rw (h, install_wait)
        (elim (Bool-cases (known s (req_events req))) [
          | inl k ↦ rw k (
              install_req-Inv req pid p.kind (incr_u64 p.wait_gen)
                (Keeps-Inv (set_proc-Keeps s pid _) v))
          | inr k ↦ rw k tt
        ])
]
