-- ===== src/Kernel/Invariant/Notifications.antt =====
-- The invariant of the kernel over the notification calls of crates/systemrs-kernel/src/inner.rs.
use systemrs.Base.{
  ℕ, ◌≡◌, ◌≤◌, refl, ◌∙◌, Option, none, some, arith, Bool-cases, inl, inr, ◌==◌, get_elem?,
  swap_remove, length,
}
use systemrs.Time.{SimTime, add}
use systemrs.Time.Laws.{le-add}
use systemrs.Kernel.Event.{Event, Pending}
use systemrs.Kernel.State.{Inner, TimedEntry, TimedTarget, IsEvent, pending_of, set_event}
use systemrs.Kernel.Notify.{
  alloc_event, arm_delta, arm_timed, cancel_delta, cancel, notify_delta, notify_timed,
  schedule_event_at, fix_moved, cancel_slot,
}
use systemrs.Kernel.Notify.Slots.{
  SlotsAgree, cancel-SlotsAgree, notify_delta-SlotsAgree, rearm_timed-SlotsAgree,
}
use systemrs.Kernel.Notify.Heap.{heap_push-Sorted, All-heap_push}
use systemrs.Kernel.Trigger.Frame.{Keeps}
use systemrs.Kernel.Invariant.{Inv}

-- The second state has the keys, the heap and the clock of the first.
pub record Same (s t : Inner) : Type 0 where
  pub absent : (k : ℕ) → s.events.get k ≡ none → t.events.get k ≡ none
  pub size : t.events.size ≡ s.events.size
  pub timed : t.timed ≡ s.timed
  pub now : t.now ≡ s.now

pub Same-refl : (s : Inner) → Same s s
Same-refl s = record { absent = λ k h. h; size = refl; timed = refl; now = refl }

pub Same-trans : {s t u : Inner} → Same s t → Same t u → Same s u
Same-trans a b = record {
  absent = λ k h. b.absent k (a.absent k h);
  size = b.size ∙ a.size;
  timed = b.timed ∙ a.timed;
  now = b.now ∙ a.now;
}

pub set_event-Same : (s : Inner) (ev : ℕ) (f : Event → Event) → Same s (set_event s ev f)
set_event-Same s ev f = record {
  absent = λ k h. elim (Bool-cases (ev == k)) [ inl e ↦ rw (e, h) | inr e ↦ rw (e, h) ];
  size = refl;
  timed = refl;
  now = refl;
}

fix_moved-Same : (s : Inner) (idx : ℕ) (m : Option ℕ) → Same s (fix_moved s idx m)
fix_moved-Same s idx none = record { absent = λ k h. h; size = refl; timed = refl; now = refl }
fix_moved-Same s idx (some k) = set_event-Same s k _

pub Keeps-Same : {s t : Inner} → Keeps s t → Same s t
Keeps-Same k = record { absent = k.absent; size = k.size; timed = k.timed; now = k.now }

cancel_slot-Same : (s : Inner) (q : Pending) → Same s (cancel_slot s q)
unfolding cancel_delta
cancel_slot-Same s (Pending.delta idx) =
    let rest = swap_remove s.delta_events idx in
    let a = fix_moved-Same (record s { delta_events = rest }) idx (get_elem? rest idx) in
    record { absent = a.absent; size = a.size; timed = a.timed; now = a.now }
cancel_slot-Same s (Pending.timed seq when) = record {
  absent = λ k h. h;
  size = refl;
  timed = refl;
  now = refl;
}
cancel_slot-Same s Pending.none = record {
  absent = λ k h. h;
  size = refl;
  timed = refl;
  now = refl;
}

cancel-Same : (s : Inner) (ev : ℕ) → Same s (cancel s ev)
unfolding cancel
cancel-Same s ev = Same-trans (cancel_slot-Same s (pending_of s ev)) (set_event-Same _ ev _)

arm_delta-Same : (s : Inner) (ev : ℕ) → Same s (arm_delta s ev)
unfolding arm_delta
arm_delta-Same s ev =
    let a =
      set_event-Same s ev (λ e. record e { pending = Pending.delta (length s.delta_events) }) in
    record { absent = a.absent; size = refl; timed = refl; now = refl }

notify_delta-Same : (s : Inner) (ev : ℕ) → Same s (notify_delta s ev)
unfolding notify_delta
notify_delta-Same s ev = ground (
  arith,
  arm_delta-Same s ev,
  Same-trans (cancel-Same s ev) (arm_delta-Same (cancel s ev) ev),
  Same-refl s,
)

pub Same-Inv : {lo : SimTime} {s t : Inner} → Same s t → SlotsAgree t → Inv lo s → Inv lo t
Same-Inv a ok v = record {
  slots = ok;
  bounded = λ k h. a.absent k (v.bounded k (omega (arith, a.size)));
  sorted = rw a.timed v.sorted;
  ahead = rw (a.timed, a.now) v.ahead;
  fits = rw a.now v.fits;
  since = rw a.now v.since;
}

pub cancel-Inv : {lo : SimTime} {s : Inner} (ev : ℕ) → Inv lo s → Inv lo (cancel s ev)
cancel-Inv {s} ev v = Same-Inv (cancel-Same s ev) (cancel-SlotsAgree v.slots ev) v

pub notify_delta-Inv :
    {lo : SimTime} {s : Inner} (ev : ℕ) → IsEvent s ev → Inv lo s → Inv lo (notify_delta s ev)
notify_delta-Inv {s} ev known v =
    Same-Inv (notify_delta-Same s ev) (notify_delta-SlotsAgree v.slots ev known) v

-- A timed notification goes on the heap, at a time that is not past.
pub rearm_timed-Inv :
    {lo : SimTime} {s : Inner} (ev : ℕ) (when : SimTime)
    → IsEvent s ev
    → s.now ≤ when
    → Inv lo s
    → Inv lo (arm_timed (cancel s ev) ev when)
unfolding arm_timed
rearm_timed-Inv {s} ev when known later v =
    let t = cancel s ev in
    let a = cancel-Same s ev in
    let e : TimedEntry = record { when = when; seq = t.seq; target = TimedTarget.event ev } in
    let b = set_event-Same t ev (λ x. record x { pending = Pending.timed t.seq when }) in
    record {
      slots = rearm_timed-SlotsAgree v.slots ev known when;
      bounded = λ k h. b.absent k (a.absent k (v.bounded k (omega (arith, a.size))));
      sorted = heap_push-Sorted e t.timed (rw a.timed v.sorted);
      ahead =
          All-heap_push (λ x. t.now ≤ x.when) e t.timed (rw a.now later)
            (rw (a.timed, a.now) v.ahead);
      fits = rw a.now v.fits;
      since = rw a.now v.since;
    }

pub notify_timed-Inv :
    {lo : SimTime} {s : Inner} (ev : ℕ) (after : SimTime)
    → IsEvent s ev
    → Inv lo s
    → Inv lo (notify_timed s ev after)
unfolding notify_timed
notify_timed-Inv {s} ev after known v = ground (
  arith,
  v,
  notify_delta-Inv ev known v,
  rearm_timed-Inv ev (add s.now after) known (le-add s.now after v.fits) v,
)

pub schedule_event_at-Inv :
    {lo : SimTime} {s : Inner} (ev : ℕ) (when : SimTime)
    → IsEvent s ev
    → s.now ≤ when
    → Inv lo s
    → Inv lo (schedule_event_at s ev when)
unfolding schedule_event_at
schedule_event_at-Inv ev when known later v = rearm_timed-Inv ev when known later v

pub alloc_event-Inv : {lo : SimTime} {s : Inner} → Inv lo s → Inv lo (alloc_event s).0
unfolding alloc_event
alloc_event-Inv {s} v = record {
  slots = record {
    holds = λ i j h. ground (arith, v.slots.holds i j h, v.bounded s.events.size);
    records = λ i j h. ground (arith, v.slots.records i j, v.bounded s.events.size);
  };
  bounded = λ k h. ground (arith, v.bounded k);
  sorted = v.sorted;
  ahead = v.ahead;
  fits = v.fits;
  since = v.since;
}
