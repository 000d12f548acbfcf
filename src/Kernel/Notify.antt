-- ===== src/Kernel/Notify.antt =====
-- Notifications: `alloc_event`, `notify_*`, `schedule_event_at`, `cancel`, and the arming of delta and
-- timed notifications, of crates/systemrs-kernel/src/inner.rs. A panic is `none`.
pub mod Slots
pub mod Collapse
pub mod Heap
use systemrs.Base.{
  ℕ, List, [], ◌∷◌, ◌++◌, Bool, Option, none, some, true, false, length, get_elem?, swap_remove,
  if◌then◌else◌, ltb, leb, ◌==◌, incr_u64, ◌&&◌, ◌||◌,
}
use systemrs.Base.Arena.{insert}
use systemrs.Time.{SimTime, add, is_zero}
use systemrs.Kernel.Event.{Event, Pending}
use systemrs.Kernel.Event
use systemrs.Kernel.State.{Inner, TimedEntry, TimedTarget, pending_of, set_event, set_pending}

unfoldable pub alloc_event : Inner → Inner × ℕ
alloc_event s = (record s { events = insert s.events Event.new }, s.events.size)

unfoldable pub has_pending_delta : Inner → Bool
has_pending_delta s = elim s.delta_events [
  | [] ↦ elim s.delta_wakes [ [] ↦ false | _ ∷ _ ↦ true ]
  | _ ∷ _ ↦ true
]

-- The order of the heap: `TimedEntry::cmp` reverses the order of `(when, seq)` for the max-heap.
unfoldable pub pops_before : TimedEntry → TimedEntry → Bool
pops_before a b = ltb a.when b.when || (a.when == b.when && ltb a.seq b.seq)

-- `BinaryHeap::push`
unfoldable pub heap_push : TimedEntry → List TimedEntry → List TimedEntry
heap_push e [] = e ∷ []
heap_push e (x ∷ xs) = let rest = heap_push e xs in if pops_before e x then e ∷ x ∷ xs else x ∷ rest

unfoldable pub arm_delta : Inner → ℕ → Inner
arm_delta s ev =
    set_pending (record s { delta_events = s.delta_events ++ ev ∷ [] }) ev
      (Pending.delta (length s.delta_events))

unfoldable pub arm_timed : Inner → ℕ → SimTime → Inner
unfolding heap_push
arm_timed s ev when =
    set_pending
      (record s {
        seq = incr_u64 s.seq;
        timed =
            heap_push (record { when = when; seq = s.seq; target = TimedTarget.event ev }) s.timed;
      })
      ev (Pending.timed s.seq when)

-- `if let Pending::Delta { idx: slot } = &mut self.events[moved].pending { *slot = idx }`
abbrev pub fix_slot : ℕ → Pending → Pending
fix_slot idx (Pending.delta slot) = Pending.delta idx
fix_slot idx p = p

abbrev pub fix_moved : Inner → ℕ → Option ℕ → Inner
fix_moved s idx none = s
fix_moved s idx (some moved) =
    set_event s moved (λ e. record e { pending = fix_slot idx e.pending })

-- The swap-remove of a delta slot, which tells the event that moves into the slot.
unfoldable pub cancel_delta : Inner → ℕ → Inner
cancel_delta s idx =
    let rest = swap_remove s.delta_events idx in
    fix_moved (record s { delta_events = rest }) idx (get_elem? rest idx)

abbrev pub cancel_slot : Inner → Pending → Inner
cancel_slot s (Pending.delta idx) = cancel_delta s idx
cancel_slot s (Pending.timed seq when) = s
cancel_slot s Pending.none = s

unfoldable pub cancel : Inner → ℕ → Inner
unfolding cancel_delta
cancel s ev = set_pending (cancel_slot s (pending_of s ev)) ev Pending.none

unfoldable pub notify_delta : Inner → ℕ → Inner
notify_delta s ev = elim (pending_of s ev) [
  | Pending.delta idx ↦ s
  | Pending.timed seq when ↦ arm_delta (cancel s ev) ev
  | Pending.none ↦ arm_delta s ev
]

unfoldable pub notify_timed : Inner → ℕ → SimTime → Inner
notify_timed s ev after = if is_zero after then notify_delta s ev else elim (pending_of s ev) [
  | Pending.delta idx ↦ s
  | Pending.timed seq w ↦
      if leb w (add s.now after) then s else arm_timed (cancel s ev) ev (add s.now after)
  | Pending.none ↦ arm_timed (cancel s ev) ev (add s.now after)
]

unfoldable pub schedule_event_at : Inner → ℕ → SimTime → Inner
schedule_event_at s ev when = arm_timed (cancel s ev) ev when
