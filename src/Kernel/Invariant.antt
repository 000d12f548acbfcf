-- ===== src/Kernel/Invariant.antt =====
-- What holds of the kernel state of crates/systemrs-kernel/src/inner.rs between any two steps of the
-- scheduler: the delta list and the recorded slots agree, keys are handed out in order, the heap is
-- in order, and nothing on it is in the past.
pub mod Notifications
pub mod Wheel
pub mod DeltaCycle
pub mod Calls
pub mod Runs
pub mod Start
pub mod Until
use systemrs.Base.{
  ℕ, ◌≡◌, ◌≤◌, ◌∙◌, subst, sym, none, Option, some, All, u64_max, arith, refl, Bool, true, false,
  Bool-cases, inl, inr, ◌==◌, if◌then◌else◌, List, ap, get_elem?,
}
use systemrs.Time.{SimTime}
use systemrs.Kernel.Event.{Event, Pending}
use systemrs.Kernel.Process.{Process}
use systemrs.Kernel.State.{Inner, TimedEntry, IsEvent, pending_of, set_event, set_proc}
use systemrs.Kernel.Notify.Slots.{SlotsAgree}
use systemrs.Kernel.Notify.Heap.{Sorted}
use systemrs.Kernel.Trigger.Frame.{Keeps}

pub record Inv (lo : SimTime) (s : Inner) : Type 0 where
  pub since : lo ≤ s.now
  pub slots : SlotsAgree s
  pub bounded : (k : ℕ) → s.events.size ≤ k → s.events.get k ≡ none
  pub sorted : Sorted s.timed
  pub ahead : All (λ e. s.now ≤ e.when) s.timed
  pub fits : s.now ≤ u64_max

-- The postcondition of a call that may panic.
abbrev pub Holds : (Inner → Type 0) → Option Inner → Type 0
Holds P none = Unit {0}
Holds P (some t) = P t

pub Keeps-SlotsAgree : {s t : Inner} → Keeps s t → SlotsAgree s → SlotsAgree t
Keeps-SlotsAgree k a = record {
  holds =
      λ i ev h. k.pending ev ∙ a.holds i ev (subst (λ l. get_elem? l i ≡ some ev) k.delta_events h);
  records = λ i ev h.
      subst (λ l. get_elem? l i ≡ some ev) (sym k.delta_events)
        (a.records i ev (sym (k.pending ev) ∙ h));
}

pub Keeps-Inv : {lo : SimTime} {s t : Inner} → Keeps s t → Inv lo s → Inv lo t
Keeps-Inv {s} {t} k v = record {
  slots = Keeps-SlotsAgree k v.slots;
  bounded = λ j h. k.absent j (v.bounded j (omega (arith, k.size)));
  sorted = rw k.timed v.sorted;
  ahead = rw (k.timed, k.now) v.ahead;
  fits = rw k.now v.fits;
  since = rw k.now v.since;
}
