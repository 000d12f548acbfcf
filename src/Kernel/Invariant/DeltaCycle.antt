-- ===== src/Kernel/Invariant/DeltaCycle.antt =====
-- The invariant of the kernel over the notify phase of `commit_and_notify` in
-- crates/systemrs-kernel/src/sim.rs.
use mathlib.Core.List.{reverse-reverse}
use systemrs.Base.{
  ℕ, ◌≡◌, ◌≢◌, refl, sym, subst, ◌∙◌, List, [], ◌∷◌, All, Absent, All-reverse, All-get_elem?,
  reverse, arith, Bool-cases, inl, inr,
}
use systemrs.Time.{SimTime}
use systemrs.Kernel.Event.{Pending}
use systemrs.Kernel.State.{Inner, Phase, pending_of, set_pending}
use systemrs.Kernel.Notify.Slots.{SlotsAgree}
use systemrs.Kernel.Trigger.{make_runnable}
use systemrs.Kernel.Trigger.Frame.{
  Keeps, Keeps-refl, Keeps-trans, trigger-Keeps, make_runnable-Keeps,
}
use systemrs.Kernel.Wheel.{still_waits}
use systemrs.Kernel.Delta.Wakes.{Wakes}
use systemrs.Kernel.Delta.Fires.{fired, notify_phase-Wakes, notify_phase-events}
use systemrs.Kernel.Delta.{fire_pending, fire_deltas, wake_deltas, notify_phase}
use systemrs.Kernel.Invariant.{Inv}
use systemrs.Kernel.Invariant.Notifications.{
  Same, Same-trans, Same-refl, set_event-Same, Keeps-Same, Same-Inv,
}

-- Only events of the list have a delta notification pending.
abbrev PendingIn : List ℕ → Inner → Type 0
PendingIn list s = (k i : ℕ) → Absent k list → pending_of s k ≢ Pending.delta i

-- One firing: the other events keep what is pending, and the event itself has no delta left.
fire_pending-kept :
    (s : Inner) (ev : ℕ) (q : Pending) (k i : ℕ)
    → pending_of s ev ≡ q
    → pending_of (fire_pending s ev q) k ≡ Pending.delta i
    → (pending_of s k ≡ Pending.delta i) × (k ≢ ev)
fire_pending-kept s ev (Pending.delta idx) k i p h =
    let t = set_pending s ev Pending.none in
    let e = sym ((trigger-Keeps t ev).pending k) ∙ h in (ground (arith, e), ground (arith, e))
fire_pending-kept s ev (Pending.timed seq when) k i p h = (h, λ e. ground arith)
fire_pending-kept s ev Pending.none k i p h = (h, λ e. ground arith)

fire_pending-Same : (s : Inner) (ev : ℕ) (q : Pending) → Same s (fire_pending s ev q)
fire_pending-Same s ev (Pending.delta idx) =
    Same-trans (set_event-Same s ev _)
      (Keeps-Same (trigger-Keeps (set_pending s ev Pending.none) ev))
fire_pending-Same s ev (Pending.timed seq when) = Same-refl s
fire_pending-Same s ev Pending.none = Same-refl s

fire_pending-deltas :
    (s : Inner) (ev : ℕ) (q : Pending) → (fire_pending s ev q).delta_events ≡ s.delta_events
fire_pending-deltas s ev (Pending.delta idx) =
    (trigger-Keeps (set_pending s ev Pending.none) ev).delta_events
fire_pending-deltas s ev (Pending.timed seq when) = refl
fire_pending-deltas s ev Pending.none = refl

fire_deltas-Same : (list : List ℕ) (s : Inner) → Same s (fire_deltas list s)
unfolding fire_deltas
fire_deltas-Same [] s = Same-refl s
fire_deltas-Same (ev ∷ list) s =
    Same-trans (fire_pending-Same s ev (pending_of s ev))
      (fire_deltas-Same list (fire_pending s ev (pending_of s ev)))

fire_deltas-deltas :
    (list : List ℕ) (s : Inner) → (fire_deltas list s).delta_events ≡ s.delta_events
unfolding fire_deltas
fire_deltas-deltas [] s = refl
fire_deltas-deltas (ev ∷ list) s =
    fire_deltas-deltas list (fire_pending s ev (pending_of s ev))
    ∙ fire_pending-deltas s ev (pending_of s ev)

fire_deltas-none :
    (list : List ℕ) (s : Inner) → PendingIn list s → PendingIn [] (fire_deltas list s)
unfolding fire_deltas
fire_deltas-none [] s h = h
fire_deltas-none (ev ∷ list) s h =
    fire_deltas-none list (fire_pending s ev (pending_of s ev)) (λ k i a e.
      let (p, other) = fire_pending-kept s ev (pending_of s ev) k i refl e in h k i (other, a) p)

wake_deltas-Keeps : (wakes : List (ℕ × ℕ)) (s : Inner) → Keeps s (wake_deltas wakes s)
unfolding wake_deltas
wake_deltas-Keeps [] s = Keeps-refl s
wake_deltas-Keeps ((pid, generation) ∷ wakes) s =
    elim (Bool-cases (still_waits generation (s.procs.get pid))) [
      | inl h ↦
          rw h (
            Keeps-trans (make_runnable-Keeps s pid) (wake_deltas-Keeps wakes (make_runnable s pid)))
      | inr h ↦ rw h (wake_deltas-Keeps wakes s)
    ]

slots-PendingIn : {s : Inner} → SlotsAgree s → PendingIn (reverse s.delta_events) s
slots-PendingIn {s} ok k i a h =
    let a' =
      subst (All (λ y. k ≢ y)) (reverse-reverse s.delta_events)
        (All-reverse (λ y. k ≢ y) (reverse s.delta_events) a) in
    All-get_elem? (λ y. k ≢ y) s.delta_events i a' (ok.records i k h) refl

-- What the notify phase of `s` leaves: every event that was in the delta list has been triggered once,
-- from the last slot down, and after that the delta wakes have been delivered.
pub record Settled (lo : SimTime) (s t : Inner) : Type 0 where
  pub inv : Inv lo t
  pub no_events : t.delta_events ≡ []
  pub none_pending : (k i : ℕ) → pending_of t k ≢ Pending.delta i
  pub now : t.now ≡ s.now
  pub events : t.events ≡ (fired s).events
  pub wakes : Wakes s.delta_wakes (fired s) t
  pub no_wakes : t.delta_wakes ≡ []

SlotsAgree-none :
    (t : Inner)
    → t.delta_events ≡ []
    → ((k i : ℕ) → pending_of t k ≢ Pending.delta i)
    → SlotsAgree t
SlotsAgree-none t no_events none_pending = record {
  holds = λ i ev h. absurd (ground (arith));
  records = λ i ev h. absurd (none_pending ev i h);
}

pub notify_phase-Settled : {lo : SimTime} (s : Inner) → Inv lo s → Settled lo s (notify_phase s)
unfolding notify_phase
notify_phase-Settled s v =
    let list = reverse s.delta_events in
    let s₀ : Inner = record s { phase = Phase.notify; delta_events = [] } in
    let s₁ = fire_deltas list s₀ in
    let same = fire_deltas-Same list s₀ in
    let empty = fire_deltas-deltas list s₀ in
    let quiet = fire_deltas-none list s₀ (slots-PendingIn v.slots) in
    let w = wake_deltas-Keeps s₁.delta_wakes (record s₁ { delta_wakes = [] }) in
    let total : Same s (notify_phase s) = record {
      absent = λ k h. w.absent k (same.absent k h);
      size = w.size ∙ same.size;
      timed = w.timed ∙ same.timed;
      now = w.now ∙ same.now;
    } in
    let gone = w.delta_events ∙ empty in
    let pend : (k i : ℕ) → pending_of (notify_phase s) k ≢ Pending.delta i =
      λ k i e. quiet k i tt (sym (w.pending k) ∙ e) in
    record {
      inv = Same-Inv total (SlotsAgree-none (notify_phase s) gone pend) v;
      no_events = gone;
      none_pending = pend;
      now = w.now ∙ same.now;
      events = notify_phase-events s v.slots;
      wakes = notify_phase-Wakes s v.slots;
      no_wakes = w.delta_wakes;
    }
