-- ===== src/Kernel/Notify/Slots.antt =====
-- The delta-event list against the slots recorded in the events, of
-- crates/systemrs-kernel/src/inner.rs.
use systemrs.Base.{
  ℕ, ◌-◌, ◌≡◌, refl, Option, none, some, arith, length, get_elem?, swap_remove, if◌then◌else◌, ◌==◌,
  get_elem?-push, get_elem?-lt, get_elem?-swap_remove, get_elem?-some, get_elem?_none,
  length-swap_remove, Bool-cases, inl, inr,
}
use systemrs.Time.{SimTime, add}
use systemrs.Kernel.Event.{Pending}
use systemrs.Kernel.State.{Inner, pending_of, set_pending, IsEvent}
use systemrs.Kernel.Notify.{
  arm_delta, arm_timed, cancel_delta, cancel, notify_delta, notify_timed, fix_moved, fix_slot,
  cancel_slot,
}

-- Slot `i` holds event `ev` exactly when the event records slot `i`.
pub record SlotsAgree (s : Inner) : Type 0 where
  pub holds : (i ev : ℕ) → get_elem? s.delta_events i ≡ some ev → pending_of s ev ≡ Pending.delta i
  pub records :
      (i ev : ℕ) → pending_of s ev ≡ Pending.delta i → get_elem? s.delta_events i ≡ some ev

pub pending-set_pending :
    (s : Inner) (ev j : ℕ) (p : Pending)
    → IsEvent s ev
    → pending_of (set_pending s ev p) j ≡ (if ev == j then p else pending_of s j)
pending-set_pending s ev j p (e, h) = ground (arith)

module _ {s : Inner} (ok : SlotsAgree s) (ev : ℕ) where
  arm_delta-SlotsAgree : IsEvent s ev → pending_of s ev ≡ Pending.none → SlotsAgree (arm_delta s ev)
  unfolding arm_delta
  arm_delta-SlotsAgree k free = record {
    holds = λ i j h.
        ground
          (arith, get_elem?-push s.delta_events ev i, get_elem?-lt s.delta_events i, ok.holds i j);
    records = λ i j h. ground (
      arith,
      get_elem?-push s.delta_events ev i,
      get_elem?-lt s.delta_events i,
      get_elem?_none s.delta_events i,
      ok.records i j,
    );
  }

  -- What the freeing of slot `idx` does to the recorded slots.
  pending-fix_moved :
      (t : Inner) (idx : ℕ) (m : Option ℕ) (j : ℕ)
      → pending_of (fix_moved t idx m) j ≡ (elim m [
        | none ↦ pending_of t j
        | some k ↦ if k == j then fix_slot idx (pending_of t j) else pending_of t j
      ])
  pending-fix_moved t idx none j = refl
  pending-fix_moved t idx (some k) j = ground arith

  cancel_delta-SlotsAgree :
      (idx : ℕ)
      → pending_of s ev ≡ Pending.delta idx
      → SlotsAgree (set_pending (cancel_delta s idx) ev Pending.none)
  unfolding cancel_delta
  cancel_delta-SlotsAgree idx p =
      let here = ok.records idx ev p in
      let short = get_elem?-lt s.delta_events idx here in
      let (last, at_last) =
        get_elem?-some s.delta_events (length s.delta_events - 1) (omega arith) in
      record {
        holds = λ i j h. ground (
          arith,
          here,
          short,
          at_last,
          get_elem?-swap_remove s.delta_events idx i short,
          get_elem?-swap_remove s.delta_events idx idx short,
          length-swap_remove s.delta_events idx short,
          get_elem?_none s.delta_events i,
          ok.holds i j,
          ok.holds (length s.delta_events - 1) last,
          ok.holds idx ev,
        );
        records = λ i j h. ground (
          arith,
          here,
          short,
          at_last,
          get_elem?-swap_remove s.delta_events idx i short,
          get_elem?-swap_remove s.delta_events idx idx short,
          length-swap_remove s.delta_events idx short,
          get_elem?-lt s.delta_events i,
          get_elem?_none s.delta_events i,
          ok.records i j,
          ok.holds (length s.delta_events - 1) last,
        );
      }

  cancel_slot-SlotsAgree :
      (q : Pending)
      → pending_of s ev ≡ q
      → SlotsAgree (set_pending (cancel_slot s q) ev Pending.none)
  cancel_slot-SlotsAgree (Pending.delta idx) p = cancel_delta-SlotsAgree idx p
  cancel_slot-SlotsAgree (Pending.timed seq when) p = record {
    holds = λ i j h. ground (arith, ok.holds i j);
    records = λ i j h. ground (arith, ok.records i j);
  }
  cancel_slot-SlotsAgree Pending.none p = record {
    holds = λ i j h. ground (arith, ok.holds i j);
    records = λ i j h. ground (arith, ok.records i j);
  }

  pub cancel-SlotsAgree : SlotsAgree (cancel s ev)
  unfolding cancel
  cancel-SlotsAgree = cancel_slot-SlotsAgree (pending_of s ev) refl

-- Cancelling keeps the events allocated, and leaves the cancelled one with nothing pending.
cancel_slot-IsEvent : (s : Inner) (q : Pending) (k : ℕ) → IsEvent s k → IsEvent (cancel_slot s q) k
unfolding cancel_delta
cancel_slot-IsEvent s (Pending.delta idx) k (e, h) =
    go (get_elem? (swap_remove s.delta_events idx) idx)
  where
    go :
        (m : Option ℕ)
        → IsEvent (fix_moved (record s { delta_events = swap_remove s.delta_events idx }) idx m) k
    go none = (e, h)
    go (some j) = elim (Bool-cases (j == k)) [
      | inl same ↦ (record e { pending = fix_slot idx e.pending }, rw (same, h))
      | inr other ↦ (e, rw other h)
    ]
cancel_slot-IsEvent s (Pending.timed seq when) k h = h
cancel_slot-IsEvent s Pending.none k h = h

pub cancel-IsEvent : (s : Inner) (ev k : ℕ) → IsEvent s k → IsEvent (cancel s ev) k
unfolding cancel
cancel-IsEvent s ev k h =
    let (e, q) = cancel_slot-IsEvent s (pending_of s ev) k h in
    elim (Bool-cases (ev == k)) [
      | inl same ↦ (record e { pending = Pending.none }, rw (same, q))
      | inr other ↦ (e, rw other q)
    ]

pub pending-cancel_self : (s : Inner) (ev : ℕ) → pending_of (cancel s ev) ev ≡ Pending.none
unfolding cancel
pending-cancel_self s ev = ground arith

arm_timed-SlotsAgree :
    {s : Inner} (ok : SlotsAgree s) (ev : ℕ) (when : SimTime)
    → pending_of s ev ≡ Pending.none
    → SlotsAgree (arm_timed s ev when)
unfolding arm_timed
arm_timed-SlotsAgree {s} ok ev when free = record {
  holds = λ i j h. ground (arith, ok.holds i j);
  records = λ i j h. ground (arith, ok.records i j);
}

module _ {s : Inner} (ok : SlotsAgree s) (ev : ℕ) (known : IsEvent s ev) where
  rearm_delta-SlotsAgree : SlotsAgree (arm_delta (cancel s ev) ev)
  rearm_delta-SlotsAgree =
      arm_delta-SlotsAgree (cancel-SlotsAgree ok ev) ev (cancel-IsEvent s ev ev known)
        (pending-cancel_self s ev)

  pub rearm_timed-SlotsAgree : (when : SimTime) → SlotsAgree (arm_timed (cancel s ev) ev when)
  rearm_timed-SlotsAgree when =
      arm_timed-SlotsAgree (cancel-SlotsAgree ok ev) ev when (pending-cancel_self s ev)

  pub notify_delta-SlotsAgree : SlotsAgree (notify_delta s ev)
  unfolding notify_delta
  notify_delta-SlotsAgree = go (pending_of s ev) refl
    where
      go :
          (q : Pending)
          → pending_of s ev ≡ q
          → SlotsAgree (elim q [
            | Pending.delta idx ↦ s
            | Pending.timed seq when ↦ arm_delta (cancel s ev) ev
            | Pending.none ↦ arm_delta s ev
          ])
      go (Pending.delta idx) p = ok
      go (Pending.timed seq when) p = rearm_delta-SlotsAgree
      go Pending.none p = arm_delta-SlotsAgree ok ev known p

  pub notify_timed-SlotsAgree : (after : SimTime) → SlotsAgree (notify_timed s ev after)
  unfolding notify_timed
  notify_timed-SlotsAgree after =
      ground (arith, ok, notify_delta-SlotsAgree, rearm_timed-SlotsAgree (add s.now after))
