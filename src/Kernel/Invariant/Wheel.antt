-- ===== src/Kernel/Invariant/Wheel.antt =====
-- The invariant of the kernel over the timed wheel of crates/systemrs-kernel/src/inner.rs.
use mathlib.Core.Option.{some-injective}
use systemrs.Base.{
  ℕ, ◌≡◌, ◌≤◌, ◌<◌, refl, subst, ◌∙◌, List, [], ◌∷◌, Option, none, some, All, Any, All-map, arith,
  Bool-cases, inl, inr, ◌==◌, true, false,
}
use systemrs.Time.{SimTime}
use systemrs.Kernel.Event.{Pending}
use systemrs.Kernel.State.{Inner, TimedEntry, TimedTarget, set_pending}
use systemrs.Kernel.Notify.Slots.{SlotsAgree}
use systemrs.Kernel.Notify.Heap.{Sorted, not_before-order}
use systemrs.Kernel.Notify.{pops_before}
use systemrs.Kernel.Trigger.Frame.{trigger-Keeps, wake_process-Keeps}
use systemrs.Kernel.Wheel.{
  is_live, drop_dead, next_timed_when, fire_target, fire_entry, fire_loop, fire_timed_at, top_when,
}
use systemrs.Kernel.Invariant.{Inv, Keeps-Inv}
use systemrs.Kernel.Invariant.Notifications.{
  Same, Same-trans, Same-refl, set_event-Same, Keeps-Same, Same-Inv,
}

-- Nothing on a heap in order is before its top.
pub top_first :
    (e : TimedEntry) (heap : List TimedEntry)
    → All (λ x. pops_before x e ≡ false) heap
    → All (λ x. e.when ≤ x.when) heap
top_first e heap h = All-map (λ x b. omega (arith, not_before-order x e b)) heap h

-- An event whose timed notification has come is cleared before it fires.
clear-SlotsAgree :
    (s : Inner) (seq ev : ℕ)
    → is_live s (record { when = 0; seq = seq; target = TimedTarget.event ev }) ≡ true
    → SlotsAgree s
    → SlotsAgree (set_pending s ev Pending.none)
unfolding is_live
clear-SlotsAgree s seq ev live a = record {
  holds = λ i j h. ground (arith, a.holds i j h);
  records = λ i j h. ground (arith, a.records i j);
}

fire_target-Inv :
    {lo : SimTime} (s : Inner) (seq : ℕ) (t : TimedTarget)
    → is_live s (record { when = 0; seq = seq; target = t }) ≡ true
    → Inv lo s
    → Inv lo (fire_target s t)
fire_target-Inv s seq (TimedTarget.event ev) live v =
    Keeps-Inv (trigger-Keeps (set_pending s ev Pending.none) ev)
      (Same-Inv (set_event-Same s ev _) (clear-SlotsAgree s seq ev live v.slots) v)
fire_target-Inv s seq (TimedTarget.wake pid generation) live v =
    Keeps-Inv (wake_process-Keeps s pid) v

fire_entry-Inv : {lo : SimTime} (s : Inner) (e : TimedEntry) → Inv lo s → Inv lo (fire_entry s e)
unfolding fire_entry
fire_entry-Inv s e v = elim (Bool-cases (is_live s e)) [
  | inl live ↦ rw live (fire_target-Inv s e.seq e.target live v)
  | inr dead ↦ rw dead v
]

fire_entry-Same : (s : Inner) (e : TimedEntry) → Same s (fire_entry s e)
unfolding fire_entry
fire_entry-Same s e = elim (Bool-cases (is_live s e)) [
  | inl live ↦ rw live (go e.target)
  | inr dead ↦ rw dead (Same-refl s)
]
  where
    go : (t : TimedTarget) → Same s (fire_target s t)
    go (TimedTarget.event ev) =
        Same-trans (set_event-Same s ev _)
          (Keeps-Same (trigger-Keeps (set_pending s ev Pending.none) ev))
    go (TimedTarget.wake pid generation) = Keeps-Same (wake_process-Keeps s pid)

-- The state with the top of its heap popped.
pop_top-Inv :
    {lo : SimTime} {s : Inner} (e : TimedEntry) (rest : List TimedEntry)
    → s.timed ≡ e ∷ rest
    → Inv lo s
    → Inv lo (record s { timed = rest })
pop_top-Inv {s} e rest h v = record {
  slots = record { holds = v.slots.holds; records = v.slots.records };
  bounded = v.bounded;
  sorted = (subst Sorted h v.sorted).1;
  ahead = (subst (All (λ x. s.now ≤ x.when)) h v.ahead).1;
  fits = v.fits;
  since = v.since;
}

-- What a firing at a time leaves: the invariant, the clock, and a heap with nothing at that time.
pub record Fired (lo when : SimTime) (s t : Inner) : Type 0 where
  pub inv : Inv lo t
  pub now : t.now ≡ s.now
  pub later : All (λ e. when < e.when) t.timed

fire_loop-Fired :
    {lo : SimTime} (when : SimTime) (heap : List TimedEntry) (s : Inner)
    → s.timed ≡ heap
    → All (λ e. when ≤ e.when) heap
    → Inv lo s
    → Fired lo when s (fire_loop when heap s)
unfolding fire_loop
fire_loop-Fired when [] s h due v = record { inv = v; now = refl; later = rw h tt }
fire_loop-Fired when (e ∷ rest) s h (d, due) v = elim (Bool-cases (e.when == when)) [
  | inl same ↦
      let s' : Inner = record s { timed = rest } in
      let same' = fire_entry-Same s' e in
      let r =
        fire_loop-Fired when rest (fire_entry s' e) same'.timed due
          (fire_entry-Inv s' e (pop_top-Inv e rest h v)) in
      rw same (record { inv = r.inv; now = r.now ∙ same'.now; later = r.later })
  | inr past ↦
      let first : when < e.when = ground (arith) in
      rw past (record {
        inv = v;
        now = refl;
        later = rw h (
          first,
          All-map (λ x b. omega (arith, b)) rest (top_first e rest (subst Sorted h v.sorted).0),
        );
      })
]

-- Firing at a time that nothing on the heap is before keeps the invariant and the clock, and leaves
-- only later entries on the heap.
pub fire_timed_at-Fired :
    {lo : SimTime} (s : Inner) (when : SimTime)
    → All (λ e. when ≤ e.when) s.timed
    → Inv lo s
    → Fired lo when s (fire_timed_at s when)
unfolding fire_timed_at
fire_timed_at-Fired s when due v = fire_loop-Fired when s.timed s refl due v

drop_dead-All :
    (P : TimedEntry → Type 0) (s : Inner) (heap : List TimedEntry)
    → All P heap
    → All P (drop_dead s heap)
unfolding drop_dead
drop_dead-All P s [] h = tt
drop_dead-All P s (e ∷ heap) (p, h) = elim (Bool-cases (is_live s e)) [
  | inl live ↦ rw live (p, h)
  | inr dead ↦ rw dead (drop_dead-All P s heap h)
]

drop_dead-Sorted : (s : Inner) (heap : List TimedEntry) → Sorted heap → Sorted (drop_dead s heap)
unfolding drop_dead
drop_dead-Sorted s [] h = tt
drop_dead-Sorted s (e ∷ heap) (a, h) = elim (Bool-cases (is_live s e)) [
  | inl live ↦ rw live (a, h)
  | inr dead ↦ rw dead (drop_dead-Sorted s heap h)
]

-- Looking for the next time drops dead entries only: the invariant stays.
pub next_timed_when-Inv : {lo : SimTime} {s : Inner} → Inv lo s → Inv lo (next_timed_when s).1
unfolding next_timed_when
next_timed_when-Inv {lo} {s} v = record {
  since = v.since;
  slots = record { holds = v.slots.holds; records = v.slots.records };
  bounded = v.bounded;
  sorted = drop_dead-Sorted s s.timed v.sorted;
  ahead = drop_dead-All (λ e. s.now ≤ e.when) s s.timed v.ahead;
  fits = v.fits;
}

-- The time that the wheel gives is no later than any entry left on the heap, and is not past.
first_time :
    (now when : SimTime) (heap : List TimedEntry)
    → Sorted heap
    → All (λ e. now ≤ e.when) heap
    → top_when heap ≡ some when
    → (now ≤ when) × All (λ e. when ≤ e.when) heap
first_time now when [] s a h = absurd (cc)
first_time now when (e ∷ heap) (b, s) (p, a) h =
    let same = some-injective e.when when h in
    subst (λ w. (now ≤ w) × All (λ x. w ≤ x.when) (e ∷ heap)) same
      (p, (omega arith, top_first e heap b))

pub next_timed_when-first :
    {lo : SimTime} (s : Inner) (when : SimTime)
    → Inv lo s
    → (next_timed_when s).0 ≡ some when
    → (s.now ≤ when) × All (λ e. when ≤ e.when) (next_timed_when s).1.timed
unfolding next_timed_when
next_timed_when-first s when v h =
    first_time s.now when (drop_dead s s.timed) (drop_dead-Sorted s s.timed v.sorted)
      (drop_dead-All (λ e. s.now ≤ e.when) s s.timed v.ahead) h

-- What a next time, or its absence, says of the live entries.
abbrev pub Earliest : Inner → List TimedEntry → Option SimTime → Type 0
Earliest s heap none = All (λ e. is_live s e ≡ false) heap
Earliest s heap (some when) =
    Any (λ e. (is_live s e ≡ true) × (e.when ≡ when)) heap
    × All (λ e. is_live s e ≡ true → when ≤ e.when) heap

All-later :
    (s : Inner) (w : SimTime) (heap : List TimedEntry)
    → All (λ e. w ≤ e.when) heap
    → All (λ e. is_live s e ≡ true → w ≤ e.when) heap
All-later s w heap h = All-map (λ e p _. p) heap h

drop_dead-Earliest :
    (s : Inner) (heap : List TimedEntry)
    → Sorted heap
    → Earliest s heap (top_when (drop_dead s heap))
unfolding drop_dead
drop_dead-Earliest s [] h = tt
drop_dead-Earliest s (e ∷ heap) (a, h) = elim (Bool-cases (is_live s e)) [
  | inl live ↦
      rw live (inl (live, refl), ((λ _. omega arith), All-later s e.when heap (top_first e heap a)))
  | inr dead ↦ rw dead (cons (top_when (drop_dead s heap)) dead (drop_dead-Earliest s heap h))
]
  where
    cons : (t : Option SimTime) → is_live s e ≡ false → Earliest s heap t → Earliest s (e ∷ heap) t
    cons none dead r = (dead, r)
    cons (some w) dead (r, rs) = (inr r, ((λ live. absurd (cc)), rs))

-- The time that the wheel gives is that of a live entry, and no live entry is before it; it gives
-- none only when every entry is dead. The state must satisfy the invariant of the kernel.
pub next_timed_when-Earliest :
    {lo : SimTime} (s : Inner) → Inv lo s → Earliest s s.timed (next_timed_when s).0
unfolding next_timed_when
next_timed_when-Earliest s v = drop_dead-Earliest s s.timed v.sorted
