-- ===== src/Kernel/Wheel.antt =====
-- The timed wheel: `is_live`, `next_timed_when`, `fire_timed_at` and `runnable_empty` of
-- crates/systemrs-kernel/src/inner.rs.
use systemrs.Base.{
  ℕ, List, [], ◌∷◌, Bool, Option, none, some, true, false, if◌then◌else◌, ◌==◌, not, ◌&&◌,
}
use systemrs.Time.{SimTime}
use systemrs.Kernel.Event.{Pending}
use systemrs.Kernel.Process.{Process}
use systemrs.Kernel.State.{Inner, TimedEntry, TimedTarget, pending_of, set_pending}
use systemrs.Kernel.Trigger.{trigger, wake_process}

-- `matches!(pending, Some(Pending::Timed { seq, .. }) if seq == entry.seq)`
abbrev has_seq : ℕ → Pending → Bool
has_seq n (Pending.timed seq when) = seq == n
has_seq n (Pending.delta idx) = false
has_seq n Pending.none = false

-- `is_some_and(|p| !p.dead && p.wait_gen == generation)`
abbrev pub still_waits : ℕ → Option Process → Bool
still_waits generation none = false
still_waits generation (some p) = not p.dead && p.wait_gen == generation

abbrev live_target : Inner → ℕ → TimedTarget → Bool
live_target s seq (TimedTarget.event ev) = has_seq seq (pending_of s ev)
live_target s seq (TimedTarget.wake pid generation) = still_waits generation (s.procs.get pid)

unfoldable pub is_live : Inner → TimedEntry → Bool
is_live s e = live_target s e.seq e.target

-- The loop of `next_timed_when` over the heap: dead entries are popped off the top.
unfoldable pub drop_dead : Inner → List TimedEntry → List TimedEntry
drop_dead s [] = []
drop_dead s (e ∷ rest) = let below = drop_dead s rest in if is_live s e then e ∷ rest else below

abbrev pub top_when : List TimedEntry → Option SimTime
top_when [] = none
top_when (e ∷ rest) = some e.when

unfoldable pub next_timed_when : Inner → Option SimTime × Inner
next_timed_when s = let heap = drop_dead s s.timed in (top_when heap, record s { timed = heap })

abbrev pub fire_target : Inner → TimedTarget → Inner
fire_target s (TimedTarget.event ev) = trigger (set_pending s ev Pending.none) ev
fire_target s (TimedTarget.wake pid generation) = wake_process s pid

unfoldable pub fire_entry : Inner → TimedEntry → Inner
unfolding is_live
fire_entry s e = if is_live s e then fire_target s e.target else s

-- The loop of `fire_timed_at`: the heap is what is left of it.
unfoldable pub fire_loop : SimTime → List TimedEntry → Inner → Inner
fire_loop when [] s = s
fire_loop when (e ∷ rest) s =
    let next = fire_loop when rest (fire_entry (record s { timed = rest }) e) in
    if e.when == when then next else s

unfoldable pub fire_timed_at : Inner → SimTime → Inner
unfolding fire_loop
fire_timed_at s when = fire_loop when s.timed s

abbrev pub no_entry : List ℕ → Bool
no_entry [] = true
no_entry (x ∷ xs) = false

unfoldable pub runnable_empty : Inner → Bool
runnable_empty s =
    no_entry s.method_pop
    && no_entry s.method_push
    && no_entry s.thread_pop
    && no_entry s.thread_push
