-- ===== src/Kernel/Notify/Collapse.antt =====
-- An abstract view of the notifications of crates/systemrs-kernel/src/inner.rs, without slots and
-- sequence numbers: what is due of each event, and how a call changes it.
use systemrs.Base.{
  ℕ, ◌≡◌, refl, Option, none, some, arith, if◌then◌else◌, ◌==◌, leb, get_elem?, swap_remove,
}
use systemrs.Time.{SimTime, add, is_zero}
use systemrs.Kernel.Event.{Pending}
use systemrs.Kernel.State.{Inner, pending_of, IsEvent}
use systemrs.Kernel.Notify.{
  arm_delta, arm_timed, cancel_delta, cancel, notify_delta, notify_timed, schedule_event_at,
  fix_moved, cancel_slot,
}
use systemrs.Kernel.Notify.Slots.{
  SlotsAgree, cancel-SlotsAgree, cancel-IsEvent, notify_delta-SlotsAgree, notify_timed-SlotsAgree,
  rearm_timed-SlotsAgree,
}

pub data Due : Type 0 where
  never next_delta : Due
  at : SimTime → Due

abbrev due : Pending → Due
due Pending.none = never
due (Pending.delta idx) = next_delta
due (Pending.timed seq when) = at when

abbrev pub due_of : Inner → ℕ → Due
due_of s ev = due (pending_of s ev)

-- A timed notification against what is due: a delta one stays, an earlier or equal one stays.
abbrev sooner : SimTime → Due → Due
sooner when next_delta = next_delta
sooner when (at w) = if leb w when then at w else at when
sooner when never = at when

-- What the calls make of an event's notification.
pub data Call : Type 0 where
  delta cancelled : Call
  timed : SimTime → Call
  scheduled : SimTime → Call

abbrev pub collapse : SimTime → Call → Due → Due
collapse now delta d = next_delta
collapse now cancelled d = never
collapse now (timed after) d = if is_zero after then next_delta else sooner (add now after) d
collapse now (scheduled when) d = at when

abbrev pub call : Call → Inner → ℕ → Inner
call delta s ev = notify_delta s ev
call cancelled s ev = cancel s ev
call (timed after) s ev = notify_timed s ev after
call (scheduled when) s ev = schedule_event_at s ev when

due-fix_moved :
    (t : Inner) (idx : ℕ) (m : Option ℕ) (j : ℕ) → due_of (fix_moved t idx m) j ≡ due_of t j
due-fix_moved t idx none j = refl
due-fix_moved t idx (some k) j = ground arith

due-cancel_slot : (s : Inner) (q : Pending) (j : ℕ) → due_of (cancel_slot s q) j ≡ due_of s j
unfolding cancel_delta
due-cancel_slot s (Pending.delta idx) j =
    due-fix_moved (record s { delta_events = swap_remove s.delta_events idx }) idx
      (get_elem? (swap_remove s.delta_events idx) idx) j
due-cancel_slot s (Pending.timed seq when) j = refl
due-cancel_slot s Pending.none j = refl

pub due-cancel :
    (s : Inner) (ev j : ℕ) → due_of (cancel s ev) j ≡ (if ev == j then never else due_of s j)
unfolding cancel
due-cancel s ev j = ground (arith, due-cancel_slot s (pending_of s ev) j)

due-arm_delta :
    (s : Inner) (ev j : ℕ)
    → IsEvent s ev
    → due_of (arm_delta s ev) j ≡ (if ev == j then next_delta else due_of s j)
unfolding arm_delta
due-arm_delta s ev j (e, h) = ground arith

due-arm_timed :
    (s : Inner) (ev j : ℕ) (when : SimTime)
    → IsEvent s ev
    → due_of (arm_timed s ev when) j ≡ (if ev == j then at when else due_of s j)
unfolding arm_timed
due-arm_timed s ev j when (e, h) = ground arith

module _ (s : Inner) (ev j : ℕ) (known : IsEvent s ev) where
  due-rearm_timed :
      (when : SimTime)
      → due_of (arm_timed (cancel s ev) ev when) j ≡ (if ev == j then at when else due_of s j)
  due-rearm_timed when = ground (
    arith,
    due-arm_timed (cancel s ev) ev j when (cancel-IsEvent s ev ev known),
    due-cancel s ev j,
  )

  due-notify_delta : due_of (notify_delta s ev) j ≡ (if ev == j then next_delta else due_of s j)
  unfolding notify_delta
  due-notify_delta = ground (
    arith,
    due-arm_delta (cancel s ev) ev j (cancel-IsEvent s ev ev known),
    due-arm_delta s ev j known,
    due-cancel s ev j,
  )

  due-notify_timed :
      (after : SimTime)
      → due_of (notify_timed s ev after) j
        ≡ (if ev == j then collapse s.now (timed after) (due_of s ev) else due_of s j)
  unfolding notify_timed
  due-notify_timed after = ground (arith, due-notify_delta, due-rearm_timed (add s.now after))

-- Each notification call does to the notification of its event what the collapse rules say (a delta
-- one beats a timed one, the soonest timed one stays, an absolute schedule replaces, a cancellation
-- clears), and leaves what is due for every other event as it was: for every state in which the
-- event is allocated.
pub call-collapse :
    (c : Call) (s : Inner) (ev j : ℕ)
    → IsEvent s ev
    → due_of (call c s ev) j ≡ (if ev == j then collapse s.now c (due_of s ev) else due_of s j)
call-collapse delta s ev j known = due-notify_delta s ev j known
call-collapse cancelled s ev j known = due-cancel s ev j
call-collapse (timed after) s ev j known = due-notify_timed s ev j known after
call-collapse (scheduled when) s ev j known =
    unfold schedule_event_at in due-rearm_timed s ev j known when

-- Each notification call keeps the delta list and the recorded slots in agreement: slot `i` of the
-- list holds event `e` exactly when `e` records slot `i`, also after a swap-remove has moved an
-- event to another slot. The event must be allocated.
pub call-SlotsAgree :
    (c : Call) (s : Inner) (ev : ℕ) → SlotsAgree s → IsEvent s ev → SlotsAgree (call c s ev)
call-SlotsAgree delta s ev ok known = notify_delta-SlotsAgree ok ev known
call-SlotsAgree cancelled s ev ok known = cancel-SlotsAgree ok ev
call-SlotsAgree (timed after) s ev ok known = notify_timed-SlotsAgree ok ev known after
call-SlotsAgree (scheduled when) s ev ok known =
    unfold schedule_event_at in rearm_timed-SlotsAgree ok ev known when
