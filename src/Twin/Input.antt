-- ===== src/Twin/Input.antt =====
-- crates/systemrs-twin/src/input.rs: the inbox, the stop signal and the gate that drains an input when
-- the simulation is idle. Producers run on other threads, so a step of theirs may come between any
-- two steps of the gate. A poll is one step, as of its last look into the inbox.
pub mod Interleavings
use systemrs.Base.{
  List, [], ◌∷◌, ◌++◌, Bool, true, false, Option, none, some, if◌then◌else◌, is_cons,
}
use systemrs.Kernel.State.{GateOutcome}

-- Where the gate stands in its loop.
pub data GatePoint : Type 0 where
  polling testing parked : GatePoint
  returned : GateOutcome → GatePoint

pub record Shared (A : Type 0) : Type 0 where
  pub inbox : List A
  pub receiver_alive : Bool
  pub stopped : Bool

-- `ChannelInputSender::send`: the value comes back when the receiver has been dropped.
unfoldable pub send : {A : Type 0} → Shared A → A → Shared A × Option A
send s value =
    if s.receiver_alive then (record s { inbox = s.inbox ++ value ∷ [] }, none) else (s, some value)

-- `StopSignal::stop`
abbrev pub stop : {A : Type 0} → Shared A → Shared A
stop s = record s { stopped = true }

-- `ChannelInput::poll`: whether something is injected, and the values that are.
unfoldable pub poll : {A : Type 0} → Shared A → Bool × List A × Shared A
poll s = (is_cons s.inbox, s.inbox, record s { inbox = [] })

-- One round of the loop of `attach_external_input`, with the values that it injects.
unfoldable pub gate : {A : Type 0} → GatePoint → Shared A → GatePoint × List A × Shared A
unfolding poll
gate GatePoint.polling s =
    let (injected, values, s2) = poll s in
    (if injected then GatePoint.returned GateOutcome.resume else GatePoint.testing, values, s2)
gate GatePoint.testing s =
    (if s.stopped then GatePoint.returned GateOutcome.stop else GatePoint.parked, [], s)
gate GatePoint.parked s = (GatePoint.polling, [], s)
gate (GatePoint.returned outcome) s = (GatePoint.returned outcome, [], s)

-- A gate, what it shares with the producers, and the values injected so far.
pub record World (A : Type 0) : Type 0 where
  pub point : GatePoint
  pub shared : Shared A
  pub injected : List A

unfoldable pub send_step : {A : Type 0} → World A → A → World A
unfolding send
send_step w v = let (s, _) = send w.shared v in record w { shared = s }

abbrev pub stop_step : {A : Type 0} → World A → World A
stop_step w = record w { shared = stop w.shared }

unfoldable pub gate_step : {A : Type 0} → World A → World A
unfolding gate
gate_step w =
    let (p, values, s) = gate w.point w.shared in
    record { point = p; shared = s; injected = w.injected ++ values }

-- Steps in any order, with the values that are sent on the way.
pub data Steps {A : Type 0} : World A → List A → World A → Type 0 where
  done : (w : World A) → Steps w [] w
  sends :
      (w : World A) (v : A) {vs : List A} {w2 : World A}
      → Steps (send_step w v) vs w2
      → Steps w (v ∷ vs) w2
  stops : (w : World A) {vs : List A} {w2 : World A} → Steps (stop_step w) vs w2 → Steps w vs w2
  gates : (w : World A) {vs : List A} {w2 : World A} → Steps (gate_step w) vs w2 → Steps w vs w2
