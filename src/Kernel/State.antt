-- ===== src/Kernel/State.antt =====
-- The kernel state: `Inner` of crates/systemrs-kernel/src/inner.rs, with the phases of phase.rs and
-- the heap entries of timed.rs. The service store and the hooks are not state of the scheduler: what
-- the hooks do is an argument of the functions that call them, and only their presence is kept.
use systemrs.Base.{ℕ, List, [], Bool, false, Option, none, some, ◌≡◌}
use systemrs.Base.Arena.{Arena, empty, modify}
use systemrs.Time.{SimTime, Resolution}
use systemrs.Kernel.Event.{Event, Pending}
use systemrs.Kernel.Event
use systemrs.Kernel.Process.{Process}

pub data Phase : Type 0 where
  build evaluate update notify : Phase

pub data Starvation : Type 0 where
  run_to_time exit_on_starvation suspend_on_starvation : Starvation

pub data GateOutcome : Type 0 where
  exit resume stop : GateOutcome

pub data TimedTarget : Type 0 where
  event : ℕ → TimedTarget
  -- a process and its `wait_gen` at arming time
  wake : ℕ → ℕ → TimedTarget

pub record TimedEntry : Type 0 where
  pub when : SimTime
  pub seq : ℕ
  pub target : TimedTarget

pub record Inner : Type 0 where
  pub procs : Arena Process
  pub events : Arena Event
  -- the number of registered channels: their keys are the numbers below it
  pub chans : ℕ
  pub method_pop : List ℕ
  pub method_push : List ℕ
  pub thread_pop : List ℕ
  pub thread_push : List ℕ
  pub update_queue : List ℕ
  pub update_pending : ℕ → Bool
  pub delta_events : List ℕ
  pub delta_wakes : List (ℕ × ℕ)
  -- the heap, as the list of its entries in the order of popping
  pub timed : List TimedEntry
  pub initial_procs : List ℕ
  pub now : SimTime
  pub delta_count : ℕ
  pub change_stamp : ℕ
  pub delta_count_baseline_at_now : ℕ
  pub phase : Phase
  pub seq : ℕ
  pub running : Option ℕ
  pub started : Bool
  pub resolution : Resolution
  pub starvation : Starvation
  pub gate_installed : Bool
  pub elaborated : Bool
  pub ended : Bool

abbrev pub new : Resolution → Inner
new r = record {
  procs = empty;
  events = empty;
  chans = 0;
  method_pop = [];
  method_push = [];
  thread_pop = [];
  thread_push = [];
  update_queue = [];
  update_pending = λ _. false;
  delta_events = [];
  delta_wakes = [];
  timed = [];
  initial_procs = [];
  now = 0;
  delta_count = 0;
  change_stamp = 0;
  delta_count_baseline_at_now = 0;
  phase = build;
  seq = 0;
  running = none;
  started = false;
  resolution = r;
  starvation = exit_on_starvation;
  gate_installed = false;
  elaborated = false;
  ended = false;
}

-- `self.events[ev]`, at an id that the arena handed out
abbrev pub event_at : Inner → ℕ → Event
event_at s ev = elim (s.events.get ev) [ none ↦ Event.new | some e ↦ e ]

abbrev pub pending_of : Inner → ℕ → Pending
pending_of s ev = (event_at s ev).pending

-- `self.events[ev].field = …` and `self.procs[pid].field = …`
abbrev pub set_event : Inner → ℕ → (Event → Event) → Inner
set_event s ev f = record s { events = modify s.events ev f }

abbrev pub set_proc : Inner → ℕ → (Process → Process) → Inner
set_proc s pid f = record s { procs = modify s.procs pid f }

abbrev pub set_pending : Inner → ℕ → Pending → Inner
set_pending s ev p = set_event s ev (λ e. record e { pending = p })

-- An id that `alloc_event` handed out.
abbrev pub IsEvent : Inner → ℕ → Type 0
IsEvent s ev = (e : Event) × (s.events.get ev ≡ some e)
