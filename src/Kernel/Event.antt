-- ===== src/Kernel/Event.antt =====
-- crates/systemrs-kernel/src/event.rs: events with their four subscriber lists and the one pending
-- notification. Process and event ids are the keys of an `Arena`.
use systemrs.Base.{ℕ, List, [], u64_max}
use systemrs.Time.{SimTime}

pub data Pending : Type 0 where
  none : Pending
  -- the slot in the delta-event list
  delta : ℕ → Pending
  -- the sequence number, and the absolute time
  timed : ℕ → SimTime → Pending

pub record Event : Type 0 where
  pub static_methods : List ℕ
  pub static_threads : List ℕ
  pub dynamic_methods : List ℕ
  pub dynamic_threads : List ℕ
  pub pending : Pending
  pub trigger_stamp : ℕ

abbrev pub new : Event
new = record {
  static_methods = [];
  static_threads = [];
  dynamic_methods = [];
  dynamic_threads = [];
  pending = Pending.none;
  trigger_stamp = u64_max;
}
