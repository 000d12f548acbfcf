-- ===== src/Kernel.antt =====
-- crates/systemrs-kernel/src: the discrete-event kernel.
pub mod Event
pub mod Process
pub mod State
pub mod Notify
pub mod Trigger
pub mod Wait
pub mod Wheel
pub mod Ctx
pub mod Activate
pub mod Delta
pub mod Sched
pub mod Snapshot
pub mod Invariant
