-- ===== src/Tests.antt =====
-- The theorems at concrete inputs, and runs of the model.
pub mod KernelState
pub mod KernelRuns
pub mod Channels
pub mod Transactions
pub mod Harts
pub mod Reporting
pub mod Journals
pub mod Bindings
pub mod Snapshots
pub mod Parallel
