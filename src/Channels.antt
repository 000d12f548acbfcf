-- ===== src/Channels.antt =====
-- crates/systemrs-channels/src: the channels whose updates the kernel commits.
pub mod Fifo
pub mod Signal
pub mod Clock
pub mod Binding
pub mod Port
pub mod Export
