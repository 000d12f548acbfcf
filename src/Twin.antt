-- ===== src/Twin.antt =====
-- crates/systemrs-twin/src: what an outside producer sends is recorded in a journal and replayed.
pub mod Text
pub mod Journal
pub mod Replay
pub mod Input
pub mod Rng
