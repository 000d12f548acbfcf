-- ===== src/Tlm.antt =====
-- crates/systemrs-tlm2/src: the generic payload and the memory target.
pub mod Payload
pub mod Memory
