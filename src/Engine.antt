-- ===== src/Engine.antt =====
-- crates/splitforge-engine/src/lib.rs: from the reads of the journal to crossings, rejections and
-- timing events.
pub mod Bursts
pub mod Laps
pub mod Derive
pub mod Samples
