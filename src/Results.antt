-- ===== src/Results.antt =====
-- crates/splitforge-results/src/lib.rs: from timing events, a roster and declarations to the lines of
-- a results sheet.
pub mod Evidence
pub mod Entry
pub mod Ranking
pub mod Score
pub mod Clock
pub mod Samples
