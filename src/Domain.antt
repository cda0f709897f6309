-- ===== src/Domain.antt =====
-- crates/splitforge-domain/src: the types that the rest of the program speaks in. A UUID is the
-- number that its sixteen bytes spell, most significant first, and a string is the list of its
-- bytes.
pub mod Time
pub mod Policy
pub mod Entity
pub mod Outcome
pub mod Event
pub mod Clock
pub mod Gap
pub mod Samples
