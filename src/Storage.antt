-- ===== src/Storage.antt =====
-- crates/splitforge-storage/src: the journal. The database is not part of the program: a table is the
-- list of its rows, the newest first, and whether the database takes a statement is a parameter of
-- each operation that runs one.
pub mod Gaps
pub mod Record
pub mod Sidecar
pub mod Journal
pub mod Plain
pub mod Samples
