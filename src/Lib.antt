-- ===== src/Lib.antt =====
-- SplitForge: race timing from a serial RFID reader, through an append-only journal of reads, to
-- published results.
--
-- What is modelled, and where:
--
-- - Thingmagic (crates/splitforge-thingmagic/src): the serial protocol of a reader module.
--   Crc is crc.rs, Frame is frame.rs (`decode`, `resynchronize`, `encode_command`), Reassembly is
--   reassembly.rs (`Reassembler::feed`, `flush`, `scan`, `reset`), Command is command.rs (opcodes,
--   regions and powers in Command.Codes and Command.Power), Start is start.rs (`Starting`), TagReport
--   is tag_report.rs (`StreamDecoder`; its `Cursor` in TagReport.Bounded). Start.Pump is `pump` of
--   provider.rs, as far as the start sequence goes: a turn of its loop for each read, which gives each
--   frame to the sequence or to the decoder and then looks at the deadline.
-- - Reader (crates/splitforge-reader/src/lib.rs): the message that a tag report becomes, and
--   `Ingest::normalize`, which decides whose clock counts for it.
-- - Storage (crates/splitforge-storage/src): the journal. Record is the record of a line of the sidecar
--   (`SidecarRecord::of`, `into_read` of sidecar.rs, `storable` and the texts of journal.rs,
--   `to_micros` of connection.rs), Sidecar the file of lines (`read_line`, `scan_from`,
--   `append_records`, `ends_with_line`), Journal `SqliteJournal` of journal.rs: `pass` and `survey`
--   (Journal.Compare), `checkpoint`, `repair`, `reconcile` and `open_recovering` (Journal.Repair),
--   `insert_all` (Journal.Insert). Gaps is the table of reader gaps, `open_reader_gap`,
--   `close_reader_gap` and `open_reader_gap_for`. Plain is a stand-in for the crates in the examples.
-- - Edge (apps/splitforge-edge/src/main.rs): the watch over those gaps, `record_connection` and
--   `check_for_silence`, on the state of the reader and the rows of the journal (Edge.Watch). `happen`
--   is the loop of `read_into_journal` without the storing of a read, and a tick of the watchdog.
--   Edge.Store is that storing, `store`, whose loop runs on the list of its attempts.
-- - Domain (crates/splitforge-domain/src): the records of the program. Policy is policy.rs, Entity is
--   entity.rs (chip assignments, the antenna map, sessions), Event is read.rs, manual.rs and
--   derived.rs, Outcome is result.rs, Clock is clock.rs and Gap is gap.rs. A UUID is the number
--   its bytes spell, a string the list of its bytes (of its code points where it is parsed or
--   printed, Prelude.Text), a `BTreeMap` a list in the order of its keys (Prelude.Map).
-- - Results (crates/splitforge-results/src/lib.rs): `score`. Evidence gathers the crossings, the
--   starters and the declarations in force, Entry is `build_entry`, Ranking is `assign_places`,
--   `sort_for_publication` and `bib_order`, Score is `score`. Clock is clock.rs: `untrusted_events` and
--   `flag_clock`.
-- - Engine (crates/splitforge-engine/src/lib.rs): `derive`. Bursts is `split_into_bursts`, `select` and
--   `on_the_race_side`, Derive the loops over reads, groups and bursts, Laps the merge with manual
--   entries and the lap numbers. Its timing events are what `score` is given.
-- - Prelude: what the modules share. A `u8` or `u16` is a number, and a shift that drops bits says
--   so by `% 2 ^ 16`. A slice or an index out of bounds is `panic`, so that its absence is proved.
--
-- Parameters: `TimeApi` (Domain.Time) stands for what is used of the `time` crate: instants with a
-- comparison and differences, which agree with the nanoseconds they count. `UuidApi` (Domain.Event)
-- stands for the hashes that identify what is derived. `SidecarApi` (Storage.Record) stands for JSON,
-- SHA-256, UUIDs, UTF-8 and the instants of the sidecar, with the laws that are used of them. That two
-- texts never have one digest is not among them: where an interrupted write ends in a part of a line,
-- the theorems ask that its remains do not verify together with the line behind them.
--
-- Bounds: an `i64` in milliseconds saturates as `i64::try_from(..).unwrap_or(i64::MAX)` does, a place
-- as `u32` and a lap as `u16` do.
--
-- A start sequence: an instant is a number of nanoseconds, a port is whether it can be written at the
-- time, and the frames that a call writes are part of its reply. The counts of the tag decoder stop
-- at the largest `u64`.
--
-- Fuel: the loop of `Reassembler::scan` runs on one round more than the buffer has bytes; `stuck` is
-- its value when the rounds run out, and the theorems on `feed` and `flush` show that it is not met.
-- The loop of `scan_from` likewise runs on one round more than there are bytes to read.
--
-- The database: a table is the list of its rows, the newest first, a row's id is one more than that
-- of the newest, and whether a statement is taken is a parameter of each operation. A write to the
-- sidecar may be cut off at any byte, which is also what a power cut leaves. A step of the
-- watch is one call; what a poisoned lock does, and calls that interleave, are not modelled.
--
-- Not modelled: the state of the time daemon, the recorder of captures, the threads of the provider,
-- the serial port and the device files below the protocol, the tables of the database for manual
-- entries, clock steps, results and configuration, the
-- command line, the HTTP service and the rest of the programs under apps/, which are input and output.
pub mod Prelude
pub mod Reader
pub mod Thingmagic
pub mod Domain
pub mod Storage
pub mod Results
pub mod Engine
pub mod Edge
