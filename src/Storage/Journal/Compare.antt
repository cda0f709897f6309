-- ===== src/Storage/Journal/Compare.antt =====
-- crates/splitforge-storage/src/journal.rs, `pass` and `survey`: the one comparison of the sidecar with
-- the database.
use splitforge.Prelude.{
  ℕ, Bool, ◌||◌, List, [], ◌∷◌, none, some, if◌then◌else◌, Result, ok, length, Run, done, ◌>>=◌,
}
use splitforge.Prelude.Fallible.{try_then}
use splitforge.Domain.Event.{StoredRawRead}
use splitforge.Storage.Record.{SidecarRead, SidecarApi}
use splitforge.Storage.Sidecar.{Sidecar, ScanTally, scan_from}
use splitforge.Storage.Journal.{
  StoreError, SidecarStatus, no_status, Start, beginning, resumed, start_byte, SqliteJournal, Pass,
  Passing, no_replayed, has_id, row_ids, all_seen, missing_from, add_replayed, count_only,
}

module _ (Api : SidecarApi) (lt : Api.Instant → Api.Instant → Bool) where
  module _
      (replay : List (StoredRawRead Api.Instant)
        → SidecarRead Api.Instant
        → Result (List (StoredRawRead Api.Instant)) StoreError) where
    -- Whether the database held a read when the pass began, or holds it as the pass comes to it
    abbrev pub already :
        Start Api.Instant → List ℕ → Passing Api.Instant → SidecarRead Api.Instant → Bool
    already beginning stored p found = has_id stored found.read.id
    already (resumed checkpoint) stored p found = has_id (row_ids p.rows) found.read.id

    -- What `pass` does with each read that it is handed
    unfoldable pub pass_read :
        Start Api.Instant
        → List ℕ
        → Passing Api.Instant
        → SidecarRead Api.Instant
        → Result (Passing Api.Instant) StoreError
    pass_read start stored p found =
        let seen = found.read.id ∷ p.seen in
        if already start stored p found || has_id p.replaying found.read.id
        then ok (record p { seen = seen })
        else try_then (replay p.rows found) λ rows. ok (record {
          rows = rows;
          seen = seen;
          replaying = found.read.id ∷ p.replaying;
          replayed = add_replayed Api lt p.replayed found;
        })

    unfoldable pub backfill_of :
        Start Api.Instant → List ℕ → Passing Api.Instant → List (SidecarRead Api.Instant)
    backfill_of beginning stored p =
        let missing = missing_from p.rows 0 p.seen in if all_seen stored p.seen then [] else missing
    backfill_of (resumed checkpoint) stored p = missing_from p.rows checkpoint.through_seq p.seen

    abbrev pub pass_end :
        Start Api.Instant → List ℕ → ScanTally × Passing Api.Instant → Pass Api.Instant
    pass_end start stored (tally, p) =
        let backfill = backfill_of start stored p in
        record {
          status = record {
            records = tally.records;
            corrupt_lines = tally.corrupt_lines;
            torn_tail_bytes = tally.torn_tail_bytes;
            torn_writes = tally.torn_writes;
            missing_from_database = p.replayed.count;
            missing_from_sidecar = length backfill;
          };
          replayed = p.replayed;
          backfill = backfill;
          last_verified = tally.last_verified;
          rows_after = p.rows;
        }

    abbrev pub pass_begin : List (StoredRawRead Api.Instant) → Passing Api.Instant
    pass_begin rows = record { rows = rows; seen = []; replaying = []; replayed = no_replayed }

    unfoldable pub pass :
        List (StoredRawRead Api.Instant)
        → Sidecar
        → Start Api.Instant
        → Run (Result (Pass Api.Instant) StoreError)
    pass rows sidecar start = do
      scanned ←
          scan_from Api (pass_read start (row_ids rows)) sidecar (start_byte start)
            (pass_begin rows)
      done (try_then scanned λ end. ok (pass_end start (row_ids rows) end))

  unfoldable pub survey : SqliteJournal Api.Instant → Run (Result SidecarStatus StoreError)
  survey j = elim j.sidecar [
    | none ↦ done (ok no_status)
    | some sidecar ↦ pass (count_only Api lt) j.rows sidecar beginning >>= λ found.
        done (try_then found λ p. ok p.status)
  ]
