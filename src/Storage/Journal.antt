-- ===== src/Storage/Journal.antt =====
-- crates/splitforge-storage/src/journal.rs, `SqliteJournal`: the raw reads in the database and their
-- copies in the sidecar. The rows of a table stand newest first, and a row is what `row_to_stored`
-- reads back. Whether the database takes a transaction, how the disk ends a write, and the clock are
-- parameters of the operations.
pub mod Compare
pub mod Repair
pub mod Insert
pub mod Union
pub mod Agree
pub mod Writable
pub mod Reconcile
pub mod Again
pub mod Batch
pub mod Ahead
pub mod Lost
pub mod Resume
pub mod Grown
pub mod Claims
pub mod Samples
use splitforge.Prelude.{
  ℕ, suc, ◌+◌, Bool, true, false, not, ◌&&◌, ◌||◌, List, [], ◌∷◌, ◌++◌, map, Option, none, some,
  leb, ltb, ◌==◌, if◌then◌else◌, Result, ok, err, length, Run, done, ◌>>=◌,
}
use splitforge.Prelude.Fallible.{try_then}
use splitforge.Prelude.Text.{◌=ₜ◌}
use splitforge.Domain.Time.{i64_max}
use splitforge.Domain.Event.{RawRead, StoredRawRead}
use splitforge.Storage.Record.{
  LineError, unstorable, SidecarRead, SidecarApi, storable, fits_micros, hex_lower, exceeds_i64,
  all_fit,
}
use splitforge.Storage.Record.RoundTrip.{in_micros}
use splitforge.Storage.Sidecar.{
  Sidecar, Tip, ScanTally, Disk, scan_from, append_records, ends_with_line,
}

-- The errors of the journal: of a line or a read, of a number that is no `i64`, of an instant without
-- microseconds, or the database refused
pub data StoreError : Type 0 where
  of_line : LineError → StoreError
  decode_failed out_of_range database_refused : StoreError

pub record SidecarStatus : Type 0 where
  pub records : ℕ
  pub corrupt_lines : ℕ
  pub torn_tail_bytes : ℕ
  pub torn_writes : ℕ
  pub missing_from_database : ℕ
  pub missing_from_sidecar : ℕ

-- `SidecarStatus::default()`
abbrev pub no_status : SidecarStatus
no_status = record {
  records = 0;
  corrupt_lines = 0;
  torn_tail_bytes = 0;
  torn_writes = 0;
  missing_from_database = 0;
  missing_from_sidecar = 0;
}

unfoldable pub is_clean : SidecarStatus → Bool
is_clean s =
    s.corrupt_lines == 0
    && s.torn_tail_bytes == 0
    && s.torn_writes == 0
    && s.missing_from_database == 0
    && s.missing_from_sidecar == 0

pub record RecoveryReport : Type 0 where
  pub found : SidecarStatus
  pub replayed_into_database : ℕ
  pub backfilled_into_sidecar : ℕ
  pub scanned_from_byte : ℕ

unfoldable pub repaired_anything : RecoveryReport → Bool
repaired_anything r = ltb 0 r.replayed_into_database || ltb 0 r.backfilled_into_sidecar

pub record SidecarCheckpoint (I : Type 0) : Type 0 where
  pub sidecar_bytes : ℕ
  pub last_line_sha256 : List ℕ
  pub through_seq : ℕ
  pub recorded_at : I

-- `Start`, and where the pass starts
pub data Start (I : Type 0) : Type 0 where
  beginning : Start I
  resumed : SidecarCheckpoint I → Start I

abbrev pub start_byte : {I : Type 0} → Start I → ℕ
start_byte beginning = 0
start_byte (resumed checkpoint) = checkpoint.sidecar_bytes

pub record Replayed (I : Type 0) : Type 0 where
  pub count : ℕ
  pub first_id : Option ℕ
  pub last_id : Option ℕ
  pub earliest : Option I
  pub latest : Option I

-- The row of the audit trail that a replay writes, with what its detail is made of
pub record ReplayAudit (I : Type 0) : Type 0 where
  pub actor : List ℕ
  pub replayed : Replayed I
  pub found : SidecarStatus

pub record SqliteJournal (I : Type 0) : Type 0 where
  pub rows : List (StoredRawRead I)
  pub checkpoints : List (SidecarCheckpoint I)
  pub audit : List (ReplayAudit I)
  pub sidecar : Option Sidecar
  pub unconfirmed : Bool

-- What one pass found and did, with the rows behind it
pub record Pass (I : Type 0) : Type 0 where
  pub status : SidecarStatus
  pub replayed : Replayed I
  pub backfill : List (SidecarRead I)
  pub last_verified : Option Tip
  pub rows_after : List (StoredRawRead I)

-- What a pass keeps while it runs
pub record Passing (I : Type 0) : Type 0 where
  pub rows : List (StoredRawRead I)
  pub seen : List ℕ
  pub replaying : List ℕ
  pub replayed : Replayed I

abbrev pub no_replayed : {I : Type 0} → Replayed I
no_replayed = record { count = 0; first_id = none; last_id = none; earliest = none; latest = none }

-- `HashSet::contains`
unfoldable pub has_id : List ℕ → ℕ → Bool
has_id [] id = false
has_id (i ∷ ids) id = i == id || has_id ids id

-- `SELECT id FROM raw_reads`
abbrev pub row_ids : {I : Type 0} → List (StoredRawRead I) → List ℕ
row_ids [] = []
row_ids (r ∷ rows) = r.read.id ∷ row_ids rows

-- Whether every id is among others
unfoldable pub all_seen : List ℕ → List ℕ → Bool
all_seen [] seen = true
all_seen (i ∷ ids) seen = has_id seen i && all_seen ids seen

unfoldable pub max_seq : {I : Type 0} → List (StoredRawRead I) → ℕ
max_seq [] = 0
max_seq (r ∷ rows) = r.seq

-- The rows after a `seq` whose id is not among those seen, the oldest first
unfoldable pub missing_from :
    {I : Type 0} → List (StoredRawRead I) → ℕ → List ℕ → List (SidecarRead I)
missing_from [] after_seq seen = []
missing_from (r ∷ rows) after_seq seen =
    let older = missing_from rows after_seq seen in
    if ltb after_seq r.seq && not (has_id seen r.read.id)
    then older ++ record { read = r.read; recorded_at = r.recorded_at } ∷ []
    else older

unfoldable pub latest_checkpoint :
    {I : Type 0} → List (SidecarCheckpoint I) → Option (SidecarCheckpoint I)
latest_checkpoint [] = none
latest_checkpoint (c ∷ checkpoints) = some c

module _ (Api : SidecarApi) (lt : Api.Instant → Api.Instant → Bool) where
  -- `Replayed::add`
  unfoldable pub add_replayed :
      Replayed Api.Instant → SidecarRead Api.Instant → Replayed Api.Instant
  add_replayed r found = record {
    count = r.count + 1;
    first_id = elim r.first_id [ none ↦ some found.read.id | some id ↦ some id ];
    last_id = some found.read.id;
    earliest = elim r.earliest [
      | none ↦ some found.recorded_at
      | some at ↦ some (if lt found.recorded_at at then found.recorded_at else at)
    ];
    latest = elim r.latest [
      | none ↦ some found.recorded_at
      | some at ↦ some (if lt found.recorded_at at then at else found.recorded_at)
    ];
  }

  -- The conversions of `insert_one`
  abbrev pub insertable : RawRead Api.Instant → Api.Instant → Bool
  insertable read recorded_at =
      all_fit Api read.reader_timestamp
      && not (exceeds_i64 read.reader_uptime_us)
      && not (exceeds_i64 read.received_at_monotonic_ns)
      && fits_micros Api read.received_at
      && fits_micros Api recorded_at

  -- The first of the conversions that fails, or else the row
  abbrev pub insert_error : RawRead Api.Instant → Api.Instant → StoreError
  insert_error read recorded_at =
      if not (all_fit Api read.reader_timestamp)
      then out_of_range
      else if exceeds_i64 read.reader_uptime_us || exceeds_i64 read.received_at_monotonic_ns
      then decode_failed
      else if not (fits_micros Api read.received_at && fits_micros Api recorded_at)
      then out_of_range
      else database_refused

  abbrev pub row_of :
      List (StoredRawRead Api.Instant)
      → RawRead Api.Instant
      → Api.Instant
      → StoredRawRead Api.Instant
  row_of rows read recorded_at = record {
    seq = suc (max_seq rows);
    recorded_at = Api.micros recorded_at;
    payload_sha256 = hex_lower (Api.sha256 read.raw_payload);
    read = in_micros Api read;
  }

  -- The id of a row is unique
  unfoldable pub insert_one :
      List (StoredRawRead Api.Instant)
      → SidecarRead Api.Instant
      → Result (List (StoredRawRead Api.Instant)) StoreError
  insert_one rows found =
      if not (insertable found.read found.recorded_at) || has_id (row_ids rows) found.read.id
      then err (insert_error found.read found.recorded_at)
      else ok (row_of rows found.read found.recorded_at ∷ rows)

  -- `replay` of a survey
  abbrev pub count_only :
      List (StoredRawRead Api.Instant)
      → SidecarRead Api.Instant
      → Result (List (StoredRawRead Api.Instant)) StoreError
  count_only rows found = ok rows
