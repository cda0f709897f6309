-- ===== src/Storage/Journal/Insert.antt =====
-- crates/splitforge-storage/src/journal.rs, `insert_all`: the sidecar first, then the database.
use splitforge.Prelude.{
  Bool, true, false, not, List, [], ◌∷◌, Option, none, some, if◌then◌else◌, Result, ok, err,
}
use splitforge.Prelude.Fallible.{try_then}
use splitforge.Domain.Event.{RawRead, StoredRawRead}
use splitforge.Storage.Record.{LineError, SidecarApi, storable}
use splitforge.Storage.Sidecar.{Sidecar, append_records}
use splitforge.Storage.Journal.{
  StoreError, of_line, database_refused, SqliteJournal, insert_one, row_of,
}
use splitforge.Storage.Journal.Repair.{Ends, checkpoint}

module _ (Api : SidecarApi) (lt : Api.Instant → Api.Instant → Bool) where
  unfoldable pub check_storable : List (RawRead Api.Instant) → Result (Unit {0}) LineError
  check_storable [] = ok tt
  check_storable (read ∷ reads) = try_then (storable Api read) λ u. check_storable reads

  abbrev pub stamped :
      Api.Instant → List (RawRead Api.Instant) → List (RawRead Api.Instant × Api.Instant)
  stamped at [] = []
  stamped at (read ∷ reads) = (read, at) ∷ stamped at reads

  unfoldable pub insert_each :
      List (StoredRawRead Api.Instant)
      → List (RawRead Api.Instant × Api.Instant)
      → Result (List (StoredRawRead Api.Instant)) StoreError
  insert_each rows [] = ok rows
  insert_each rows ((read, at) ∷ reads) =
      try_then (insert_one Api lt rows (record { read = read; recorded_at = at }))
        λ more. insert_each more reads

  -- The rows of a batch that was taken, in its order
  unfoldable pub stored_rows :
      List (StoredRawRead Api.Instant)
      → List (RawRead Api.Instant × Api.Instant)
      → List (StoredRawRead Api.Instant)
  stored_rows rows [] = []
  stored_rows rows ((read, at) ∷ reads) =
      row_of Api lt rows read at ∷ stored_rows (row_of Api lt rows read at ∷ rows) reads

  -- The transaction of `insert_all`, and the checkpoint if one is due. The new rows are returned.
  unfoldable pub store_all :
      SqliteJournal Api.Instant
      → List (RawRead Api.Instant × Api.Instant)
      → Bool
      → Ends Api lt
      → SqliteJournal Api.Instant × Result (List (StoredRawRead Api.Instant)) StoreError
  store_all j reads is_due ends = elim (insert_each j.rows reads) [
    | err e ↦ (j, err e)
    | ok rows ↦
        let stored = record j { rows = rows; unconfirmed = false } in
        let noted = (checkpoint Api lt stored ends.now ends.checkpointed).0 in
        if not ends.transaction
        then (j, err database_refused)
        else (if is_due then noted else stored, ok (stored_rows j.rows reads))
  ]

  -- What `insert_all` does with a batch that may be stored
  unfoldable pub write_ahead :
      Option Sidecar
      → SqliteJournal Api.Instant
      → List (RawRead Api.Instant)
      → Bool
      → Ends Api lt
      → SqliteJournal Api.Instant × Result (List (StoredRawRead Api.Instant)) StoreError
  write_ahead none j reads is_due ends = store_all j (stamped ends.now reads) is_due ends
  write_ahead (some sidecar) j reads is_due ends =
      let (written, appended) = append_records Api sidecar (stamped ends.now reads) ends.disk in
      let ahead = record j { sidecar = some written; unconfirmed = true } in
      elim appended [
        | err e ↦ (ahead, err (of_line e))
        | ok u ↦ store_all ahead (stamped ends.now reads) is_due ends
      ]

  unfoldable pub insert_all :
      SqliteJournal Api.Instant
      → List (RawRead Api.Instant)
      → Bool
      → Ends Api lt
      → SqliteJournal Api.Instant × Result (List (StoredRawRead Api.Instant)) StoreError
  insert_all j reads is_due ends = elim (check_storable reads) [
    | err e ↦ (j, err (of_line e))
    | ok u ↦ write_ahead j.sidecar j reads is_due ends
  ]
