-- ===== src/Storage/Journal/Ahead.antt =====
-- `insert_all` of crates/splitforge-storage/src/journal.rs: the sidecar holds every read that the
-- database does, however a batch ends, and a batch whose transaction is lost is not.
use splitforge.Prelude.{
  ℕ, ◌≡◌, refl, ap, sym, ◌∙◌, subst, Bool, true, false, not, ◌||◌, ◌&&◌, List, some, if◌then◌else◌,
  ok, err, arith, inl, inr, Result, Option, All, Result-cases,
}
use splitforge.Domain.Event.{RawRead, StoredRawRead}
use splitforge.Storage.Record.{SidecarRead, SidecarApi, fits_micros}
use splitforge.Storage.Sidecar.{Sidecar, append_records}
use splitforge.Storage.Sidecar.Lines.{recovered, split_lines}
use splitforge.Storage.Sidecar.Append.{IsWritable, append_records-kept}
use splitforge.Storage.Journal.{
  StoreError, of_line, database_refused, SqliteJournal, has_id, row_ids,
}
use splitforge.Storage.Journal.Repair.{Ends, checkpoint}
use splitforge.Storage.Journal.Insert.{
  stored_rows, check_storable, stamped, insert_each, store_all, write_ahead, insert_all,
}
use splitforge.Storage.Journal.Union.{found_ids, has_id-append}
use splitforge.Storage.Journal.Agree.{found_ids-append}
use splitforge.Storage.Journal.Writable.{IsHarmless}
use splitforge.Storage.Journal.Reconcile.{checkpoint-kept}
use splitforge.Storage.Journal.Batch.{
  read_ids, IsOfBytes, stamped-All, insert_each-has_id, append_records-has_id,
}

module _ (Api : SidecarApi) (lt : Api.Instant → Api.Instant → Bool) where
  -- The sidecar has a read of each row's id.
  abbrev pub IsBacked : List (StoredRawRead Api.Instant) → List ℕ → Type 0
  IsBacked rows file =
      (id : ℕ) → has_id (row_ids rows) id ≡ true → has_id (found_ids (recovered Api file)) id ≡ true

  abbrev pub has_succeeded : {A : Type 0} → Result A StoreError → Bool
  has_succeeded (ok a) = true
  has_succeeded (err e) = false

  -- What a batch leaves: the sidecar has a read of each row's id, and the rows are those that were
  -- there and, if the batch succeeded, the whole batch.
  pub record Leaves (j : SqliteJournal Api.Instant) (reads : List (RawRead Api.Instant))
      (after : SqliteJournal Api.Instant × Result (List (StoredRawRead Api.Instant)) StoreError)
      : Type 0 where
    pub written : Sidecar
    pub there : after.0.sidecar ≡ some written
    pub backed : IsBacked after.0.rows written.file
    pub whole :
        (id : ℕ)
        → has_id (row_ids after.0.rows) id ≡ (
            has_id (row_ids j.rows) id
            || has_succeeded after.1 && has_id (read_ids Api lt reads) id)

  -- A batch that leaves the rows alone and takes nothing from the sidecar
  Leaves-same :
      (j : SqliteJournal Api.Instant) (reads : List (RawRead Api.Instant))
      (sidecar written : Sidecar) (after : SqliteJournal Api.Instant) (e : StoreError)
      → after.sidecar ≡ some written
      → after.rows ≡ j.rows
      → IsBacked j.rows sidecar.file
      → ((id : ℕ)
          → has_id (found_ids (recovered Api sidecar.file)) id ≡ true
          → has_id (found_ids (recovered Api written.file)) id ≡ true)
      → Leaves j reads (after, err e)
  Leaves-same j reads sidecar written after e s r b more = record {
    written = written;
    there = s;
    backed = λ id h.
        more id
          (b id (ap (λ (x : List (StoredRawRead Api.Instant)). has_id (row_ids x) id) (sym r) ∙ h));
    whole =
        λ id. ap (λ (x : List (StoredRawRead Api.Instant)). has_id (row_ids x) id) r ∙ ground arith;
  }

  store_all-Leaves :
      (j ahead : SqliteJournal Api.Instant) (sidecar written : Sidecar) (now : Api.Instant)
      (reads : List (RawRead Api.Instant)) (is_due : Bool) (ends : Ends Api lt)
      → ahead.sidecar ≡ some written
      → ahead.rows ≡ j.rows
      → IsBacked j.rows sidecar.file
      → ((id : ℕ)
          → has_id (found_ids (recovered Api written.file)) id ≡ (
              has_id (found_ids (recovered Api sidecar.file)) id
              || has_id (read_ids Api lt reads) id))
      → Leaves j reads (store_all Api lt ahead (stamped Api lt now reads) is_due ends)
  unfolding store_all
  store_all-Leaves j ahead sidecar written now reads is_due ends s r b ids =
      elim (Result-cases (insert_each Api lt ahead.rows (stamped Api lt now reads))) [
        | inr (e, q) ↦
            rw (store_all, q)
              (Leaves-same j reads sidecar written ahead e s r b (λ id h. ground (arith, ids id)))
        | inl (rows, q) ↦
            let stored : SqliteJournal Api.Instant = record ahead {
              rows = rows;
              unconfirmed = false;
            } in
            let noted = (checkpoint Api lt stored ends.now ends.checkpointed).0 in
            let (r', s') = checkpoint-kept Api lt stored ends.now ends.checkpointed in
            rw (store_all, q)
              (taken rows q ends.transaction (if is_due then noted else stored)
                (stored_rows Api lt ahead.rows (stamped Api lt now reads))
                (due rows is_due stored noted (refl, refl) (r', s')))
      ]
    where
      IsStored : List (StoredRawRead Api.Instant) → SqliteJournal Api.Instant → Type 0
      IsStored rows x = (x.rows ≡ rows) × (x.sidecar ≡ ahead.sidecar)

      due :
          (rows : List (StoredRawRead Api.Instant)) (d : Bool)
          (stored noted : SqliteJournal Api.Instant)
          → (stored.rows ≡ rows) × (stored.sidecar ≡ ahead.sidecar)
          → (noted.rows ≡ rows) × (noted.sidecar ≡ ahead.sidecar)
          → ((if d then noted else stored).rows ≡ rows)
            × ((if d then noted else stored).sidecar ≡ ahead.sidecar)
      due rows true stored noted h k = k
      due rows false stored noted h k = h

      taken :
          (rows : List (StoredRawRead Api.Instant))
          → insert_each Api lt ahead.rows (stamped Api lt now reads) ≡ ok rows
          → (t : Bool) (final : SqliteJournal Api.Instant) (new : List (StoredRawRead Api.Instant))
          → (final.rows ≡ rows) × (final.sidecar ≡ ahead.sidecar)
          → Leaves j reads (if not t then (ahead, err database_refused) else (final, ok new))
      taken rows q false final new h =
          Leaves-same j reads sidecar written ahead database_refused s r b
            (λ id k. ground (arith, ids id))
      taken rows q true final new (fr, fs) =
          let held : (id : ℕ)
              → has_id (row_ids final.rows) id
                ≡ (has_id (row_ids j.rows) id || has_id (read_ids Api lt reads) id) =
            λ id.
              ap (λ (x : List (StoredRawRead Api.Instant)). has_id (row_ids x) id) fr
              ∙ insert_each-has_id Api lt now reads ahead.rows rows q id
              ∙ ap
                  (λ (x : List (StoredRawRead Api.Instant)).
                    has_id (row_ids x) id || has_id (read_ids Api lt reads) id)
                  r in
          record {
            written = written;
            there = fs ∙ s;
            backed = λ id h. ground (arith, held id, b id, ids id);
            whole = held;
          }

  write_ahead-Leaves :
      (j : SqliteJournal Api.Instant) (sidecar : Sidecar) (reads : List (RawRead Api.Instant))
      (is_due : Bool) (ends : Ends Api lt)
      → IsBacked j.rows sidecar.file
      → All (IsWritable Api) (stamped Api lt ends.now reads)
      → IsHarmless Api lt (split_lines sidecar.file).1
      → Leaves j reads (write_ahead Api lt (some sidecar) j reads is_due ends)
  unfolding write_ahead
  write_ahead-Leaves j sidecar reads is_due ends b w h =
      let x = append_records Api sidecar (stamped Api lt ends.now reads) ends.disk in
      let ahead : SqliteJournal Api.Instant = record j { sidecar = some x.0; unconfirmed = true } in
      let (more, kept_first) =
        append_records-kept Api sidecar (stamped Api lt ends.now reads) ends.disk in
      let keeps : (id : ℕ)
          → has_id (found_ids (recovered Api sidecar.file)) id ≡ true
          → has_id (found_ids (recovered Api x.0.file)) id ≡ true =
        λ id k.
          ap (λ (y : List (SidecarRead Api.Instant)). has_id (found_ids y) id) kept_first
          ∙ ap (λ (y : List ℕ). has_id y id) (found_ids-append (recovered Api sidecar.file) more)
          ∙ has_id-append (found_ids (recovered Api sidecar.file)) (found_ids more) id
          ∙ rw k refl in
      elim (Result-cases x.1) [
        | inr (e, q) ↦
            rw (write_ahead, q)
              (Leaves-same j reads sidecar x.0 ahead (of_line e) refl refl b keeps)
        | inl (u, q) ↦
            rw (write_ahead, q)
              (store_all-Leaves j ahead sidecar x.0 ends.now reads is_due ends refl refl b
                (append_records-has_id Api lt sidecar ends.now reads ends.disk w h q))
      ]

  -- However a batch ends, refused, cut off at any byte of its write to the sidecar, refused by the
  -- database or stored, the sidecar afterwards has a read of each row's id if it had one before. The
  -- rows are those of before if it fails, and if it succeeds those and the whole batch. The conditions
  -- are that the microseconds of the time of recording fit, that the payloads are bytes and that an
  -- interrupted write at the end of the sidecar hides no line behind it.
  pub insert_all-Leaves :
      (j : SqliteJournal Api.Instant) (sidecar : Sidecar) (reads : List (RawRead Api.Instant))
      (is_due : Bool) (ends : Ends Api lt)
      → j.sidecar ≡ some sidecar
      → IsBacked j.rows sidecar.file
      → fits_micros Api ends.now ≡ true
      → All (IsOfBytes Api lt) reads
      → IsHarmless Api lt (split_lines sidecar.file).1
      → Leaves j reads (insert_all Api lt j reads is_due ends)
  unfolding insert_all
  insert_all-Leaves j sidecar reads is_due ends s b f o h =
      elim (Result-cases (check_storable Api lt reads)) [
        | inr (e, c) ↦
            rw (insert_all, c)
              (Leaves-same j reads sidecar sidecar j (of_line e) s refl b (λ id k. k))
        | inl (u, c) ↦
            rw (insert_all, c)
              (subst
                (λ (o : Option Sidecar). Leaves j reads (write_ahead Api lt o j reads is_due ends))
                (sym s)
                (write_ahead-Leaves j sidecar reads is_due ends b
                  (stamped-All Api lt ends.now reads c f o) h))
      ]
