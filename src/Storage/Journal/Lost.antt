-- ===== src/Storage/Journal/Lost.antt =====
-- A batch that reached the sidecar and not the database of crates/splitforge-storage/src/journal.rs
-- comes back with the next reconciliation.
use splitforge.Prelude.{
  ℕ, ◌≡◌, refl, ap, sym, ◌∙◌, subst, Bool, true, false, ◌||◌, List, [], ◌∷◌, ◌++◌, map, some, ok,
  err, inl, inr, done, Result, Option, All, All-append_intro, Result-cases, Option-cases,
}
use splitforge.Domain.Event.{RawRead, StoredRawRead}
use splitforge.Storage.Record.{SidecarRead, SidecarApi, LineError, fits_micros}
use splitforge.Storage.Record.RoundTrip.{fits-micros, storable-in_micros, micros_again}
use splitforge.Storage.Sidecar.{Sidecar, synced, append_records}
use splitforge.Storage.Sidecar.Lines.{recovered, split_lines}
use splitforge.Storage.Sidecar.Append.{IsWritable, kept, append_records-recovered}
use splitforge.Storage.Journal.{
  StoreError, of_line, database_refused, RecoveryReport, SqliteJournal, has_id, row_ids, insert_one,
}
use splitforge.Storage.Journal.Repair.{Ends, reconcile}
use splitforge.Storage.Journal.Insert.{
  check_storable, stamped, insert_each, store_all, write_ahead, insert_all,
}
use splitforge.Storage.Journal.Union.{found_ids, IsNumbered, has_id-append}
use splitforge.Storage.Journal.Agree.{found_ids-append, has_id-union_rows}
use splitforge.Storage.Journal.Writable.{IsHarmless, IsRowWritable, IsFoundWritable}
use splitforge.Storage.Journal.Reconcile.{reconcile-Agrees}
use splitforge.Storage.Journal.Batch.{read_ids, IsOfBytes, stamped-All, found_ids-stamped}

module _ (Api : SidecarApi) (lt : Api.Instant → Api.Instant → Bool) where
  -- A read that comes back from the sidecar is inserted exactly as the read that was written there:
  -- the same row behind any rows, or the same refusal.
  pub insert_one-kept :
      (rows : List (StoredRawRead Api.Instant)) (read : RawRead Api.Instant)
      (recorded_at : Api.Instant)
      → insert_one Api lt rows (kept Api (read, recorded_at))
        ≡ insert_one Api lt rows (record { read = read; recorded_at = recorded_at })
  unfolding insert_one
  insert_one-kept rows read recorded_at =
      let f = fits-micros Api read.received_at in
      let g = fits-micros Api recorded_at in
      let r = micros_again Api read.received_at in
      let s = micros_again Api recorded_at in
      elim (Option-cases read.reader_timestamp) [
        | inl n ↦ rw (insert_one, n, f, g, r, s)
        | inr (at, t) ↦ rw (insert_one, t, f, g, fits-micros Api at, r, s, micros_again Api at)
      ]

  kept-All :
      (records : List (RawRead Api.Instant × Api.Instant))
      → All (IsWritable Api) records
      → All (IsFoundWritable Api lt) (map (kept Api) records)
  kept-All [] w = tt
  kept-All ((read, at) ∷ records) ((s, f, b), ws) =
      ((storable-in_micros Api read ∙ s, fits-micros Api at ∙ f, b), kept-All records ws)

  -- The journal behind a batch that the sidecar has and the database refused
  abbrev ahead : SqliteJournal Api.Instant → Sidecar → SqliteJournal Api.Instant
  ahead j written = record j { sidecar = some written; unconfirmed = true }

  store_all-refused :
      (j : SqliteJournal Api.Instant) (reads : List (RawRead Api.Instant × Api.Instant))
      (is_due : Bool) (ends : Ends Api lt)
      → ends.transaction ≡ false
      → (e : StoreError) × (store_all Api lt j reads is_due ends ≡ (j, err e))
  unfolding store_all
  store_all-refused j reads is_due ends t = elim (Result-cases (insert_each Api lt j.rows reads)) [
    | inl (rows, q) ↦ (database_refused, rw (store_all, q, t))
    | inr (e, q) ↦ (e, rw (store_all, q))
  ]

  insert_all-refused :
      (j : SqliteJournal Api.Instant) (sidecar : Sidecar) (reads : List (RawRead Api.Instant))
      (is_due : Bool) (ends : Ends Api lt) (written : Sidecar)
      → j.sidecar ≡ some sidecar
      → check_storable Api lt reads ≡ ok tt
      → append_records Api sidecar (stamped Api lt ends.now reads) ends.disk ≡ (written, ok tt)
      → ends.transaction ≡ false
      → (e : StoreError) × (insert_all Api lt j reads is_due ends ≡ (ahead j written, err e))
  unfolding insert_all write_ahead
  insert_all-refused j sidecar reads is_due ends written s c a t =
      let (e, q) =
        store_all-refused (ahead j written) (stamped Api lt ends.now reads) is_due ends t in
      let wrote : write_ahead Api lt (some sidecar) j reads is_due ends ≡ (ahead j written, err e) =
        ap
          (λ (x : Sidecar × Result Unit LineError).
            elim x.1
              as (λ z.
                SqliteJournal Api.Instant × Result (List (StoredRawRead Api.Instant)) StoreError) [
                  | err bad ↦ (ahead j x.0, err (of_line bad))
                  | ok u ↦
                      store_all Api lt (ahead j x.0) (stamped Api lt ends.now reads) is_due ends
                ])
          a
        ∙ q in
      (
        e,
        rw (insert_all, c)
            (ap (λ (o : Option Sidecar). write_ahead Api lt o j reads is_due ends) s ∙ wrote),
      )

  -- A batch that may be stored, whose lines are synced and whose transaction the database refuses,
  -- fails and leaves the rows alone. It is not lost: the next reconciliation, if its own statements
  -- are taken and its write is synced, ends with rows that have each read of the batch. The conditions
  -- are those of a reconciliation before the batch, that the microseconds of the time of recording
  -- fit, and that the payloads are bytes.
  pub insert_all-reconcile :
      (j : SqliteJournal Api.Instant) (sidecar : Sidecar) (read : RawRead Api.Instant)
      (reads : List (RawRead Api.Instant)) (is_due : Bool) (ends next : Ends Api lt)
      (actor : List ℕ)
      → j.sidecar ≡ some sidecar
      → check_storable Api lt (read ∷ reads) ≡ ok tt
      → ends.disk ≡ synced
      → ends.transaction ≡ false
      → next.disk ≡ synced
      → next.transaction ≡ true
      → fits_micros Api ends.now ≡ true
      → All (IsOfBytes Api lt) (read ∷ reads)
      → IsNumbered j.rows
      → All (IsRowWritable Api lt) j.rows
      → All (IsFoundWritable Api lt) (recovered Api sidecar.file)
      → IsHarmless Api lt (split_lines sidecar.file).1
      → (e : StoreError) × (failed after : SqliteJournal Api.Instant) × (result : Result
          RecoveryReport StoreError)
        × (insert_all Api lt j (read ∷ reads) is_due ends ≡ (failed, err e))
        × (failed.rows ≡ j.rows)
        × (reconcile Api lt failed actor next ≡ done (after, result))
        × ((id : ℕ)
            → has_id (row_ids after.rows) id ≡ (
                has_id (row_ids j.rows) id
                || (has_id (found_ids (recovered Api sidecar.file)) id
                    || has_id (read_ids Api lt (read ∷ reads)) id)))
  unfolding has_id
  insert_all-reconcile j sidecar read reads is_due ends next actor s c d t nd nt f b n w ws h =
      let batch = stamped Api lt ends.now (read ∷ reads) in
      let writable = stamped-All Api lt ends.now (read ∷ reads) c f b in
      let (appended, found, shut) =
        append_records-recovered Api sidecar (read, ends.now) (stamped Api lt ends.now reads)
          writable (h (read, ends.now)) in
      let written = (append_records Api sidecar batch synced).0 in
      let wrote : append_records Api sidecar batch ends.disk ≡ (written, ok tt) =
        rw d (ap (λ (r : Result Unit LineError). (written, r)) appended) in
      let (e, failed) =
        insert_all-refused j sidecar (read ∷ reads) is_due ends written s c wrote t in
      let all_writable : All (IsFoundWritable Api lt) (recovered Api written.file) =
        subst (All (IsFoundWritable Api lt)) (sym found) (
          All-append_intro (IsFoundWritable Api lt) (recovered Api sidecar.file)
            (map (kept Api) batch) ws (kept-All batch writable)) in
      let harmless : IsHarmless Api lt (split_lines written.file).1 =
        subst (IsHarmless Api lt) (sym shut) (λ x line digest q. tt) in
      let (after, result, level, ends_with, rows, sidecars, agrees) =
        reconcile-Agrees Api lt (ahead j written) written actor next refl nt nd n w all_writable
          harmless in
      (
        e,
        ahead j written,
        after,
        result,
        failed,
        refl,
        ends_with,
        λ id.
            ap (λ (x : List (StoredRawRead Api.Instant)). has_id (row_ids x) id) rows
            ∙ has_id-union_rows Api lt j.rows (recovered Api written.file) id
            ∙ ap (λ (x : Bool). has_id (row_ids j.rows) id || x)
                (ap (λ (x : List (SidecarRead Api.Instant)). has_id (found_ids x) id) found
                  ∙ ap (λ (x : List ℕ). has_id x id)
                      (found_ids-append (recovered Api sidecar.file) (map (kept Api) batch)
                        ∙ ap (λ (x : List ℕ). found_ids (recovered Api sidecar.file) ++ x)
                            (found_ids-stamped Api lt ends.now (read ∷ reads)))
                  ∙ has_id-append (found_ids (recovered Api sidecar.file))
                      (read_ids Api lt (read ∷ reads)) id),
      )
