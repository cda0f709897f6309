-- ===== src/Storage/Journal/Batch.antt =====
-- The reads of a batch of crates/splitforge-storage/src/journal.rs, in the sidecar and in the rows.
use splitforge.Prelude.{
  ℕ, ◌≡◌, refl, ap, sym, ◌∙◌, Bool, true, ◌||◌, List, [], ◌∷◌, ◌++◌, map, ok, err, arith, inl, inr,
  All, ◌<◌, Result-cases,
}
use splitforge.Domain.Event.{RawRead, StoredRawRead}
use splitforge.Storage.Record.{SidecarRead, SidecarApi, LineError, storable, fits_micros}
use splitforge.Storage.Sidecar.{Sidecar, Disk, synced, cut, encode_lines, append_records}
use splitforge.Storage.Sidecar.Lines.{recovered, split_lines}
use splitforge.Storage.Sidecar.Append.{IsWritable, kept, append_records-recovered}
use splitforge.Storage.Journal.{StoreError, has_id, row_ids, insert_one, row_of}
use splitforge.Storage.Journal.Insert.{check_storable, stamped, insert_each}
use splitforge.Storage.Journal.Union.{found_ids, has_id-append}
use splitforge.Storage.Journal.Agree.{found_ids-append}
use splitforge.Storage.Journal.Writable.{IsHarmless}

module _ (Api : SidecarApi) (lt : Api.Instant → Api.Instant → Bool) where
  abbrev pub read_ids : List (RawRead Api.Instant) → List ℕ
  read_ids [] = []
  read_ids (read ∷ reads) = read.id ∷ read_ids reads

  abbrev pub IsOfBytes : RawRead Api.Instant → Type 0
  IsOfBytes read = All (λ b. b < 256) read.raw_payload

  pub stamped-All :
      (now : Api.Instant) (reads : List (RawRead Api.Instant))
      → check_storable Api lt reads ≡ ok tt
      → fits_micros Api now ≡ true
      → All IsOfBytes reads
      → All (IsWritable Api) (stamped Api lt now reads)
  unfolding check_storable
  stamped-All now [] c f b = tt
  stamped-All now (read ∷ reads) c f (b, bs) = elim (Result-cases (storable Api read)) [
    | inl (u, e) ↦ ((e, f, b), stamped-All now reads (rw (check_storable, e) at c) f bs)
    | inr (u, e) ↦ absurd (err_ok (rw (check_storable, e) at c))
  ]
    where
      err_ok : {u : LineError} → err u ≡ ok tt → ⊥
      err_ok h = cc

  pub found_ids-stamped :
      (now : Api.Instant) (reads : List (RawRead Api.Instant))
      → found_ids (map (kept Api) (stamped Api lt now reads)) ≡ read_ids reads
  found_ids-stamped now [] = refl
  found_ids-stamped now (read ∷ reads) = ap (◌∷◌ read.id) (found_ids-stamped now reads)

  pub insert_one-row :
      (rows more : List (StoredRawRead Api.Instant)) (found : SidecarRead Api.Instant)
      → insert_one Api lt rows found ≡ ok more
      → row_of Api lt rows found.read found.recorded_at ∷ rows ≡ more
  unfolding insert_one
  insert_one-row rows more found e = ground arith

  -- The rows behind a transaction are the rows before it and those of the batch.
  pub insert_each-has_id :
      (now : Api.Instant) (reads : List (RawRead Api.Instant))
      (rows more : List (StoredRawRead Api.Instant))
      → insert_each Api lt rows (stamped Api lt now reads) ≡ ok more
      → (id : ℕ)
      → has_id (row_ids more) id ≡ (has_id (row_ids rows) id || has_id (read_ids reads) id)
  unfolding insert_each has_id
  insert_each-has_id now [] rows more e id =
      let same : rows ≡ more = cc in
      ap (λ (x : List (StoredRawRead Api.Instant)). has_id (row_ids x) id) (sym same) ∙ ground arith
  insert_each-has_id now (read ∷ reads) rows more e id =
      let found : SidecarRead Api.Instant = record { read = read; recorded_at = now } in
      elim (Result-cases (insert_one Api lt rows found)) [
        | inr (bad, q) ↦ absurd (err_ok (rw (insert_each, q) at e))
        | inl (next, q) ↦
            let rest = insert_each-has_id now reads next more (rw (insert_each, q) at e) id in
            let one =
              ap (λ (x : List (StoredRawRead Api.Instant)). has_id (row_ids x) id)
                (insert_one-row rows next found q) in
            ground (arith, rest, one)
      ]
    where
      err_ok : {bad : StoreError} → err bad ≡ ok more → ⊥
      err_ok h = cc

  append_records-cut :
      (sidecar : Sidecar) (x : RawRead Api.Instant × Api.Instant)
      (records : List (RawRead Api.Instant × Api.Instant)) (k : ℕ)
      → (append_records Api sidecar (x ∷ records) (cut k)).1 ≡ ok tt
      → ⊥
  unfolding append_records
  append_records-cut sidecar x records k e =
      elim (Result-cases (encode_lines Api (x ∷ records) [])) [
        | inl (encoded, q) ↦ err_ok (rw (append_records, q) at e)
        | inr (bad, q) ↦ err_ok (rw (append_records, q) at e)
      ]
    where
      err_ok : {bad : LineError} → err bad ≡ ok tt → ⊥
      err_ok h = cc

  -- An append that succeeds leaves reads of the ids of the batch behind those that were there.
  pub append_records-has_id :
      (sidecar : Sidecar) (now : Api.Instant) (reads : List (RawRead Api.Instant)) (disk : Disk)
      → All (IsWritable Api) (stamped Api lt now reads)
      → IsHarmless Api lt (split_lines sidecar.file).1
      → (append_records Api sidecar (stamped Api lt now reads) disk).1 ≡ ok tt
      → (id : ℕ)
      → has_id
          (found_ids
            (recovered Api (append_records Api sidecar (stamped Api lt now reads) disk).0.file))
          id
        ≡ (has_id (found_ids (recovered Api sidecar.file)) id || has_id (read_ids reads) id)
  unfolding append_records has_id
  append_records-has_id sidecar now [] disk w h e id = ground arith
  append_records-has_id sidecar now (read ∷ reads) synced w h e id =
      let (result, found, ends) =
        append_records-recovered Api sidecar (read, now) (stamped Api lt now reads) w
          (h (read, now)) in
      ap (λ (x : List (SidecarRead Api.Instant)). has_id (found_ids x) id) found
      ∙ ap (λ (x : List ℕ). has_id x id)
          (found_ids-append (recovered Api sidecar.file)
              (map (kept Api) (stamped Api lt now (read ∷ reads)))
            ∙ ap (λ (x : List ℕ). found_ids (recovered Api sidecar.file) ++ x)
                (found_ids-stamped now (read ∷ reads)))
      ∙ has_id-append (found_ids (recovered Api sidecar.file)) (read_ids (read ∷ reads)) id
  append_records-has_id sidecar now (read ∷ reads) (cut k) w h e id =
      absurd (append_records-cut sidecar (read, now) (stamped Api lt now reads) k e)
