-- ===== src/Storage/Journal/Grown.antt =====
-- What a batch of crates/splitforge-storage/src/journal.rs adds to the rows and to the sidecar, and
-- that the claim of a checkpoint stays.
use splitforge.Prelude.{
  ℕ, ◌≤◌, ◌≡◌, ◌⊎◌, refl, ap, sym, ◌∙◌, subst, Bool, true, false, not, List, [], ◌∷◌, ◌++◌, take,
  append-nil, Result, ok, err, arith, Result-cases, inl, inr, All, leb, if◌then◌else◌,
}
use splitforge.Domain.Event.{RawRead, StoredRawRead}
use splitforge.Storage.Record.{SidecarRead, SidecarApi}
use splitforge.Storage.Sidecar.{
  Sidecar, Disk, synced, cut, append_records, encode_lines, write_buffer,
}
use splitforge.Storage.Journal.{
  StoreError, database_refused, SqliteJournal, has_id, row_ids, row_of, insert_one, max_seq,
}
use splitforge.Storage.Journal.Repair.{Ends, checkpoint}
use splitforge.Storage.Journal.Insert.{insert_each, stored_rows, store_all}
use splitforge.Storage.Journal.Reconcile.{checkpoint-kept}
use splitforge.Storage.Journal.Batch.{insert_one-row}

module _ (Api : SidecarApi) (lt : Api.Instant → Api.Instant → Bool) where
  abbrev pub IsThrough : List ℕ → ℕ → StoredRawRead Api.Instant → Type 0
  IsThrough before through r = has_id before r.read.id ≡ leb r.seq through

  insert_one-fresh :
      (rows more : List (StoredRawRead Api.Instant)) (found : SidecarRead Api.Instant)
      → insert_one Api lt rows found ≡ ok more
      → has_id (row_ids rows) found.read.id ≡ false
  unfolding insert_one
  insert_one-fresh rows more found e = ground arith

  -- What the rows of a batch leave of a claim on the reads before a checkpoint
  pub record IsClaimed (before : List ℕ) (through : ℕ) (rows : List (StoredRawRead Api.Instant))
      : Type 0 where
    pub held : (id : ℕ) → has_id before id ≡ true → has_id (row_ids rows) id ≡ true
    pub ranked : All (IsThrough before through) rows
    pub reached : through ≤ max_seq rows

  pub insert_each-IsClaimed :
      (before : List ℕ) (through : ℕ) (reads : List (RawRead Api.Instant × Api.Instant))
      (rows more : List (StoredRawRead Api.Instant))
      → insert_each Api lt rows reads ≡ ok more
      → IsClaimed before through rows
      → IsClaimed before through more
  unfolding insert_each max_seq has_id
  insert_each-IsClaimed before through [] rows more e h =
      let same : rows ≡ more = cc in subst (IsClaimed before through) same h
  insert_each-IsClaimed before through ((read, at) ∷ reads) rows more e h =
      let found : SidecarRead Api.Instant = record { read = read; recorded_at = at } in
      elim (Result-cases (insert_one Api lt rows found)) [
        | inr (bad, q) ↦ absurd (err_ok (rw (insert_each, q) at e))
        | inl (next, q) ↦
            let fresh = insert_one-fresh rows next found q in
            let new : has_id before read.id ≡ false = ground (arith, fresh, h.held read.id) in
            let grown : IsClaimed before through (row_of Api lt rows read at ∷ rows) = record {
              held = λ id k. ground (arith, h.held id k);
              ranked = (rw new (ground (arith, h.reached)), h.ranked);
              reached = omega (arith, h.reached);
            } in
            insert_each-IsClaimed before through reads next more (rw (insert_each, q) at e)
              (subst (IsClaimed before through) (insert_one-row Api lt rows next found q) grown)
      ]
    where
      err_ok : {bad : StoreError} → err bad ≡ ok more → ⊥
      err_ok h = cc

  -- An append only adds to the file.
  pub append_records-file :
      (sidecar : Sidecar) (records : List (RawRead Api.Instant × Api.Instant)) (disk : Disk)
      → (more : List ℕ) × ((append_records Api sidecar records disk).0.file ≡ sidecar.file ++ more)
  unfolding append_records
  append_records-file sidecar [] disk = ([], sym (append-nil sidecar.file))
  append_records-file sidecar (x ∷ records) disk =
      elim (Result-cases (encode_lines Api (x ∷ records) [])) [
        | inr (e, q) ↦ ([], rw (append_records, q) (sym (append-nil sidecar.file)))
        | inl (encoded, q) ↦ rw (append_records, q) (any_disk encoded disk)
      ]
    where
      any_disk :
          (encoded : List ℕ × List ℕ) (disk : Disk)
          → (more : List ℕ) × ((write_buffer Api sidecar encoded disk).0.file
              ≡ sidecar.file ++ more)
      any_disk (buffer, digest) synced = (buffer, refl)
      any_disk (buffer, digest) (cut k) = (take k buffer, refl)

  -- What a batch can do to the rows, and that it leaves the sidecar alone
  abbrev HasRows :
      SqliteJournal Api.Instant
      → List (RawRead Api.Instant × Api.Instant)
      → SqliteJournal Api.Instant
      → Type 0
  HasRows j reads after =
      ((after.rows ≡ j.rows) ⊎ (insert_each Api lt j.rows reads ≡ ok after.rows))
      × (after.sidecar ≡ j.sidecar)

  abbrev ends_as :
      Bool
      → Bool
      → SqliteJournal Api.Instant
      → SqliteJournal Api.Instant
      → SqliteJournal Api.Instant
      → List (StoredRawRead Api.Instant)
      → SqliteJournal Api.Instant × Result (List (StoredRawRead Api.Instant)) StoreError
  ends_as t d j noted stored rows =
      if not t then (j, err database_refused) else (if d then noted else stored, ok rows)

  pub store_all-HasRows :
      (j : SqliteJournal Api.Instant) (reads : List (RawRead Api.Instant × Api.Instant))
      (is_due : Bool) (ends : Ends Api lt)
      → HasRows j reads (store_all Api lt j reads is_due ends).0
  unfolding store_all
  store_all-HasRows j reads is_due ends = elim (Result-cases (insert_each Api lt j.rows reads)) [
    | inr (e, q) ↦ rw (store_all, q) (inl refl, refl)
    | inl (rows, q) ↦
        let stored : SqliteJournal Api.Instant = record j { rows = rows; unconfirmed = false } in
        let noted = (checkpoint Api lt stored ends.now ends.checkpointed).0 in
        let (r, s) = checkpoint-kept Api lt stored ends.now ends.checkpointed in
        subst
          (λ (x : Result (List (StoredRawRead Api.Instant)) StoreError).
            HasRows j reads
              (elim x
                as (λ z.
                  SqliteJournal Api.Instant
                  × Result (List (StoredRawRead Api.Instant)) StoreError) [
                    | err e ↦ (j, err e)
                    | ok rows ↦
                        let stored = record j { rows = rows; unconfirmed = false } in
                        let noted = (checkpoint Api lt stored ends.now ends.checkpointed).0 in
                        ends_as ends.transaction is_due j noted stored
                          (stored_rows Api lt j.rows reads)
                  ]).0)
          (sym q)
          (taken (stored_rows Api lt j.rows reads) ends.transaction is_due noted stored
            (inr (q ∙ ap ok (sym r)), s) (inr q, refl))
  ]
    where
      taken :
          (rows : List (StoredRawRead Api.Instant)) (t d : Bool)
          (noted stored : SqliteJournal Api.Instant)
          → HasRows j reads noted
          → HasRows j reads stored
          → HasRows j reads (ends_as t d j noted stored rows).0
      taken rows false d noted stored h k = (inl refl, refl)
      taken rows true true noted stored h k = h
      taken rows true false noted stored h k = k
