-- ===== src/Edge/Store/Retry.antt =====
-- `store` of apps/splitforge-edge/src/main.rs ends with the first attempt that nothing stops.
use splitforge.Prelude.{
  ℕ, ◌*◌, ◌<◌, ◌≤◌, ◌≡◌, ◌⊎◌, refl, ap, sym, ◌∙◌, subst, Bool, true, false, List, [], ◌∷◌, ◌++◌,
  some, Result, ok, err, done, arith, inl, inr, All, All-append_intro, Bool-cases, if◌then◌else◌,
  Option, ltb, min,
}
use splitforge.Domain.Event.{RawRead, StoredRawRead}
use splitforge.Storage.Record.{SidecarApi, LineError, disk_failed, storable, fits_micros}
use splitforge.Storage.Sidecar.{Sidecar, Disk, synced, cut, append_records, write_buffer}
use splitforge.Storage.Sidecar.Append.{encode_lines-recovered}
use splitforge.Storage.Journal.{
  StoreError, of_line, database_refused, SqliteJournal, has_id, row_ids, row_of,
}
use splitforge.Storage.Journal.Repair.{Ends}
use splitforge.Storage.Journal.Insert.{
  stored_rows, check_storable, insert_each, store_all, write_ahead, insert_all,
}
use splitforge.Storage.Journal.Union.{insert_one-new}
use splitforge.Storage.Journal.Reconcile.{checkpoint-kept}
use splitforge.Edge.Store.{
  journaled, Device, Attempt, is_unstorable, store_loop, store, retry_max_ms, one_more_failure,
}

cut_not_synced : {k : ℕ} → cut k ≡ synced → ⊥
cut_not_synced h = cc

module _ (Api : SidecarApi) (lt : Api.Instant → Api.Instant → Bool) where
  -- A read that the journal can hold, and does not, with a sidecar beside it
  record IsWaiting (read : RawRead Api.Instant) (j : SqliteJournal Api.Instant) : Type 0 where
    sidecar : Sidecar
    beside : j.sidecar ≡ some sidecar
    fresh : has_id (row_ids j.rows) read.id ≡ false

  -- Nothing stops an attempt.
  abbrev pub IsGood : Attempt Api lt → Type 0
  IsGood (is_due, ends) = (ends.transaction ≡ true) × (ends.disk ≡ synced)

  abbrev pub IsTimely : Attempt Api lt → Type 0
  IsTimely (is_due, ends) = fits_micros Api ends.now ≡ true

  -- How an attempt ends: the read is a row, or all is as before
  abbrev Ended :
      RawRead Api.Instant
      → Attempt Api lt
      → SqliteJournal Api.Instant × Result (List (StoredRawRead Api.Instant)) StoreError
      → Type 0
  Ended read attempt x =
      ((rows : List (StoredRawRead Api.Instant)) × (x.1 ≡ ok rows)
        × (has_id (row_ids x.0.rows) read.id ≡ true))
      ⊎ ((e : StoreError) × (x.1 ≡ err e)
          × (is_unstorable e ≡ false)
          × IsWaiting read x.0
          × (IsGood attempt → ⊥))

  abbrev ahead : SqliteJournal Api.Instant → Sidecar → SqliteJournal Api.Instant
  ahead j written = record j { sidecar = some written; unconfirmed = true }

  store_all-Ended :
      (j : SqliteJournal Api.Instant) (read : RawRead Api.Instant) (is_due : Bool)
      (ends : Ends Api lt)
      → storable Api read ≡ ok tt
      → fits_micros Api ends.now ≡ true
      → IsWaiting read j
      → Ended read (is_due, ends) (store_all Api lt j ((read, ends.now) ∷ []) is_due ends)
  unfolding store_all insert_each stored_rows has_id
  store_all-Ended j read is_due ends s f w =
      let row = row_of Api lt j.rows read ends.now in
      let one =
        insert_one-new Api lt j.rows (record { read = read; recorded_at = ends.now }) (s, f)
          w.fresh in
      let each : insert_each Api lt j.rows ((read, ends.now) ∷ []) ≡ ok (row ∷ j.rows) =
        rw (insert_each, one) in
      let stored : SqliteJournal Api.Instant = record j {
        rows = row ∷ j.rows;
        unconfirmed = false;
      } in
      let (r, x) = checkpoint-kept Api lt stored ends.now ends.checkpointed in
      let mine : has_id (row_ids (row ∷ j.rows)) read.id ≡ true = ground arith in
      elim (Bool-cases ends.transaction) [
        | inr t ↦ inr (
          database_refused,
          rw (store_all, each, t),
          refl,
          subst (IsWaiting read) (sym (rw (store_all, each, t))) w,
          λ good. absurd (false_true (sym t ∙ good.0)),
        )
        | inl t ↦ elim (Bool-cases is_due) [
          | inl d ↦ inl (
            row ∷ [],
            rw (store_all, each, t),
            rw (store_all, each, t, d)
                (ap (λ (y : List (StoredRawRead Api.Instant)). has_id (row_ids y) read.id) r
                  ∙ mine),
          )
          | inr d ↦ inl (row ∷ [], rw (store_all, each, t), rw (store_all, each, t, d) mine)
        ]
      ]
    where
      false_true : false ≡ true → ⊥
      false_true h = cc

  -- What an append leaves to do
  abbrev behind_append :
      SqliteJournal Api.Instant
      → RawRead Api.Instant
      → Bool
      → Ends Api lt
      → Sidecar × Result (Unit {0}) LineError
      → SqliteJournal Api.Instant × Result (List (StoredRawRead Api.Instant)) StoreError
  behind_append j read is_due ends x = elim x.1 [
    | err bad ↦ (ahead j x.0, err (of_line bad))
    | ok u ↦ store_all Api lt (ahead j x.0) ((read, ends.now) ∷ []) is_due ends
  ]

  insert_all-Ended :
      (j : SqliteJournal Api.Instant) (read : RawRead Api.Instant) (is_due : Bool)
      (ends : Ends Api lt)
      → storable Api read ≡ ok tt
      → fits_micros Api ends.now ≡ true
      → All (λ b. b < 256) read.raw_payload
      → IsWaiting read j
      → Ended read (is_due, ends) (insert_all Api lt j (read ∷ []) is_due ends)
  unfolding insert_all check_storable write_ahead append_records
  insert_all-Ended j read is_due ends s f b w =
      let (buffer, digest, q, found, shut) =
        encode_lines-recovered Api ((read, ends.now) ∷ []) [] ((s, f, b), tt) in
      let checked : check_storable Api lt (read ∷ []) ≡ ok tt = rw (check_storable, s) in
      let appended : append_records Api w.sidecar ((read, ends.now) ∷ []) ends.disk
          ≡ write_buffer Api w.sidecar (buffer, digest) ends.disk =
        rw (append_records, q) in
      let whole : insert_all Api lt j (read ∷ []) is_due ends
          ≡ behind_append j read is_due ends
              (write_buffer Api w.sidecar (buffer, digest) ends.disk) =
        rw (insert_all, checked)
          (ap (λ (o : Option Sidecar). write_ahead Api lt o j (read ∷ []) is_due ends) w.beside
            ∙ ap (behind_append j read is_due ends) appended) in
      subst (Ended read (is_due, ends)) (sym whole) (by_disk ends.disk refl buffer digest)
    where
      by_disk :
          (disk : Disk)
          → ends.disk ≡ disk
          → (buffer digest : List ℕ)
          → Ended read
              (is_due, ends)
              (behind_append j read is_due ends (write_buffer Api w.sidecar (buffer, digest) disk))
      by_disk synced d buffer digest =
          store_all-Ended (ahead j (write_buffer Api w.sidecar (buffer, digest) synced).0) read
            is_due ends s f
            (record {
              sidecar = (write_buffer Api w.sidecar (buffer, digest) synced).0;
              beside = refl;
              fresh = w.fresh;
            })
      by_disk (cut k) d buffer digest = inr (
        of_line disk_failed,
        refl,
        refl,
        record {
          sidecar = (write_buffer Api w.sidecar (buffer, digest) (cut k)).0;
          beside = refl;
          fresh = w.fresh;
        },
        λ good. absurd (cut_not_synced (sym d ∙ good.1)),
      )

  -- Among some attempts there is one that nothing stops.
  abbrev pub HasGood : List (Attempt Api lt) → Type 0
  HasGood [] = ⊥
  HasGood (attempt ∷ later) = IsGood attempt ⊎ HasGood later

  abbrev pub IsDelay : ℕ → Type 0
  IsDelay delay = delay ≤ retry_max_ms

  store_loop-journaled :
      (attempts : List (Attempt Api lt)) (read : RawRead Api.Instant) (delay failures : ℕ)
      (slept : List ℕ) (d : Device Api lt)
      → storable Api read ≡ ok tt
      → All (λ b. b < 256) read.raw_payload
      → All IsTimely attempts
      → HasGood attempts
      → delay ≤ retry_max_ms
      → All IsDelay slept
      → IsWaiting read d.journal
      → (delays : List ℕ) × (after : Device Api lt) × (store_loop Api lt attempts read delay
            failures slept d
          ≡ done (journaled, delays, after))
        × (has_id (row_ids after.journal.rows) read.id ≡ true)
        × All IsDelay delays
  unfolding store_loop
  store_loop-journaled [] read delay failures slept d s b t g l sl w = absurd g
  store_loop-journaled ((is_due, ends) ∷ later) read delay failures slept d s b (t, ts) g l sl w =
      let x = insert_all Api lt d.journal (read ∷ []) is_due ends in
      elim (insert_all-Ended d.journal read is_due ends s t b w) [
        | inl (rows, q, held) ↦ (
          slept,
          (if ltb 0 failures
              then record d { journal = x.0; faulty = false }
              else record d { journal = x.0 }),
          rw (store_loop, q),
          elim (Bool-cases (ltb 0 failures)) [ inl f ↦ rw f held | inr f ↦ rw f held ],
          sl,
        )
        | inr (e, q, u, waiting, bad) ↦
            let (delays, after, run, held, fine) =
              store_loop-journaled later read (min (delay * 2) retry_max_ms)
                (one_more_failure Api lt failures) (slept ++ delay ∷ [])
                (record d { journal = x.0; faulty = true }) s b ts (later_good g bad) (omega arith)
                (All-append_intro IsDelay slept (delay ∷ []) sl (l, tt)) waiting in
            (delays, after, rw (store_loop, q, u) run, held, fine)
      ]
    where
      later_good :
          IsGood (is_due, ends) ⊎ HasGood later → (IsGood (is_due, ends) → ⊥) → HasGood later
      later_good (inl good) bad = absurd (bad good)
      later_good (inr good) bad = good

  -- A read that the journal can hold and does not yet is stored, if among the attempts there is one
  -- whose write to the sidecar is synced and whose transaction the database takes: the loop ends
  -- with the read stored, and a row has its id. No delay that the loop has slept is longer than five
  -- seconds. The conditions are a sidecar beside the journal, a payload of bytes and times of
  -- recording whose microseconds fit.
  pub store-journaled :
      (attempts : List (Attempt Api lt)) (read : RawRead Api.Instant) (d : Device Api lt)
      (sidecar : Sidecar)
      → storable Api read ≡ ok tt
      → All (λ b. b < 256) read.raw_payload
      → All IsTimely attempts
      → HasGood attempts
      → d.journal.sidecar ≡ some sidecar
      → has_id (row_ids d.journal.rows) read.id ≡ false
      → (delays : List ℕ) × (after : Device Api lt) × (store Api lt attempts read d
          ≡ done (journaled, delays, after))
        × (has_id (row_ids after.journal.rows) read.id ≡ true)
        × All IsDelay delays
  unfolding store
  store-journaled attempts read d sidecar s b t g beside fresh =
      store_loop-journaled attempts read 100 0 [] d s b t g (omega arith) tt
        (record { sidecar = sidecar; beside = beside; fresh = fresh })
