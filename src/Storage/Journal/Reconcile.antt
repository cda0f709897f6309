-- ===== src/Storage/Journal/Reconcile.antt =====
-- `reconcile` of crates/splitforge-storage/src/journal.rs: the union, in both directions.
use splitforge.Prelude.{
  ℕ, ◌≡◌, refl, ap, sym, ◌∙◌, subst, Bool, true, false, not, ◌&&◌, ◌||◌, List, [], ◌∷◌, ◌++◌, none,
  some, if◌then◌else◌, ok, arith, Bool-cases, inl, inr, All, done, map, Option, Result,
}
use splitforge.Domain.Event.{RawRead, StoredRawRead}
use splitforge.Storage.Record.{SidecarRead, SidecarApi, LineError}
use splitforge.Storage.Sidecar.{Sidecar, Tip, no_tally, synced, append_records, Disk}
use splitforge.Storage.Sidecar.Lines.{recovered, split_lines, tally_bytes}
use splitforge.Storage.Sidecar.Append.{kept, append_records-recovered}
use splitforge.Storage.Journal.{
  StoreError, Start, beginning, resumed, Passing, Pass, RecoveryReport, SqliteJournal, has_id,
  row_ids, all_seen, insert_one,
}
use splitforge.Storage.Journal.Compare.{pass, pass_begin, pass_end, backfill_of}
use splitforge.Storage.Journal.Repair.{
  Ends, repair, reconcile, commit_pass, bring_level, recorded_pairs, checkpoint, checkpoint_at,
  audited, tip_after, repair_with,
}
use splitforge.Storage.Journal.Union.{
  found_ids, IsNumbered, Passes, union_rows, all_seen_lem, has_id-append,
}
use splitforge.Storage.Journal.Agree.{
  has_id-union_rows, missing_from-has_id, found_ids-append, pass-union_rows, union_rows-IsNumbered,
}
use splitforge.Storage.Journal.Writable.{
  IsFoundWritable, IsRowWritable, IsHarmless, All-IsReplayable, union_rows-All, missing_from-All,
  recorded_pairs-All, found_ids-kept,
}

module _ (Api : SidecarApi) (lt : Api.Instant → Api.Instant → Bool) where
  abbrev J : Type 0
  J = SqliteJournal Api.Instant

  -- The database and the sidecar hold reads of the same ids.
  abbrev pub Agrees : List (StoredRawRead Api.Instant) → List ℕ → Type 0
  Agrees rows file =
      (id : ℕ) → has_id (row_ids rows) id ≡ has_id (found_ids (recovered Api file)) id

  abbrev IsSame : J → J × Result Bool StoreError → Type 0
  IsSame j after = (after.0.rows ≡ j.rows) × (after.0.sidecar ≡ j.sidecar)

  checkpoint_at-kept :
      (tip : Option Tip) (j : J) (now : Api.Instant) (accepted : Bool)
      → IsSame j (checkpoint_at Api lt tip j now accepted)
  unfolding checkpoint_at
  checkpoint_at-kept none j now accepted = (refl, refl)
  checkpoint_at-kept (some tip) j now accepted = ground arith

  -- A checkpoint changes neither the rows nor the sidecar.
  pub checkpoint-kept :
      (j : J) (now : Api.Instant) (accepted : Bool)
      → ((checkpoint Api lt j now accepted).0.rows ≡ j.rows)
        × ((checkpoint Api lt j now accepted).0.sidecar ≡ j.sidecar)
  unfolding checkpoint
  checkpoint-kept j now accepted =
      either j.unconfirmed (checkpoint_at Api lt _ j now accepted)
        (checkpoint_at-kept _ j now accepted)
    where
      either :
          (b : Bool) (x : J × Result Bool StoreError)
          → IsSame j x
          → IsSame j (if b then (j, ok false) else x)
      either true x h = (refl, refl)
      either false x h = h

  pub commit_pass-level :
      (j : J) (actor : List ℕ) (start : Start Api.Instant) (sidecar level : Sidecar)
      (ends : Ends Api lt) (p : Pass Api.Instant)
      → ends.transaction ≡ true
      → bring_level Api lt start sidecar p ends.disk ≡ (level, ok tt)
      → ((commit_pass Api lt j actor start sidecar ends p).0.rows ≡ p.rows_after)
        × ((commit_pass Api lt j actor start sidecar ends p).0.sidecar ≡ some level)
  unfolding commit_pass
  commit_pass-level j actor start sidecar level ends p t e =
      rw (commit_pass, t, e)
        (
          (checkpoint-kept (after (bring_level Api lt start sidecar p ends.disk).0) ends.now
              ends.checkpointed).0,
          (checkpoint-kept (after (bring_level Api lt start sidecar p ends.disk).0) ends.now
                ends.checkpointed).1
              ∙ ap (λ (x : Sidecar × Result Unit LineError). some x.0) e,
        )
    where
      after : Sidecar → J
      after level = record j {
        rows = p.rows_after;
        audit = audited Api lt actor p j.audit;
        sidecar = some level;
      }

  -- A backfill holds the rows that the pass has not seen in the sidecar, and no others.
  backfill-has_id :
      (rows : List (StoredRawRead Api.Instant)) (reads : List (SidecarRead Api.Instant))
      (q : Passing Api.Instant) (id : ℕ)
      → IsNumbered rows
      → Passes Api lt (row_ids rows) (pass_begin Api lt (insert_one Api lt) rows) reads q
      → has_id (found_ids (backfill_of Api lt (insert_one Api lt) beginning (row_ids rows) q)) id
        ≡ (has_id (row_ids q.rows) id && not (has_id (found_ids reads) id))
  unfolding backfill_of has_id
  backfill-has_id rows reads q id n h =
      let ids : has_id (row_ids q.rows) id
          ≡ (has_id (row_ids rows) id || has_id (found_ids reads) id) =
        ap (λ (x : List (StoredRawRead Api.Instant)). has_id (row_ids x) id) h.rows
        ∙ has_id-union_rows Api lt rows reads id in
      let numbered : IsNumbered q.rows =
        subst IsNumbered (sym h.rows) (union_rows-IsNumbered Api lt rows reads n) in
      elim (Bool-cases (all_seen (row_ids rows) q.seen)) [
        | inl e ↦
            rw (backfill_of, e)
              (ground (arith, ids, h.seen id, all_seen_lem (row_ids rows) q.seen e id))
        | inr e ↦
            rw (backfill_of, e)
              (ground (arith, h.seen id, missing_from-has_id q.rows q.seen id numbered))
      ]

  bring_level-has_id :
      (start : Start Api.Instant) (sidecar : Sidecar) (p : Pass Api.Instant) (disk : Disk)
      (backfill : List (SidecarRead Api.Instant))
      → p.backfill ≡ backfill
      → disk ≡ synced
      → All (IsFoundWritable Api lt) backfill
      → IsHarmless Api lt (split_lines sidecar.file).1
      → (level : Sidecar) × (bring_level Api lt start sidecar p disk ≡ (level, ok tt))
        × ((id : ℕ)
            → has_id (found_ids (recovered Api level.file)) id ≡ (
                has_id (found_ids (recovered Api sidecar.file)) id
                || has_id (found_ids backfill) id))
  unfolding bring_level has_id
  bring_level-has_id start sidecar p disk [] e d w h = (
    record sidecar { tip = tip_after Api lt start p.last_verified sidecar.tip },
    rw (bring_level, e),
    λ id. ground arith,
  )
  bring_level-has_id start sidecar p disk (found ∷ rest) e d (w, ws) h =
      let x : RawRead Api.Instant × Api.Instant = (found.read, found.recorded_at) in
      let (result, reads, ends) =
        append_records-recovered Api sidecar x (recorded_pairs Api lt rest)
          (w, recorded_pairs-All Api lt rest ws) (h x) in
      let after = append_records Api sidecar (x ∷ recorded_pairs Api lt rest) synced in
      let ids : found_ids (recovered Api after.0.file)
          ≡ found_ids (recovered Api sidecar.file) ++ found_ids (found ∷ rest) =
        ap found_ids reads
        ∙ found_ids-append (recovered Api sidecar.file)
            (map (kept Api) (recorded_pairs Api lt (found ∷ rest)))
        ∙ ap (λ (more : List ℕ). found_ids (recovered Api sidecar.file) ++ more)
            (found_ids-kept Api lt (found ∷ rest)) in
      (
        after.0,
        rw (bring_level, e, d) (ap (λ (r : Result Unit LineError). (after.0, r)) result),
        λ id.
            ap (λ (xs : List ℕ). has_id xs id) ids
            ∙ has_id-append (found_ids (recovered Api sidecar.file)) (found_ids (found ∷ rest)) id,
      )

  backfill-All :
      (start : Start Api.Instant) (stored : List ℕ) (q : Passing Api.Instant)
      → All (IsRowWritable Api lt) q.rows
      → All (IsFoundWritable Api lt) (backfill_of Api lt (insert_one Api lt) start stored q)
  unfolding backfill_of
  backfill-All (resumed c) stored q w = missing_from-All Api lt q.rows c.through_seq q.seen w
  backfill-All beginning stored q w = elim (Bool-cases (all_seen stored q.seen)) [
    | inl e ↦ rw (backfill_of, e) tt
    | inr e ↦ rw (backfill_of, e) (missing_from-All Api lt q.rows 0 q.seen w)
  ]

  both_ways :
      (before found held after backfill level : Bool)
      → after ≡ held
      → held ≡ (before || found)
      → level ≡ (found || backfill)
      → backfill ≡ (held && not found)
      → after ≡ level
  both_ways before found held after backfill level p q r s = ground arith

  pub repair-commit_pass :
      (j : J) (actor : List ℕ) (start : Start Api.Instant) (sidecar : Sidecar) (ends : Ends Api lt)
      (p : Pass Api.Instant)
      → j.sidecar ≡ some sidecar
      → pass Api lt (insert_one Api lt) j.rows sidecar start ≡ done (ok p)
      → repair Api lt j actor start ends ≡ done (commit_pass Api lt j actor start sidecar ends p)
  unfolding repair repair_with
  repair-commit_pass j actor start sidecar ends p s h =
      ap (λ (o : Option Sidecar). repair_with Api lt o j actor start ends) s ∙ rw (repair_with, h)

  -- A reconciliation whose statements the database takes and whose write to the sidecar is synced
  -- ends. Then the rows are the union of the rows and the sidecar's reads, in which each read that
  -- the rows lacked is a new row, once, in the order of the file, and the database and the sidecar
  -- hold reads of the same ids. The conditions are that the rows are numbered, that each row and each
  -- of the sidecar's reads is one that the sidecar can write, and that an interrupted write at the end
  -- of the sidecar hides no line behind it. Whether the checkpoint at the end is taken is open.
  pub reconcile-Agrees :
      (j : J) (sidecar : Sidecar) (actor : List ℕ) (ends : Ends Api lt)
      → j.sidecar ≡ some sidecar
      → ends.transaction ≡ true
      → ends.disk ≡ synced
      → IsNumbered j.rows
      → All (IsRowWritable Api lt) j.rows
      → All (IsFoundWritable Api lt) (recovered Api sidecar.file)
      → IsHarmless Api lt (split_lines sidecar.file).1
      → (after : J) × (result : Result RecoveryReport StoreError) × (level : Sidecar) × (reconcile
            Api lt j actor ends
          ≡ done (after, result))
        × (after.rows ≡ union_rows Api lt j.rows (recovered Api sidecar.file))
        × (after.sidecar ≡ some level)
        × Agrees after.rows level.file
  unfolding reconcile
  reconcile-Agrees j sidecar actor ends s t d n w ws h =
      let reads = recovered Api sidecar.file in
      let (q, passed, passes) =
        pass-union_rows Api lt beginning j.rows sidecar (All-IsReplayable Api lt reads ws) in
      let p =
        pass_end Api lt (insert_one Api lt) beginning (row_ids j.rows)
          (tally_bytes Api 0 no_tally sidecar.file, q) in
      let writable : All (IsRowWritable Api lt) q.rows =
        subst (All (IsRowWritable Api lt)) (sym passes.rows)
          (union_rows-All Api lt j.rows reads w ws) in
      let (level, brought, ids) =
        bring_level-has_id beginning sidecar p ends.disk p.backfill refl d
          (backfill-All beginning (row_ids j.rows) q writable) h in
      let after = commit_pass Api lt j actor beginning sidecar ends p in
      let (rows, sidecars) = commit_pass-level j actor beginning sidecar level ends p t brought in
      (
        after.0,
        after.1,
        level,
        repair-commit_pass j actor beginning sidecar ends p s passed,
        rows ∙ passes.rows,
        sidecars,
        λ id.
            let same = ap (λ (x : List (StoredRawRead Api.Instant)). has_id (row_ids x) id) rows in
            let held =
              ap (λ (x : List (StoredRawRead Api.Instant)). has_id (row_ids x) id) passes.rows
              ∙ has_id-union_rows Api lt j.rows reads id in
            both_ways (has_id (row_ids j.rows) id) _ _ _ _ _ same held (ids id)
              (backfill-has_id j.rows reads q id n passes),
      )
