-- ===== src/Storage/Journal/Again.antt =====
-- A second pass over a database and a sidecar that agree finds nothing to do.
use splitforge.Prelude.{
  ℕ, ◌≡◌, refl, ap, ◌∙◌, Bool, true, ◌||◌, List, [], ◌∷◌, some, ok, arith, done, Result,
}
use splitforge.Domain.Event.{StoredRawRead}
use splitforge.Storage.Record.{SidecarRead, SidecarApi}
use splitforge.Storage.Sidecar.{Sidecar, no_tally, hand_over}
use splitforge.Storage.Sidecar.Lines.{recovered, tally_bytes, scan_from-recovered}
use splitforge.Storage.Journal.{
  StoreError, beginning, Passing, Pass, RecoveryReport, SqliteJournal, SidecarStatus, Replayed,
  has_id, row_ids, all_seen, insert_one, count_only, no_replayed,
}
use splitforge.Storage.Journal.Compare.{pass, pass_read, pass_begin, pass_end, backfill_of, survey}
use splitforge.Storage.Journal.Repair.{Ends, reconcile, commit_pass, bring_level, tip_after}
use splitforge.Storage.Journal.Union.{found_ids}
use splitforge.Storage.Journal.Reconcile.{Agrees, repair-commit_pass, commit_pass-level}

all_seen_intro :
    (ids seen : List ℕ)
    → ((id : ℕ) → has_id ids id ≡ true → has_id seen id ≡ true)
    → all_seen ids seen ≡ true
unfolding all_seen has_id
all_seen_intro [] seen h = refl
all_seen_intro (i ∷ ids) seen h =
    let here : has_id seen i ≡ true = h i (ground arith) in
    let rest = all_seen_intro ids seen (λ id k. h id (ground arith)) in ground arith

module _ (Api : SidecarApi) (lt : Api.Instant → Api.Instant → Bool) where
  abbrev Replay : Type 0
  Replay =
      List (StoredRawRead Api.Instant)
      → SidecarRead Api.Instant
      → Result (List (StoredRawRead Api.Instant)) StoreError

  -- Reads that are stored are only seen.
  hand_over-stored :
      (replay : Replay) (stored : List ℕ) (reads : List (SidecarRead Api.Instant))
      (p : Passing Api.Instant)
      → ((id : ℕ) → has_id (found_ids reads) id ≡ true → has_id stored id ≡ true)
      → (q : Passing Api.Instant) × (hand_over Api
            (pass_read Api lt replay beginning stored)
            p
            reads
          ≡ ok q)
        × (q.rows ≡ p.rows)
        × (q.replayed ≡ p.replayed)
        × ((id : ℕ) → has_id q.seen id ≡ (has_id p.seen id || has_id (found_ids reads) id))
  unfolding pass_read has_id
  hand_over-stored replay stored [] p h = (p, refl, refl, refl, λ id. ground arith)
  hand_over-stored replay stored (found ∷ reads) p h =
      let here : has_id stored found.read.id ≡ true = h found.read.id (ground arith) in
      let (q, e, rows, replayed, seen) =
        hand_over-stored replay stored reads (record p { seen = found.read.id ∷ p.seen })
          (λ id k. h id (ground arith)) in
      (q, rw (pass_read, here) e, rows, replayed, λ id. ground (arith, seen id))

  -- What such a pass ends with
  record IsIdle (rows : List (StoredRawRead Api.Instant)) (p : Pass Api.Instant) : Type 0 where
    same_rows : p.rows_after ≡ rows
    none_replayed : p.replayed ≡ no_replayed
    none_missing : p.status.missing_from_database ≡ 0
    none_left : p.backfill ≡ []
    none_lacking : p.status.missing_from_sidecar ≡ 0

  pass-IsIdle :
      (replay : Replay) (rows : List (StoredRawRead Api.Instant)) (sidecar : Sidecar)
      → Agrees Api lt rows sidecar.file
      → (p : Pass Api.Instant) × (pass Api lt replay rows sidecar beginning ≡ done (ok p))
        × IsIdle rows p
  unfolding pass backfill_of has_id
  pass-IsIdle replay rows sidecar g =
      let reads = recovered Api sidecar.file in
      let (q, e, same, replayed, seen) =
        hand_over-stored replay (row_ids rows) reads (pass_begin Api lt replay rows)
          (λ id k. ground (arith, g id)) in
      let whole : all_seen (row_ids rows) q.seen ≡ true =
        all_seen_intro (row_ids rows) q.seen (λ id k. ground (arith, g id, seen id)) in
      let p =
        pass_end Api lt replay beginning (row_ids rows)
          (tally_bytes Api 0 no_tally sidecar.file, q) in
      (
        p,
        rw (
          scan_from-recovered Api (pass_read Api lt replay beginning (row_ids rows)) sidecar 0
              (pass_begin Api lt replay rows),
          e,
        ),
        record {
          same_rows = same;
          none_replayed = replayed;
          none_missing = ap (λ (r : Replayed Api.Instant). r.count) replayed;
          none_left = rw (backfill_of, whole);
          none_lacking = rw (backfill_of, whole);
        },
      )

  -- Where the database and the sidecar hold reads of the same ids, a survey ends and finds none missing
  -- from either, and a reconciliation whose transaction is taken ends and changes neither the rows
  -- nor the sidecar's file.
  pub reconcile_again :
      (j : SqliteJournal Api.Instant) (sidecar : Sidecar) (actor : List ℕ) (ends : Ends Api lt)
      → j.sidecar ≡ some sidecar
      → ends.transaction ≡ true
      → Agrees Api lt j.rows sidecar.file
      → (status : SidecarStatus) × (after : SqliteJournal Api.Instant) × (result : Result
          RecoveryReport StoreError)
        × (level : Sidecar) × (survey Api lt j ≡ done (ok status))
        × (status.missing_from_database ≡ 0)
        × (status.missing_from_sidecar ≡ 0)
        × (reconcile Api lt j actor ends ≡ done (after, result))
        × (after.rows ≡ j.rows)
        × (after.sidecar ≡ some level)
        × (level.file ≡ sidecar.file)
  unfolding survey reconcile bring_level
  reconcile_again j sidecar actor ends s t g =
      let (found, surveyed, idle) = pass-IsIdle (count_only Api lt) j.rows sidecar g in
      let (p, passed, still) = pass-IsIdle (insert_one Api lt) j.rows sidecar g in
      let level = record sidecar { tip = tip_after Api lt beginning p.last_verified sidecar.tip } in
      let brought : bring_level Api lt beginning sidecar p ends.disk ≡ (level, ok tt) =
        rw (bring_level, still.none_left) in
      let after = commit_pass Api lt j actor beginning sidecar ends p in
      let (rows, sidecars) =
        commit_pass-level Api lt j actor beginning sidecar level ends p t brought in
      (
        found.status,
        after.0,
        after.1,
        level,
        rw (survey, s, surveyed),
        idle.none_missing,
        idle.none_lacking,
        repair-commit_pass Api lt j actor beginning sidecar ends p s passed,
        rows ∙ still.same_rows,
        sidecars,
        refl,
      )
