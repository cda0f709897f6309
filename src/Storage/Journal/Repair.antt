-- ===== src/Storage/Journal/Repair.antt =====
-- crates/splitforge-storage/src/journal.rs, `checkpoint`, `usable_checkpoint`, `repair` and what calls
-- them.
use splitforge.Prelude.{
  ℕ, Bool, true, false, not, ◌&&◌, List, [], ◌∷◌, Option, none, some, leb, ltb, ◌==◌, if◌then◌else◌,
  Result, ok, err, length, Run, done, ◌>>=◌,
}
use splitforge.Prelude.Fallible.{try_then}
use splitforge.Prelude.Text.{◌=ₜ◌}
use splitforge.Domain.Time.{i64_max}
use splitforge.Domain.Event.{RawRead}
use splitforge.Storage.Record.{LineError, SidecarRead, SidecarApi, fits_micros}
use splitforge.Storage.Sidecar.{Sidecar, Tip, Disk, append_records, ends_with_line}
use splitforge.Storage.Journal.{
  StoreError, of_line, decode_failed, out_of_range, database_refused, no_status, RecoveryReport,
  SidecarCheckpoint, Start, beginning, resumed, start_byte, ReplayAudit, SqliteJournal, Pass,
  max_seq, latest_checkpoint, insert_one,
}
use splitforge.Storage.Journal.Compare.{pass}

module _ (Api : SidecarApi) (lt : Api.Instant → Api.Instant → Bool) where
  abbrev is_latest_at : Option (SidecarCheckpoint Api.Instant) → Tip → Bool
  is_latest_at none tip = false
  is_latest_at (some latest) tip =
      latest.sidecar_bytes == tip.end && latest.last_line_sha256 =ₜ tip.digest

  abbrev tip_of : Option Sidecar → Option Tip
  tip_of none = none
  tip_of (some sidecar) = sidecar.tip

  -- `checkpoint`, at the last line that this handle wrote or that recovery verified
  unfoldable pub checkpoint_at :
      Option Tip
      → SqliteJournal Api.Instant
      → Api.Instant
      → Bool
      → SqliteJournal Api.Instant × Result Bool StoreError
  checkpoint_at none j now accepted = (j, ok false)
  checkpoint_at (some tip) j now accepted =
      let recorded = record j {
        checkpoints =
            record {
              sidecar_bytes = tip.end;
              last_line_sha256 = tip.digest;
              through_seq = max_seq j.rows;
              recorded_at = Api.micros now;
            }
            ∷ j.checkpoints;
      } in
      if is_latest_at (latest_checkpoint j.checkpoints) tip
      then (j, ok false)
      else if not (leb tip.end i64_max && leb (max_seq j.rows) i64_max)
      then (j, err decode_failed)
      else if not (fits_micros Api now)
      then (j, err out_of_range)
      else if accepted
      then (recorded, ok true)
      else (j, err database_refused)

  unfoldable pub checkpoint :
      SqliteJournal Api.Instant
      → Api.Instant
      → Bool
      → SqliteJournal Api.Instant × Result Bool StoreError
  checkpoint j now accepted =
      let recorded = checkpoint_at (tip_of j.sidecar) j now accepted in
      if j.unconfirmed then (j, ok false) else recorded

  unfoldable pub usable_checkpoint :
      SqliteJournal Api.Instant → Option (SidecarCheckpoint Api.Instant)
  usable_checkpoint j = elim j.sidecar [
    | none ↦ none
    | some sidecar ↦ elim (latest_checkpoint j.checkpoints) [
      | none ↦ none
      | some c ↦
          if ltb (max_seq j.rows) c.through_seq
          then none
          else if ends_with_line sidecar
              (record { end = c.sidecar_bytes; digest = c.last_line_sha256 })
          then some c
          else none
    ]
  ]

  -- How what an operation asks for ends: the transaction, the write to the sidecar, and the
  -- checkpoint at the end, which is stamped `now`
  pub record Ends : Type 0 where
    pub transaction : Bool
    pub disk : Disk
    pub checkpointed : Bool
    pub now : Api.Instant

  abbrev pub recorded_pairs :
      List (SidecarRead Api.Instant) → List (RawRead Api.Instant × Api.Instant)
  recorded_pairs [] = []
  recorded_pairs (found ∷ rest) = (found.read, found.recorded_at) ∷ recorded_pairs rest

  -- The tip that a pass leaves, where a checkpoint can be taken
  abbrev pub tip_after : Start Api.Instant → Option Tip → Option Tip → Option Tip
  tip_after start (some verified) before = some verified
  tip_after beginning none before = before
  tip_after (resumed checkpoint) none before =
      some (record { end = checkpoint.sidecar_bytes; digest = checkpoint.last_line_sha256 })

  -- `set_tip`, or the backfill
  unfoldable pub bring_level :
      Start Api.Instant → Sidecar → Pass Api.Instant → Disk → Sidecar × Result (Unit {0}) LineError
  bring_level start sidecar p disk = elim p.backfill [
    | [] ↦ (record sidecar { tip = tip_after start p.last_verified sidecar.tip }, ok tt)
    | found ∷ rest ↦ append_records Api sidecar (recorded_pairs (found ∷ rest)) disk
  ]

  abbrev pub audited :
      List ℕ → Pass Api.Instant → List (ReplayAudit Api.Instant) → List (ReplayAudit Api.Instant)
  audited actor p audit =
      if ltb 0 p.replayed.count
      then record { actor = actor; replayed = p.replayed; found = p.status } ∷ audit
      else audit

  abbrev report_of : Start Api.Instant → Pass Api.Instant → RecoveryReport
  report_of start p = record {
    found = p.status;
    replayed_into_database = p.replayed.count;
    backfilled_into_sidecar = length p.backfill;
    scanned_from_byte = start_byte start;
  }

  abbrev and_checkpoint :
      SqliteJournal Api.Instant
      → RecoveryReport
      → Ends
      → SqliteJournal Api.Instant × Result RecoveryReport StoreError
  and_checkpoint j report ends =
      let (after, recorded) = checkpoint j ends.now ends.checkpointed in
      (after, try_then recorded λ b. ok report)

  -- `repair`, of what the pass found
  unfoldable pub commit_pass :
      SqliteJournal Api.Instant
      → List ℕ
      → Start Api.Instant
      → Sidecar
      → Ends
      → Pass Api.Instant
      → SqliteJournal Api.Instant × Result RecoveryReport StoreError
  commit_pass j actor start sidecar ends p =
      let committed = record j { rows = p.rows_after; audit = audited actor p j.audit } in
      let (level, appended) = bring_level start sidecar p ends.disk in
      let after = record committed { sidecar = some level } in
      if not ends.transaction then (j, err database_refused) else elim appended [
        | err e ↦ (after, err (of_line e))
        | ok u ↦ and_checkpoint after (report_of start p) ends
      ]

  unfoldable pub repair_with :
      Option Sidecar
      → SqliteJournal Api.Instant
      → List ℕ
      → Start Api.Instant
      → Ends
      → Run (SqliteJournal Api.Instant × Result RecoveryReport StoreError)
  repair_with none j actor start ends = done (
    j,
    ok (record {
      found = no_status;
      replayed_into_database = 0;
      backfilled_into_sidecar = 0;
      scanned_from_byte = 0;
    }),
  )
  repair_with (some sidecar) j actor start ends = do
    found ← pass Api lt (insert_one Api lt) j.rows sidecar start
    elim found [ err e ↦ done (j, err e) | ok p ↦ done (commit_pass j actor start sidecar ends p) ]

  unfoldable pub repair :
      SqliteJournal Api.Instant
      → List ℕ
      → Start Api.Instant
      → Ends
      → Run (SqliteJournal Api.Instant × Result RecoveryReport StoreError)
  repair j actor start ends = repair_with j.sidecar j actor start ends

  unfoldable pub reconcile :
      SqliteJournal Api.Instant
      → List ℕ
      → Ends
      → Run (SqliteJournal Api.Instant × Result RecoveryReport StoreError)
  reconcile j actor ends = repair j actor beginning ends

  -- The start of `open_recovering`
  unfoldable pub recover :
      SqliteJournal Api.Instant
      → List ℕ
      → Ends
      → Run (SqliteJournal Api.Instant × Result RecoveryReport StoreError)
  recover j actor ends = elim (usable_checkpoint j) [
    | none ↦ repair j actor beginning ends
    | some c ↦ repair j actor (resumed c) ends
  ]
