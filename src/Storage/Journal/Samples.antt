-- ===== src/Storage/Journal/Samples.antt =====
-- Examples for the journal: a row that the sidecar lacks, lines that the database lacks, and a batch
-- that is lost half way.
use splitforge.Prelude.{
  ℕ, ◌≡◌, refl, ap, sym, ◌∙◌, subst, true, false, ◌||◌, List, [], ◌∷◌, ◌++◌, some, none, ok, err,
  Result, map, done, arith, All, length, take, take-append, length-append, ◌≤◌,
}
use splitforge.Prelude.Int.{ℤ, pos, ltb_ℤ}
use splitforge.Domain.Event.{StoredRawRead}
use splitforge.Storage.Record.{
  record_of, to_micros, source_texts, hex_lower, clock_state_to_str, fallback_to_str, SidecarRead,
  storable,
}
use splitforge.Storage.Sidecar.{Sidecar, Tip, append_records, encode_lines, encode_line, synced}
use splitforge.Storage.Sidecar.Lines.{split_lines, recovered}
use splitforge.Storage.Sidecar.Append.{kept, recovered-append}
use splitforge.Storage.Plain.{plain_api}
use splitforge.Storage.Samples.{lap_read, two, of_two, of_two-recovered}
use splitforge.Storage.Journal.{
  SqliteJournal, SidecarStatus, RecoveryReport, StoreError, beginning, resumed, SidecarCheckpoint,
  Pass, has_id, row_ids, row_of, insert_one, latest_checkpoint, max_seq,
}
use splitforge.Storage.Journal.Compare.{pass, survey}
use splitforge.Storage.Journal.Repair.{checkpoint_at, Ends, reconcile}
use splitforge.Storage.Journal.Insert.{check_storable, insert_all}
use splitforge.Storage.Journal.Union.{found_ids, IsReplayable, union_rows}
use splitforge.Storage.Journal.Writable.{IsFoundWritable, IsHarmless}
use splitforge.Storage.Journal.Reconcile.{Agrees, reconcile-Agrees}
use splitforge.Storage.Journal.Again.{reconcile_again}
use splitforge.Storage.Journal.Ahead.{Leaves, insert_all-Leaves}
use splitforge.Storage.Journal.Batch.{read_ids}
use splitforge.Storage.Journal.Lost.{insert_one-kept, insert_all-reconcile}
use splitforge.Storage.Journal.Resume.{Holds, pass-resumed}
use splitforge.Storage.Journal.Claims.{checkpoint_at-Holds, insert_all-Holds}

-- The row of the first read, which the sidecar lacks
abbrev first_row : StoredRawRead ℤ
first_row = row_of plain_api ltb_ℤ [] (lap_read 1) (pos 1_000)

abbrev journal : SqliteJournal ℤ
journal = record {
  rows = first_row ∷ [];
  checkpoints = [];
  audit = [];
  sidecar = some of_two;
  unconfirmed = false;
}

abbrev well : Ends plain_api ltb_ℤ
well = record { transaction = true; disk = synced; checkpointed = true; now = pos 9_000 }

abbrev refused : Ends plain_api ltb_ℤ
refused = record { transaction = false; disk = synced; checkpointed = true; now = pos 9_000 }

two_writable : All (IsFoundWritable plain_api ltb_ℤ) (recovered plain_api of_two.file)
unfolding storable
two_writable = subst (All (IsFoundWritable plain_api ltb_ℤ)) (sym of_two-recovered.0) (
  (refl, refl, (omega arith, (omega arith, tt))),
  ((refl, refl, (omega arith, (omega arith, tt))), tt),
)

two-IsHarmless : IsHarmless plain_api ltb_ℤ (split_lines of_two.file).1
two-IsHarmless = subst (IsHarmless plain_api ltb_ℤ) (sym of_two-recovered.1) (λ x line digest e. tt)

reconcile-Agrees_example :
    (after : SqliteJournal ℤ) × (result : Result RecoveryReport StoreError) × (level : Sidecar)
    × (reconcile plain_api ltb_ℤ journal (65 ∷ []) well ≡ done (after, result))
    × (after.rows ≡ union_rows plain_api ltb_ℤ journal.rows (recovered plain_api of_two.file))
    × (after.sidecar ≡ some level)
    × Agrees plain_api ltb_ℤ after.rows level.file
unfolding storable max_seq
reconcile-Agrees_example =
    reconcile-Agrees plain_api ltb_ℤ journal of_two (65 ∷ []) well refl refl refl (refl, tt)
      ((refl, refl, (omega arith, (omega arith, tt))), tt) two_writable two-IsHarmless

insert_all-Leaves_example :
    Leaves plain_api ltb_ℤ
      (record journal { rows = [] })
      (lap_read 4 ∷ [])
      (insert_all plain_api ltb_ℤ (record journal { rows = [] }) (lap_read 4 ∷ []) true well)
unfolding has_id
insert_all-Leaves_example =
    insert_all-Leaves plain_api ltb_ℤ (record journal { rows = [] }) of_two (lap_read 4 ∷ []) true
      well refl (λ id h. absurd cc) refl ((omega arith, (omega arith, tt)), tt) two-IsHarmless

insert_all-reconcile_example :
    (e : StoreError) × (failed after : SqliteJournal ℤ) × (result : Result RecoveryReport
      StoreError)
    × (insert_all plain_api ltb_ℤ journal (lap_read 4 ∷ []) true refused ≡ (failed, err e))
    × (failed.rows ≡ journal.rows)
    × (reconcile plain_api ltb_ℤ failed (65 ∷ []) well ≡ done (after, result))
    × ((id : ℕ)
        → has_id (row_ids after.rows) id ≡ (
            has_id (row_ids journal.rows) id
            || (has_id (found_ids (recovered plain_api of_two.file)) id
                || has_id (read_ids plain_api ltb_ℤ (lap_read 4 ∷ [])) id)))
unfolding storable max_seq check_storable
insert_all-reconcile_example =
    insert_all-reconcile plain_api ltb_ℤ journal of_two (lap_read 4) [] true refused well (65 ∷ [])
      refl refl refl refl refl refl refl ((omega arith, (omega arith, tt)), tt) (refl, tt)
      ((refl, refl, (omega arith, (omega arith, tt))), tt) two_writable two-IsHarmless

insert_one-kept_example :
    insert_one plain_api ltb_ℤ (first_row ∷ []) (kept plain_api (lap_read 5, pos 4_321))
    ≡ insert_one plain_api ltb_ℤ
        (first_row ∷ [])
        (record { read = lap_read 5; recorded_at = pos 4_321 })
insert_one-kept_example = insert_one-kept plain_api ltb_ℤ (first_row ∷ []) (lap_read 5) (pos 4_321)

-- The rows of the two reads that the sidecar has
abbrev rows_of_two : List (StoredRawRead ℤ)
rows_of_two =
    let rows = row_of plain_api ltb_ℤ [] (lap_read 2) (pos 4_000) ∷ [] in
    row_of plain_api ltb_ℤ rows (lap_read 3) (pos 4_000) ∷ rows

abbrev level_journal : SqliteJournal ℤ
level_journal = record journal { rows = rows_of_two }

level-Agrees : Agrees plain_api ltb_ℤ rows_of_two of_two.file
unfolding has_id
level-Agrees id =
    let found = ap (λ (x : List (SidecarRead ℤ)). has_id (found_ids x) id) of_two-recovered.0 in
    ground (arith, found)

reconcile_again_example :
    (status : SidecarStatus) × (after : SqliteJournal ℤ) × (result : Result RecoveryReport
      StoreError)
    × (level : Sidecar) × (survey plain_api ltb_ℤ level_journal ≡ done (ok status))
    × (status.missing_from_database ≡ 0)
    × (status.missing_from_sidecar ≡ 0)
    × (reconcile plain_api ltb_ℤ level_journal (65 ∷ []) well ≡ done (after, result))
    × (after.rows ≡ rows_of_two)
    × (after.sidecar ≡ some level)
    × (level.file ≡ of_two.file)
reconcile_again_example =
    reconcile_again plain_api ltb_ℤ level_journal of_two (65 ∷ []) well refl refl level-Agrees

-- The same two lines twice, and a checkpoint between: a row came after it that the sidecar lacks.
abbrev twice : Sidecar
twice = record { file = of_two.file ++ of_two.file; tip = none }

abbrev between : SidecarCheckpoint ℤ
between = record {
  sidecar_bytes = length of_two.file;
  last_line_sha256 = [];
  through_seq = 2;
  recorded_at = pos 5_000;
}

abbrev three_rows : List (StoredRawRead ℤ)
three_rows = row_of plain_api ltb_ℤ rows_of_two (lap_read 1) (pos 6_000) ∷ rows_of_two

before_checkpoint : take between.sidecar_bytes twice.file ≡ of_two.file
before_checkpoint = take-append of_two.file of_two.file

between-Holds : Holds plain_api ltb_ℤ between three_rows twice.file
unfolding has_id max_seq
between-Holds =
    let before = ap (recovered plain_api) before_checkpoint ∙ of_two-recovered.0 in
    let ids : (id : ℕ)
        → has_id (found_ids (recovered plain_api (take between.sidecar_bytes twice.file))) id
          ≡ has_id (2 ∷ 3 ∷ []) id =
      λ id. ap (λ (x : List (SidecarRead ℤ)). has_id (found_ids x) id) before in
    record {
      at_line = ap (λ (x : List ℕ). (split_lines x).1) before_checkpoint ∙ of_two-recovered.1;
      stored = λ id h. ground (arith, ids id);
      through = (ids 1, (ids 3, (ids 2, tt)));
    }

twice-recovered :
    recovered plain_api twice.file ≡ map (kept plain_api) two ++ map (kept plain_api) two
twice-recovered =
    recovered-append plain_api of_two.file of_two.file
    ∙ ap (λ (x : List ℕ). recovered plain_api of_two.file ++ recovered plain_api (x ++ of_two.file))
        of_two-recovered.1
    ∙ ap (λ (x : List (SidecarRead ℤ)). x ++ x) of_two-recovered.0

pass-resumed_example :
    (whole rest : Pass ℤ) × (pass plain_api ltb_ℤ
        (insert_one plain_api ltb_ℤ)
        three_rows
        twice
        beginning
      ≡ done (ok whole))
    × (pass plain_api ltb_ℤ (insert_one plain_api ltb_ℤ) three_rows twice (resumed between)
        ≡ done (ok rest))
    × (rest.rows_after ≡ whole.rows_after)
    × (rest.replayed.count ≡ whole.replayed.count)
    × (rest.backfill ≡ whole.backfill)
unfolding storable max_seq
pass-resumed_example =
    pass-resumed plain_api ltb_ℤ between three_rows twice between-Holds (refl, (refl, (refl, tt)))
      (subst (All (IsReplayable plain_api ltb_ℤ)) (sym twice-recovered)
        ((refl, refl), ((refl, refl), ((refl, refl), ((refl, refl), tt)))))

abbrev twice_journal : SqliteJournal ℤ
twice_journal = record journal { rows = three_rows; sidecar = some twice }

insert_all-Holds_example :
    (let after = (insert_all plain_api ltb_ℤ twice_journal (lap_read 4 ∷ []) false well).0 in
      (written : Sidecar) × (after.sidecar ≡ some written)
      × Holds plain_api ltb_ℤ between after.rows written.file
      × (between.sidecar_bytes ≤ length written.file)
      × (between.through_seq ≤ max_seq after.rows))
unfolding max_seq
insert_all-Holds_example =
    insert_all-Holds plain_api ltb_ℤ between twice_journal twice (lap_read 4 ∷ []) false well refl
      between-Holds (omega (arith, length-append of_two.file of_two.file)) (omega arith)

abbrev end_tip : Tip
end_tip = record { end = length of_two.file; digest = [] }

checkpoint_at-Holds_example :
    (c : SidecarCheckpoint ℤ) × (latest_checkpoint
        (checkpoint_at plain_api ltb_ℤ (some end_tip) level_journal (pos 9_000) true).0.checkpoints
      ≡ some c)
    × Holds plain_api ltb_ℤ c rows_of_two of_two.file
unfolding max_seq checkpoint_at latest_checkpoint append_records encode_lines encode_line record_of
    to_micros source_texts hex_lower clock_state_to_str fallback_to_str
checkpoint_at-Holds_example =
    checkpoint_at-Holds plain_api ltb_ℤ end_tip level_journal (pos 9_000) true of_two.file refl
      of_two-recovered.1 (refl, (refl, tt)) level-Agrees refl
