-- ===== src/Edge/Store.antt =====
-- apps/splitforge-edge/src/main.rs, `store`: a read is appended until it is stored or refused for good.
-- An attempt is how what it asks for ends, and whether a checkpoint is due. `stuck` stands for a loop
-- that is still retrying when the attempts at hand run out.
pub mod Retry
pub mod Samples
use splitforge.Prelude.{
  ℕ, suc, ◌+◌, ◌*◌, ◌^◌, ◌-◌, Bool, true, false, List, [], ◌∷◌, ◌++◌, Result, ok, err, Run, done,
  stuck, min, ltb, if◌then◌else◌,
}
use splitforge.Domain.Event.{RawRead}
use splitforge.Storage.Record.{SidecarApi, unstorable}
use splitforge.Storage.Journal.{
  StoreError, of_line, database_refused, decode_failed, out_of_range, SqliteJournal,
}
use splitforge.Storage.Journal.Repair.{Ends}
use splitforge.Storage.Journal.Insert.{insert_all}

abbrev pub retry_first_ms : ℕ
retry_first_ms = 100

abbrev pub retry_max_ms : ℕ
retry_max_ms = 5_000

pub data Stored : Type 0 where
  journaled set_aside : Stored

-- `JournalError::Unstorable`
abbrev pub is_unstorable : StoreError → Bool
is_unstorable database_refused = false
is_unstorable decode_failed = false
is_unstorable out_of_range = false
is_unstorable (of_line unstorable) = true
is_unstorable (of_line e) = false

module _ (Api : SidecarApi) (lt : Api.Instant → Api.Instant → Bool) where
  -- The journal, the reads that `record_unstorable` wrote to the audit trail, the newest first, and the
  -- fault that the status of the reader shows
  pub record Device : Type 0 where
    pub journal : SqliteJournal Api.Instant
    pub unstorable_reads : List (RawRead Api.Instant)
    pub faulty : Bool

  abbrev pub Attempt : Type 0
  Attempt = Bool × Ends Api lt

  -- `record_unstorable`, whose row the database takes or not
  abbrev put_aside : Device → RawRead Api.Instant → Bool → Device
  put_aside d read true = record d { unstorable_reads = read ∷ d.unstorable_reads }
  put_aside d read false = d

  -- `failures.saturating_add(1)`
  abbrev pub one_more_failure : ℕ → ℕ
  one_more_failure failures = min (suc failures) (2 ^ 32 - 1)

  -- The loop of `store`, with the delays that it has slept
  unfoldable pub store_loop :
      List Attempt → RawRead Api.Instant → ℕ → ℕ → List ℕ → Device → Run (Stored × List ℕ × Device)
  store_loop [] read delay failures slept d = stuck
  store_loop ((is_due, ends) ∷ later) read delay failures slept d =
      let (journal, appended) = insert_all Api lt d.journal (read ∷ []) is_due ends in
      let after = record d { journal = journal } in
      elim appended [
        | ok rows ↦
            done (
              journaled,
              slept,
              (if ltb 0 failures then record after { faulty = false } else after),
            )
        | err e ↦
            let again =
              store_loop later read (min (delay * 2) retry_max_ms) (one_more_failure failures)
                (slept ++ delay ∷ []) (record after { faulty = true }) in
            if is_unstorable e
            then done (set_aside, slept, put_aside after read ends.transaction)
            else again
      ]

  unfoldable pub store :
      List Attempt → RawRead Api.Instant → Device → Run (Stored × List ℕ × Device)
  store attempts read d = store_loop attempts read retry_first_ms 0 [] d
