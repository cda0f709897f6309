-- ===== src/Storage/Gaps.antt =====
-- crates/splitforge-storage/src/journal.rs, `reader_gap_events`: a row for each edge of a gap. A `seq`
-- is the row id that SQLite gives, one more than the newest. An instant goes in and comes back
-- through microseconds, `micros`.
pub mod Pairs
pub mod Samples
use splitforge.Prelude.{
  ℕ, suc, Bool, true, false, not, ◌&&◌, ◌||◌, ◌==◌, List, [], ◌∷◌, Option, none, some,
  if◌then◌else◌, Result, ok, err,
}
use splitforge.Prelude.Text.{◌=ₜ◌}
use splitforge.Domain.Gap.{GapDetection, GapEdge, opened_edge, closed_edge, ReaderGap}

pub record GapRow (I : Type 0) : Type 0 where
  pub seq : ℕ
  pub reader_id : List ℕ
  pub edge : GapEdge
  pub detection : GapDetection
  pub observed_at : I
  pub monotonic_ms : ℕ
  pub closes_seq : Option ℕ
  pub detail : Option (List ℕ)

-- The database refused a statement, or an instant has no microseconds.
pub data StorageError : Type 0 where
  refused_statement : StorageError

abbrev pub is_opened : GapEdge → Bool
is_opened opened_edge = true
is_opened closed_edge = false

abbrev pub is_seq : Option ℕ → ℕ → Bool
is_seq none seq = false
is_seq (some n) seq = n == seq

module _ {I : Type 0} where
  -- Whether a row closes the row of a `seq`
  unfoldable pub is_closed : List (GapRow I) → ℕ → Bool
  is_closed [] seq = false
  is_closed (r ∷ rows) seq = is_seq r.closes_seq seq || is_closed rows seq

  abbrev pub is_candidate : List (GapRow I) → GapRow I → List ℕ → Bool
  is_candidate table r reader_id =
      is_opened r.edge && r.reader_id =ₜ reader_id && not (is_closed table r.seq)

  -- The rows of `gap_query` for a reader, without those that are closed, and the first of them
  unfoldable pub first_open : List (GapRow I) → List (GapRow I) → List ℕ → Option (GapRow I)
  first_open table [] reader_id = none
  first_open table (r ∷ rows) reader_id =
      let rest = first_open table rows reader_id in
      if is_candidate table r reader_id then some r else rest

  unfoldable pub open_row_for : List (GapRow I) → List ℕ → Option (GapRow I)
  open_row_for table reader_id = first_open table table reader_id

  unfoldable pub next_seq : List (GapRow I) → ℕ
  next_seq [] = 1
  next_seq (r ∷ rows) = suc r.seq

  abbrev pub gap_of_row : GapRow I → ReaderGap I
  gap_of_row r = record {
    opened_seq = r.seq;
    closed_seq = none;
    reader_id = r.reader_id;
    detection = r.detection;
    started_at = r.observed_at;
    ended_at = none;
    started_monotonic_ms = r.monotonic_ms;
    ended_monotonic_ms = none;
    detail = r.detail;
  }

  abbrev pub closed_by : GapRow I → GapRow I → ReaderGap I
  closed_by opened closed = record (gap_of_row opened) {
    closed_seq = some closed.seq;
    ended_at = some closed.observed_at;
    ended_monotonic_ms = some closed.monotonic_ms;
  }

  module _ (micros : I → I) where
    abbrev pub opening_row :
        List (GapRow I) → List ℕ → GapDetection → I → ℕ → Option (List ℕ) → GapRow I
    opening_row table reader_id detection observed_at monotonic_ms detail = record {
      seq = next_seq table;
      reader_id = reader_id;
      edge = opened_edge;
      detection = detection;
      observed_at = micros observed_at;
      monotonic_ms = monotonic_ms;
      closes_seq = none;
      detail = detail;
    }

    abbrev pub closing_row :
        List (GapRow I) → GapRow I → List ℕ → I → ℕ → Option (List ℕ) → GapRow I
    closing_row table opened reader_id observed_at monotonic_ms detail = record {
      seq = next_seq table;
      reader_id = reader_id;
      edge = closed_edge;
      detection = opened.detection;
      observed_at = micros observed_at;
      monotonic_ms = monotonic_ms;
      closes_seq = some opened.seq;
      detail = detail;
    }

    -- `open_reader_gap`, of the gap that is open
    unfoldable pub open_unless :
        Option (GapRow I)
        → List (GapRow I)
        → GapRow I
        → Bool
        → List (GapRow I) × Result (ReaderGap I) StorageError
    open_unless (some existing) table row accepted = (table, ok (gap_of_row existing))
    open_unless none table row false = (table, err refused_statement)
    open_unless none table row true = (row ∷ table, ok (gap_of_row row))

    unfoldable pub open_reader_gap :
        List (GapRow I)
        → List ℕ
        → GapDetection
        → I
        → ℕ
        → Option (List ℕ)
        → Bool
        → List (GapRow I) × Result (ReaderGap I) StorageError
    open_reader_gap table reader_id detection observed_at monotonic_ms detail accepted =
        open_unless (open_row_for table reader_id) table
          (opening_row table reader_id detection observed_at monotonic_ms detail) accepted

    -- `close_reader_gap`, of the gap that is open
    unfoldable pub close_found :
        Option (GapRow I)
        → List (GapRow I)
        → List ℕ
        → I
        → ℕ
        → Option (List ℕ)
        → Bool
        → List (GapRow I) × Result (Option (ReaderGap I)) StorageError
    close_found none table reader_id observed_at monotonic_ms detail accepted = (table, ok none)
    close_found (some opened) table reader_id observed_at monotonic_ms detail false =
        (table, err refused_statement)
    close_found (some opened) table reader_id observed_at monotonic_ms detail true =
        let row = closing_row table opened reader_id observed_at monotonic_ms detail in
        (row ∷ table, ok (some (closed_by opened row)))

    unfoldable pub close_reader_gap :
        List (GapRow I)
        → List ℕ
        → I
        → ℕ
        → Option (List ℕ)
        → Bool
        → List (GapRow I) × Result (Option (ReaderGap I)) StorageError
    close_reader_gap table reader_id observed_at monotonic_ms detail accepted =
        close_found (open_row_for table reader_id) table reader_id observed_at monotonic_ms detail
          accepted
