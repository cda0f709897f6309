-- ===== src/Storage/Gaps/Samples.antt =====
-- Gaps in the journal of crates/splitforge-storage/src/journal.rs, and their theorems at these rows.
use splitforge.Prelude.{ℕ, true, List, [], ◌∷◌, none, some, ◌≡◌, refl}
use splitforge.Prelude.Text.{codes, ◌=ₜ◌}
use splitforge.Domain.Gap.{opened_edge, closed_edge, confirmed, suspected}
use splitforge.Storage.Gaps.{
  GapRow, open_row_for, first_open, is_closed, next_seq, open_reader_gap, close_reader_gap,
}
use splitforge.Storage.Gaps.Pairs.{IsPaired, open_reader_gap-IsPaired, close_reader_gap-IsPaired}

abbrev row : ℕ → List ℕ → GapRow ℕ
row seq reader_id = record {
  seq = seq;
  reader_id = reader_id;
  edge = opened_edge;
  detection = suspected;
  observed_at = 100;
  monotonic_ms = 100;
  closes_seq = none;
  detail = none;
}

-- The mat is back, the spare is gone.
abbrev pub rows : List (GapRow ℕ)
rows =
    row 3 (codes "spare")
    ∷ record (row 2 (codes "mat")) { edge = closed_edge; closes_seq = some 1 }
    ∷ row 1 (codes "mat")
    ∷ []

pub rows-IsPaired : IsPaired rows
unfolding open_row_for first_open is_closed next_seq ◌=ₜ◌
rows-IsPaired =
    (refl, (refl, refl), (refl, (row 1 (codes "mat"), refl, refl), (refl, (refl, refl), tt)))

open_reader_gap-IsPaired_example :
    (let after = (open_reader_gap (λ at. at) rows (codes "spare") confirmed 200 200 none true).0 in
      IsPaired after
      × (true ≡ true → open_row_for after (codes "spare") ≡ some (row 3 (codes "spare"))))
unfolding open_row_for first_open is_closed ◌=ₜ◌
open_reader_gap-IsPaired_example =
    open_reader_gap-IsPaired (λ at. at) rows (codes "spare") confirmed 200 200 none true
      rows-IsPaired

close_reader_gap-IsPaired_example :
    (let after = (close_reader_gap (λ at. at) rows (codes "spare") 200 200 none true).0 in
      IsPaired after × (true ≡ true → open_row_for after (codes "spare") ≡ none))
close_reader_gap-IsPaired_example =
    close_reader_gap-IsPaired (λ at. at) rows (codes "spare") 200 200 none true rows-IsPaired
