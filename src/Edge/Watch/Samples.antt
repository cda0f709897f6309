-- ===== src/Edge/Watch/Samples.antt =====
-- An outage as apps/splitforge-edge/src/main.rs sees it.
use splitforge.Prelude.{ℕ, ◌-◌, true, false, List, [], ◌∷◌, none, some, ◌≡◌, refl}
use splitforge.Prelude.Text.{codes, ◌=ₜ◌}
use splitforge.Domain.Gap.{confirmed, opened_edge}
use splitforge.Storage.Gaps.{open_row_for, first_open, is_closed, next_seq, GapRow}
use splitforge.Storage.Gaps.Pairs.{IsPaired}
use splitforge.Storage.Gaps.Samples.{rows, rows-IsPaired}
use splitforge.Edge.Watch.{
  Watching, ReaderStatus, ended, Now, Settings, Happening, tick, alive, connected, disconnected,
  happen, happen_all,
}
use splitforge.Edge.Watch.Outage.{happen_all-outage}

abbrev mat : Watching
mat = record { reader = codes "mat"; race = 1 }

abbrev reading : ReaderStatus
reading = record {
  watching = some mat;
  last_message = some 100;
  transport_down = false;
  last_heard = some 100;
  heartbeat_gap = false;
}

abbrev at : ℕ → Now ℕ
at ms = record { instant = ms; wall = ms; monotonic_ms = ms; accepted = true }

abbrev settings : Settings
settings = record { heartbeat_ms = some 5_000; threshold_ms = some 120_000; running = some true }

abbrev middle : List (Settings × Happening × Now ℕ)
middle =
    (settings, tick, at 300_000) ∷ (settings, alive, at 300_001) ∷ (settings, tick, at 300_002) ∷ []

abbrev lost_rows : List (GapRow ℕ)
lost_rows = (happen (λ t. t) ◌-◌ settings (disconnected ended) (reading, rows) (at 200_000)).1

abbrev at_return : ReaderStatus × List (GapRow ℕ)
at_return =
    happen_all (λ t. t) ◌-◌ ((settings, disconnected ended, at 200_000) ∷ middle) (reading, rows)

abbrev rows_after : List (GapRow ℕ)
rows_after = (happen (λ t. t) ◌-◌ settings connected at_return (at 400_000)).1

happen_all-outage_example :
    (open_row_for lost_rows (codes "mat")
      ≡ some (record {
        seq = 4;
        reader_id = codes "mat";
        edge = opened_edge;
        detection = confirmed;
        observed_at = 200_000;
        monotonic_ms = 200_000;
        closes_seq = none;
        detail = some (codes "the connection to the reader ended");
      }))
    × (at_return.1 ≡ lost_rows)
    × (open_row_for rows_after (codes "mat") ≡ none)
    × IsPaired rows_after
unfolding open_row_for first_open is_closed next_seq ◌=ₜ◌
happen_all-outage_example =
    happen_all-outage (λ t. t) ◌-◌ mat reading rows ended (at 200_000) (at 400_000) settings
      settings middle rows-IsPaired refl refl refl (tt, (tt, (tt, tt)))
