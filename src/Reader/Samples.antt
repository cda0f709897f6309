-- ===== src/Reader/Samples.antt =====
-- Runs of crates/splitforge-reader/src/lib.rs, and its theorem at these inputs.
use splitforge.Prelude.{[], none, ◌≡◌, refl, arith}
use splitforge.Prelude.Int.{ℤ, pos, ◌-ℤ◌, ◌≤ℤ◌}
use splitforge.Prelude.Text.{codes}
use splitforge.Domain.Samples.{nanos_api}
use splitforge.Domain.Event.{authoritative_timestamp, ntp_synced}
use splitforge.Reader.{ReaderMessage, utc, normalize, default_ingest, abs_ms}
use splitforge.Reader.Trust.{normalize-within}

-- A reader whose clock is an hour behind.
abbrev late : ReaderMessage ℤ
late = record {
  source = codes "mat";
  antenna = none;
  chip = codes "AB";
  timestamp = utc (pos 0);
  rssi_dbm = none;
  raw_payload = [];
}

authoritative_timestamp-late :
    authoritative_timestamp
      (normalize nanos_api default_ingest 1 late (pos 3_600_000_000_000) none ntp_synced)
    ≡ pos 3_600_000_000_000
unfolding normalize authoritative_timestamp ◌-ℤ◌
authoritative_timestamp-late = refl

normalize-within_example :
    abs_ms (
      nanos_api.millis_between
        (authoritative_timestamp
          (normalize nanos_api default_ingest 1 late (pos 3_600_000_000_000) none ntp_synced))
        (pos 3_600_000_000_000))
    ≤ℤ pos 5_000
normalize-within_example =
    normalize-within nanos_api default_ingest 1 late (pos 3_600_000_000_000) none ntp_synced refl
      (omega arith) (omega arith)
