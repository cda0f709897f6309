-- ===== src/Domain/Samples.antt =====
-- Instants as integers of nanoseconds, and small races, for the examples of the other modules.
use splitforge.Prelude.{ℕ, List, [], ◌∷◌, none, some, refl, ◌*◌, ◌+◌}
use splitforge.Prelude.Int.{ℤ, pos, ltb_ℤ, ◌-ℤ◌}
use splitforge.Domain.Time.{TimeApi, truncated_millis}
use splitforge.Domain.Entity.{Checkpoint, start, finish, Participant}
use splitforge.Domain.Event.{
  StoredRawRead, gps_locked, reader_utc, TimingEvent, accepted_read, UuidApi,
}

abbrev pub nanos_api : TimeApi
nanos_api = record {
  Instant = ℤ;
  nanos = λ at. at;
  lt = ltb_ℤ;
  lt_nanos = λ a b. refl;
  millis_between = λ from to. truncated_millis (to -ℤ from);
  millis_between_nanos = λ from to. refl;
  longer_than = λ from to ms. ltb_ℤ (pos (ms * 1_000_000)) (to -ℤ from);
  longer_than_nanos = λ from to ms. refl;
}

abbrev pub sum_ids : UuidApi
sum_ids = record {
  accepted_read_id = λ checkpoint chip source. 1_000 + source;
  timing_event_id = λ participant checkpoint lap origin. 2_000 + origin;
}

abbrev pub read_at : ℕ → ℕ → StoredRawRead ℤ
read_at id millis = record {
  seq = id;
  recorded_at = pos (millis * 1_000_000);
  payload_sha256 = [];
  read = record {
    id = id;
    source = 82 ∷ [];
    antenna = some 1;
    chip = 67 ∷ [];
    reader_timestamp = none;
    reader_uptime_us = none;
    received_at = pos (millis * 1_000_000);
    received_at_monotonic_ns = none;
    rssi_dbm = none;
    device_clock_state = gps_locked;
    timestamp_source = reader_utc;
    clock_offset_ms = none;
    raw_payload = [];
  };
}

abbrev pub crossing_at : ℕ → ℕ → ℕ → ℕ → TimingEvent ℤ
crossing_at id participant checkpoint millis = record {
  id = id;
  participant = participant;
  checkpoint = checkpoint;
  at = pos (millis * 1_000_000);
  lap = 1;
  origin = accepted_read id;
}

abbrev pub course : List Checkpoint
course =
    record { id = 1; race = 1; name = 83 ∷ []; kind = start; sequence = 0 }
    ∷ record { id = 2; race = 1; name = 70 ∷ []; kind = finish; sequence = 1 }
    ∷ []

abbrev pub runner : ℕ → Participant
runner id = record { id = id; race = 1; bib = (48 + id) ∷ []; name = [] }
