-- ===== src/Reader.antt =====
-- crates/splitforge-reader/src/lib.rs: what a reader says of a read, and whether its
-- clock is believed.
pub mod Trust
pub mod Samples
use splitforge.Prelude.{ℕ, suc, Bool, true, false, not, List, Option, none, some, if◌then◌else◌}
use splitforge.Prelude.Int.{ℤ, pos, negsuc, ltb_ℤ}
use splitforge.Domain.Time.{TimeApi, i64_or_max}
use splitforge.Domain.Policy.{TimestampTrust, trusted, untrusted, auto}
use splitforge.Domain.Event.{
  RawRead, DeviceClockState, TimestampSource, reader_utc, device_receipt, no_reader_timestamp,
  reader_uptime_only, reader_untrusted, offset_exceeded_threshold,
}

-- An instant is of the type `I`.
pub data ReaderTimestamp (I : Type 0) : Type 0 where
  utc : I → ReaderTimestamp I
  uptime : ℕ → ReaderTimestamp I
  absent : ReaderTimestamp I

pub record ReaderMessage (I : Type 0) : Type 0 where
  pub source : List ℕ
  pub antenna : Option ℕ
  pub chip : List ℕ
  pub timestamp : ReaderTimestamp I
  pub rssi_dbm : Option ℤ
  pub raw_payload : List ℕ

abbrev pub default_max_offset_ms : ℕ
default_max_offset_ms = 5_000

pub record Ingest : Type 0 where
  pub trust : TimestampTrust
  pub max_offset_ms : ℤ

-- `Default`, of the trust that is the default
abbrev pub default_ingest : Ingest
default_ingest = record { trust = auto; max_offset_ms = pos default_max_offset_ms }

-- `ms.abs()`; no two instants are so far apart that it overflows.
abbrev pub abs_ms : ℤ → ℤ
abs_ms (pos n) = pos n
abs_ms (negsuc n) = pos (suc n)

abbrev pub at_most : ℤ → ℤ → Bool
at_most a b = not (ltb_ℤ b a)

module _ (T : TimeApi) where
  abbrev Instant : Type 0
  Instant = T.Instant

  -- The reader's time, its uptime and the offset of its clock
  abbrev claimed : ReaderTimestamp Instant → Instant → Option Instant × Option ℕ × Option ℤ
  claimed (utc at) received_at =
      (some at, none, some (i64_or_max (T.millis_between at received_at)))
  claimed (uptime micros) received_at = (none, some micros, none)
  claimed absent received_at = (none, none, none)

  abbrev within_threshold : Option ℤ → ℤ → Bool
  within_threshold none max_offset_ms = false
  within_threshold (some ms) max_offset_ms = at_most (abs_ms ms) max_offset_ms

  abbrev trusted_source : TimestampTrust → Bool → TimestampSource
  trusted_source trusted within = reader_utc
  trusted_source untrusted within = device_receipt reader_untrusted
  trusted_source auto within =
      if within then reader_utc else device_receipt offset_exceeded_threshold

  abbrev clock_source : Ingest → Option Instant → Option ℕ → Option ℤ → TimestampSource
  clock_source ingest (some at) micros offset =
      trusted_source ingest.trust (within_threshold offset ingest.max_offset_ms)
  clock_source ingest none (some micros) offset = device_receipt reader_uptime_only
  clock_source ingest none none offset = device_receipt no_reader_timestamp

  -- `normalize`, with the random identifier that it takes
  unfoldable pub normalize :
      Ingest → ℕ → ReaderMessage Instant → Instant → Option ℕ → DeviceClockState → RawRead Instant
  normalize ingest id message received_at monotonic_ns device_clock_state =
      let (reader_time, uptime_us, offset) = claimed message.timestamp received_at in
      record {
        id = id;
        source = message.source;
        antenna = message.antenna;
        chip = message.chip;
        reader_timestamp = reader_time;
        reader_uptime_us = uptime_us;
        received_at = received_at;
        received_at_monotonic_ns = monotonic_ns;
        rssi_dbm = message.rssi_dbm;
        device_clock_state = device_clock_state;
        timestamp_source = clock_source ingest reader_time uptime_us offset;
        clock_offset_ms = offset;
        raw_payload = message.raw_payload;
      }
