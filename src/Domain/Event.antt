-- ===== src/Domain/Event.antt =====
-- crates/splitforge-domain/src/read.rs, manual.rs and derived.rs: the evidence, and what is derived
-- from it. The identifiers of what is derived are hashes of what they are derived from: the hash is
-- the `uuid` crate's and the numerals are those of `to_string`, so both are parameters.
use splitforge.Prelude.{ℕ, List, Option, none, some}
use splitforge.Prelude.Int.{ℤ}

pub data DeviceClockState : Type 0 where
  gps_locked rtc ntp_synced manual unsynced : DeviceClockState

pub data FallbackReason : Type 0 where
  no_reader_timestamp reader_uptime_only reader_untrusted : FallbackReason
  offset_exceeded_threshold : FallbackReason

pub data TimestampSource : Type 0 where
  reader_utc : TimestampSource
  device_receipt : FallbackReason → TimestampSource

pub record RawRead (I : Type 0) : Type 0 where
  pub id : ℕ
  pub source : List ℕ
  pub antenna : Option ℕ
  pub chip : List ℕ
  pub reader_timestamp : Option I
  pub reader_uptime_us : Option ℕ
  pub received_at : I
  pub received_at_monotonic_ns : Option ℕ
  pub rssi_dbm : Option ℤ
  pub device_clock_state : DeviceClockState
  pub timestamp_source : TimestampSource
  pub clock_offset_ms : Option ℤ
  pub raw_payload : List ℕ

unfoldable pub authoritative_timestamp : {I : Type 0} → RawRead I → I
authoritative_timestamp r = elim r.timestamp_source [
  | reader_utc ↦ elim r.reader_timestamp [ none ↦ r.received_at | some at ↦ at ]
  | device_receipt reason ↦ r.received_at
]

pub record StoredRawRead (I : Type 0) : Type 0 where
  pub seq : ℕ
  pub recorded_at : I
  pub payload_sha256 : List ℕ
  pub read : RawRead I

pub record ManualEntry (I : Type 0) : Type 0 where
  pub id : ℕ
  pub race : ℕ
  pub participant : ℕ
  pub checkpoint : ℕ
  pub at : I
  pub actor : List ℕ
  pub reason : List ℕ

pub record AcceptedRead (I : Type 0) : Type 0 where
  pub id : ℕ
  pub checkpoint : ℕ
  pub chip : List ℕ
  pub participant : Option ℕ
  pub at : I
  pub source_raw_read : ℕ
  pub burst_raw_reads : List ℕ
  pub rssi_dbm : Option ℤ

pub data RejectionReason : Type 0 where
  duplicate_within_window : ℕ → ℤ → RejectionReason
  below_rssi_floor : Option ℤ → ℤ → RejectionReason
  below_min_lap : ℕ → ℤ → RejectionReason
  unmapped_reader : List ℕ → Option ℕ → RejectionReason

pub record RejectedRead : Type 0 where
  pub raw_read : ℕ
  pub reason : RejectionReason

pub data TimingEventOrigin : Type 0 where
  accepted_read : ℕ → TimingEventOrigin
  manual : ℕ → TimingEventOrigin

pub record TimingEvent (I : Type 0) : Type 0 where
  pub id : ℕ
  pub participant : ℕ
  pub checkpoint : ℕ
  pub at : I
  pub lap : ℕ
  pub origin : TimingEventOrigin

pub record Derivation (I : Type 0) : Type 0 where
  pub accepted : List (AcceptedRead I)
  pub rejected : List RejectedRead
  pub timing_events : List (TimingEvent I)

-- `derived_uuid("accepted-read", ..)` and `derived_uuid("timing-event", ..)`, of the parts they are
-- given. The two numbers in the middle of a timing event's are its checkpoint and its lap.
pub record UuidApi : Type 0 where
  pub accepted_read_id : ℕ → List ℕ → ℕ → ℕ
  pub timing_event_id : ℕ → ℕ → ℕ → ℕ → ℕ

-- `AcceptedRead::new`
unfoldable pub new_accepted :
    {I : Type 0} → UuidApi → ℕ → List ℕ → Option ℕ → I → ℕ → List ℕ → Option ℤ → AcceptedRead I
new_accepted U checkpoint chip participant at source burst rssi_dbm = record {
  id = U.accepted_read_id checkpoint chip source;
  checkpoint = checkpoint;
  chip = chip;
  participant = participant;
  at = at;
  source_raw_read = source;
  burst_raw_reads = burst;
  rssi_dbm = rssi_dbm;
}

unfoldable pub from_accepted : {I : Type 0} → UuidApi → ℕ → ℕ → I → ℕ → ℕ → TimingEvent I
from_accepted U participant checkpoint at lap accepted = record {
  id = U.timing_event_id participant checkpoint lap accepted;
  participant = participant;
  checkpoint = checkpoint;
  at = at;
  lap = lap;
  origin = accepted_read accepted;
}

unfoldable pub from_manual : {I : Type 0} → UuidApi → ℕ → ℕ → I → ℕ → ℕ → TimingEvent I
from_manual U participant checkpoint at lap entry = record {
  id = U.timing_event_id participant checkpoint lap entry;
  participant = participant;
  checkpoint = checkpoint;
  at = at;
  lap = lap;
  origin = manual entry;
}
