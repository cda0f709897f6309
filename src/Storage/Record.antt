-- ===== src/Storage/Record.antt =====
-- crates/splitforge-storage/src/sidecar.rs, from `SidecarRecord` on, and what it takes from journal.rs
-- and connection.rs: a read as the sidecar writes it, and back. An instant is written as the whole
-- microseconds below it.
pub mod RoundTrip
use splitforge.Prelude.{
  ℕ, suc, ◌+◌, ◌-◌, ◌*◌, ◌/◌, ◌%◌, ◌<◌, ◌≡◌, Bool, true, false, not, ◌&&◌, List, [], ◌∷◌, Option,
  none, some, leb, ltb, ◌==◌, if◌then◌else◌, Result, ok, err, length, All,
}
use splitforge.Prelude.Int.{ℤ, pos, negsuc}
use splitforge.Prelude.Fallible.{◌>>=◌, try_map, ok_or}
use splitforge.Prelude.Text.{codes, ◌=ₜ◌}
use splitforge.Domain.Time.{i64_max}
use splitforge.Domain.Event.{
  DeviceClockState, gps_locked, rtc, ntp_synced, manual, unsynced, FallbackReason,
  no_reader_timestamp, reader_uptime_only, reader_untrusted, offset_exceeded_threshold,
  TimestampSource, reader_utc, device_receipt, RawRead,
}

-- What makes a line of the sidecar, or a read, one that is refused, or a write fail.
pub data LineError : Type 0 where
  not_utf8 not_tagged no_separator digest_mismatch undecodable bad_id : LineError
  no_fallback_reason unknown_source unknown_fallback unknown_clock_state : LineError
  timestamp_out_of_range odd_hex bad_hex unstorable disk_failed : LineError

pub record SidecarRecord : Type 0 where
  pub id : List ℕ
  pub source : List ℕ
  pub antenna : Option ℕ
  pub chip : List ℕ
  pub reader_timestamp_us : Option ℤ
  pub reader_uptime_us : Option ℕ
  pub received_at_us : ℤ
  pub received_at_monotonic_ns : Option ℕ
  pub rssi_dbm : Option ℤ
  pub device_clock_state : List ℕ
  pub timestamp_source : List ℕ
  pub timestamp_fallback_reason : Option (List ℕ)
  pub clock_offset_ms : Option ℤ
  pub raw_payload_hex : List ℕ
  pub recorded_at_us : ℤ

pub record SidecarRead (I : Type 0) : Type 0 where
  pub read : RawRead I
  pub recorded_at : I

-- Nanoseconds to whole microseconds, `div_euclid(1_000)`, and back.
abbrev pub floor_micros : ℤ → ℤ
floor_micros (pos n) = pos (n / 1_000)
floor_micros (negsuc n) = negsuc (n / 1_000)

abbrev pub micros_nanos : ℤ → ℤ
micros_nanos (pos n) = pos (n * 1_000)
micros_nanos (negsuc n) = negsuc (n * 1_000 + 999)

abbrev pub in_i64 : ℤ → Bool
in_i64 (pos n) = leb n i64_max
in_i64 (negsuc n) = leb n i64_max

-- What the program uses of the `time`, `uuid`, `serde_json` and `sha2` crates and of the standard
-- library's UTF-8, none of which is part of it. A text is the list of its bytes. The laws are those
-- that their documentation states: a JSON text is UTF-8 without a line feed and reads back as what
-- was written, an ASCII byte is one character, and an instant may be moved down to a microsecond.
pub record SidecarApi : Type 1 where
  pub Instant : Type 0
  pub nanos : Instant → ℤ
  pub from_nanos : ℤ → Option Instant
  pub micros : Instant → Instant
  pub from_nanos_micros :
      (at : Instant) → from_nanos (micros_nanos (floor_micros (nanos at))) ≡ some (micros at)
  pub nanos_micros : (at : Instant) → nanos (micros at) ≡ micros_nanos (floor_micros (nanos at))
  pub print_uuid : ℕ → List ℕ
  pub parse_uuid : List ℕ → Option ℕ
  pub parse_print : (id : ℕ) → parse_uuid (print_uuid id) ≡ some id
  pub to_json : SidecarRecord → List ℕ
  pub from_json : List ℕ → Option SidecarRecord
  pub from_to_json : (r : SidecarRecord) → from_json (to_json r) ≡ some r
  pub is_utf8 : List ℕ → Bool
  pub is_utf8_ascii : (c : ℕ) (text : List ℕ) → leb c 127 ≡ true → is_utf8 (c ∷ text) ≡ is_utf8 text
  pub is_utf8_json : (r : SidecarRecord) → is_utf8 (to_json r) ≡ true
  pub one_line_json : (r : SidecarRecord) → All (λ c. (c == 10) ≡ false) (to_json r)
  pub sha256 : List ℕ → List ℕ
  pub sha256_bytes : (text : List ℕ) → All (λ b. b < 256) (sha256 text)

unfoldable pub clock_state_to_str : DeviceClockState → List ℕ
clock_state_to_str gps_locked = codes "gps_locked"
clock_state_to_str rtc = codes "rtc"
clock_state_to_str ntp_synced = codes "ntp_synced"
clock_state_to_str manual = codes "manual"
clock_state_to_str unsynced = codes "unsynced"

unfoldable pub clock_state_from_str : List ℕ → Result DeviceClockState LineError
clock_state_from_str text =
    if text =ₜ codes "gps_locked"
    then ok gps_locked
    else if text =ₜ codes "rtc"
    then ok rtc
    else if text =ₜ codes "ntp_synced"
    then ok ntp_synced
    else if text =ₜ codes "manual"
    then ok manual
    else if text =ₜ codes "unsynced"
    then ok unsynced
    else err unknown_clock_state

unfoldable pub fallback_to_str : FallbackReason → List ℕ
fallback_to_str no_reader_timestamp = codes "no_reader_timestamp"
fallback_to_str reader_uptime_only = codes "reader_uptime_only"
fallback_to_str reader_untrusted = codes "reader_untrusted"
fallback_to_str offset_exceeded_threshold = codes "offset_exceeded_threshold"

unfoldable pub fallback_from_str : List ℕ → Result FallbackReason LineError
fallback_from_str text =
    if text =ₜ codes "no_reader_timestamp"
    then ok no_reader_timestamp
    else if text =ₜ codes "reader_uptime_only"
    then ok reader_uptime_only
    else if text =ₜ codes "reader_untrusted"
    then ok reader_untrusted
    else if text =ₜ codes "offset_exceeded_threshold"
    then ok offset_exceeded_threshold
    else err unknown_fallback

-- The two columns of a timestamp's source, which `SidecarRecord::of` writes and `into_read` reads
unfoldable pub source_texts : TimestampSource → List ℕ × Option (List ℕ)
source_texts reader_utc = (codes "reader_utc", none)
source_texts (device_receipt reason) = (codes "device_receipt", some (fallback_to_str reason))

unfoldable pub source_from_texts : List ℕ → Option (List ℕ) → Result TimestampSource LineError
source_from_texts text fallback =
    if text =ₜ codes "reader_utc"
    then ok reader_utc
    else if text =ₜ codes "device_receipt"
    then (ok_or no_fallback_reason fallback >>= λ reason.
        fallback_from_str reason >>= λ r. ok (device_receipt r))
    else err unknown_source

abbrev pub hex_char : ℕ → ℕ
hex_char n = if ltb n 10 then 48 + n else 87 + n

unfoldable pub hex_lower : List ℕ → List ℕ
hex_lower [] = []
hex_lower (b ∷ bytes) = hex_char (b / 16) ∷ hex_char (b % 16) ∷ hex_lower bytes

unfoldable pub hex_value : ℕ → Result ℕ LineError
hex_value c =
    if leb 48 c && leb c 57
    then ok (c - 48)
    else if leb 97 c && leb c 102
    then ok (c - 97 + 10)
    else if leb 65 c && leb c 70
    then ok (c - 65 + 10)
    else err bad_hex

unfoldable pub hex_pairs : List ℕ → Result (List ℕ) LineError
hex_pairs (a ∷ b ∷ text) = do
  high ← hex_value a
  low ← hex_value b
  rest ← hex_pairs text
  ok ((high * 16 + low) ∷ rest)
hex_pairs (a ∷ []) = ok []
hex_pairs [] = ok []

unfoldable pub hex_decode : List ℕ → Result (List ℕ) LineError
hex_decode text = if length text % 2 == 0 then hex_pairs text else err odd_hex

-- `i64::try_from(n).is_err()`, of a `u64` that may be missing
abbrev pub exceeds_i64 : Option ℕ → Bool
exceeds_i64 none = false
exceeds_i64 (some n) = not (leb n i64_max)

module _ (Api : SidecarApi) where
  unfoldable pub to_micros : Api.Instant → Result ℤ LineError
  to_micros at =
      let micros = floor_micros (Api.nanos at) in
      if in_i64 micros then ok micros else err timestamp_out_of_range

  unfoldable pub from_micros : ℤ → Result Api.Instant LineError
  from_micros micros = ok_or timestamp_out_of_range (Api.from_nanos (micros_nanos micros))

  -- `to_micros(at).map_err(..)`
  abbrev pub fits_micros : Api.Instant → Bool
  fits_micros at = in_i64 (floor_micros (Api.nanos at))

  abbrev pub all_fit : Option Api.Instant → Bool
  all_fit none = true
  all_fit (some at) = fits_micros at

  unfoldable pub storable : RawRead Api.Instant → Result (Unit {0}) LineError
  storable read =
      if not (all_fit read.reader_timestamp)
      then err unstorable
      else if not (fits_micros read.received_at)
      then err unstorable
      else if exceeds_i64 read.reader_uptime_us
      then err unstorable
      else if exceeds_i64 read.received_at_monotonic_ns
      then err unstorable
      else ok tt

  abbrev pub record_with : RawRead Api.Instant → Option ℤ → ℤ → ℤ → SidecarRecord
  record_with read reader_timestamp_us received_at_us recorded_at_us = record {
    id = Api.print_uuid read.id;
    source = read.source;
    antenna = read.antenna;
    chip = read.chip;
    reader_timestamp_us = reader_timestamp_us;
    reader_uptime_us = read.reader_uptime_us;
    received_at_us = received_at_us;
    received_at_monotonic_ns = read.received_at_monotonic_ns;
    rssi_dbm = read.rssi_dbm;
    device_clock_state = clock_state_to_str read.device_clock_state;
    timestamp_source = (source_texts read.timestamp_source).0;
    timestamp_fallback_reason = (source_texts read.timestamp_source).1;
    clock_offset_ms = read.clock_offset_ms;
    raw_payload_hex = hex_lower read.raw_payload;
    recorded_at_us = recorded_at_us;
  }

  -- `SidecarRecord::of`
  unfoldable pub record_of : RawRead Api.Instant → Api.Instant → Result SidecarRecord LineError
  record_of read recorded_at = do
    reader_timestamp_us ← try_map to_micros read.reader_timestamp
    received_at_us ← to_micros read.received_at
    recorded_at_us ← to_micros recorded_at
    ok (record_with read reader_timestamp_us received_at_us recorded_at_us)

  abbrev read_with :
      SidecarRecord
      → ℕ
      → TimestampSource
      → Api.Instant
      → Option Api.Instant
      → Api.Instant
      → DeviceClockState
      → List ℕ
      → SidecarRead Api.Instant
  read_with r uuid source recorded_at reader_timestamp received_at state payload = record {
    read = record {
      id = uuid;
      source = r.source;
      antenna = r.antenna;
      chip = r.chip;
      reader_timestamp = reader_timestamp;
      reader_uptime_us = r.reader_uptime_us;
      received_at = received_at;
      received_at_monotonic_ns = r.received_at_monotonic_ns;
      rssi_dbm = r.rssi_dbm;
      device_clock_state = state;
      timestamp_source = source;
      clock_offset_ms = r.clock_offset_ms;
      raw_payload = payload;
    };
    recorded_at = recorded_at;
  }

  abbrev if_storable : SidecarRead Api.Instant → Result (SidecarRead Api.Instant) LineError
  if_storable recovered = storable recovered.read >>= λ _. ok recovered

  unfoldable pub into_read : SidecarRecord → Result (SidecarRead Api.Instant) LineError
  into_read r = do
    uuid ← ok_or bad_id (Api.parse_uuid r.id)
    source ← source_from_texts r.timestamp_source r.timestamp_fallback_reason
    recorded_at ← from_micros r.recorded_at_us
    reader_timestamp ← try_map from_micros r.reader_timestamp_us
    received_at ← from_micros r.received_at_us
    state ← clock_state_from_str r.device_clock_state
    payload ← hex_decode r.raw_payload_hex
    if_storable (read_with r uuid source recorded_at reader_timestamp received_at state payload)
