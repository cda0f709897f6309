-- ===== src/Storage/Record/RoundTrip.antt =====
-- A read survives the record that the sidecar writes of it.
use splitforge.Prelude.{
  ℕ, ◌+◌, ◌*◌, ◌/◌, ◌%◌, ◌<◌, ◌≡◌, refl, ap, sym, ◌∙◌, true, false, List, [], ◌∷◌, Option, none,
  some, ◌==◌, ok, length, All, arith, inl, inr, Option-cases,
}
use splitforge.Prelude.Int.{ℤ, pos, negsuc}
use splitforge.Prelude.Fallible.{try_map}
use splitforge.Prelude.Text.{◌=ₜ◌}
use splitforge.Domain.Event.{
  DeviceClockState, gps_locked, rtc, ntp_synced, manual, unsynced, no_reader_timestamp,
  reader_uptime_only, reader_untrusted, offset_exceeded_threshold, TimestampSource, reader_utc,
  device_receipt, RawRead,
}
use splitforge.Storage.Record.{
  SidecarRecord, SidecarApi, floor_micros, micros_nanos, clock_state_to_str, clock_state_from_str,
  fallback_to_str, fallback_from_str, source_texts, source_from_texts, hex_char, hex_lower,
  hex_value, hex_pairs, hex_decode, to_micros, from_micros, fits_micros, storable, record_of,
  into_read, exceeds_i64, all_fit, record_with,
}

clock_state_from_str-to_str :
    (s : DeviceClockState) → clock_state_from_str (clock_state_to_str s) ≡ ok s
unfolding clock_state_from_str clock_state_to_str ◌=ₜ◌
clock_state_from_str-to_str gps_locked = refl
clock_state_from_str-to_str rtc = refl
clock_state_from_str-to_str ntp_synced = refl
clock_state_from_str-to_str manual = refl
clock_state_from_str-to_str unsynced = refl

source_from_texts-texts :
    (s : TimestampSource) → source_from_texts (source_texts s).0 (source_texts s).1 ≡ ok s
unfolding source_from_texts source_texts fallback_from_str fallback_to_str ◌=ₜ◌
source_from_texts-texts reader_utc = refl
source_from_texts-texts (device_receipt no_reader_timestamp) = refl
source_from_texts-texts (device_receipt reader_uptime_only) = refl
source_from_texts-texts (device_receipt reader_untrusted) = refl
source_from_texts-texts (device_receipt offset_exceeded_threshold) = refl

hex_value-char : (n : ℕ) → n < 16 → hex_value (hex_char n) ≡ ok n
unfolding hex_value
hex_value-char n h = ground arith

pub hex_pairs-lower :
    (bytes : List ℕ) → All (λ b. b < 256) bytes → hex_pairs (hex_lower bytes) ≡ ok bytes
unfolding hex_pairs hex_lower
hex_pairs-lower [] h = refl
hex_pairs-lower (b ∷ bytes) (h, k) =
    let whole : b / 16 * 16 + b % 16 ≡ b = omega arith in
    rw (
      hex_value-char (b / 16) (omega arith),
      hex_value-char (b % 16) (omega arith),
      hex_pairs-lower bytes k,
      whole,
    )

length-hex_lower : (bytes : List ℕ) → length (hex_lower bytes) ≡ 2 * length bytes
unfolding hex_lower
length-hex_lower [] = refl
length-hex_lower (b ∷ bytes) = omega (arith, length-hex_lower bytes)

hex_decode-lower :
    (bytes : List ℕ) → All (λ b. b < 256) bytes → hex_decode (hex_lower bytes) ≡ ok bytes
unfolding hex_decode
hex_decode-lower bytes h =
    let even : (length (hex_lower bytes) % 2 == 0) ≡ true =
      ground (arith, length-hex_lower bytes) in
    rw even (hex_pairs-lower bytes h)

floor_micros-nanos : (m : ℤ) → floor_micros (micros_nanos m) ≡ m
floor_micros-nanos (pos n) = ap pos (omega arith)
floor_micros-nanos (negsuc n) = ap negsuc (omega arith)

module _ (Api : SidecarApi) where
  open_micros :
      (at : Api.Instant) → from_micros Api (floor_micros (Api.nanos at)) ≡ ok (Api.micros at)
  unfolding from_micros
  open_micros at = rw (Api.from_nanos_micros at)

  pub fits-micros : (at : Api.Instant) → fits_micros Api (Api.micros at) ≡ fits_micros Api at
  fits-micros at = rw (Api.nanos_micros at, floor_micros-nanos (floor_micros (Api.nanos at)))

  storable_parts :
      (read : RawRead Api.Instant)
      → storable Api read ≡ ok tt
      → (all_fit Api read.reader_timestamp ≡ true)
        × (fits_micros Api read.received_at ≡ true)
        × (exceeds_i64 read.reader_uptime_us ≡ false)
        × (exceeds_i64 read.received_at_monotonic_ns ≡ false)
  unfolding storable
  storable_parts read h = ground arith

  -- The read with its instants moved down to whole microseconds
  abbrev pub in_micros : RawRead Api.Instant → RawRead Api.Instant
  in_micros read = record read {
    reader_timestamp = elim read.reader_timestamp [ none ↦ none | some at ↦ some (Api.micros at) ];
    received_at = Api.micros read.received_at;
  }

  pub storable-in_micros :
      (read : RawRead Api.Instant) → storable Api (in_micros read) ≡ storable Api read
  unfolding storable
  storable-in_micros read = elim (Option-cases read.reader_timestamp) [
    | inl n ↦ rw (n, fits-micros read.received_at)
    | inr (at, s) ↦ rw (s, fits-micros read.received_at, fits-micros at)
  ]

  some_inj : {a b : Api.Instant} → some a ≡ some b → a ≡ b
  some_inj h = cc

  pub micros_again : (at : Api.Instant) → Api.micros (Api.micros at) ≡ Api.micros at
  micros_again at = some_inj (
      sym (Api.from_nanos_micros (Api.micros at))
      ∙ ap (λ (n : ℤ). Api.from_nanos (micros_nanos (floor_micros n))) (Api.nanos_micros at)
      ∙ ap (λ (m : ℤ). Api.from_nanos (micros_nanos m))
          (floor_micros-nanos (floor_micros (Api.nanos at)))
      ∙ Api.from_nanos_micros at)

  try_to :
      (o : Option Api.Instant)
      → all_fit Api o ≡ true
      → (m : Option ℤ) × (try_map (to_micros Api) o ≡ ok m)
        × (try_map (from_micros Api) m
            ≡ ok (elim o [ none ↦ none | some at ↦ some (Api.micros at) ]))
  unfolding to_micros
  try_to none h = (none, refl, refl)
  try_to (some at) h = (some (floor_micros (Api.nanos at)), rw h, rw (open_micros at))

  -- A storable read of bytes, recorded at an instant whose microseconds fit, has a record, and the
  -- record reads back as the same read in every field, its instants moved down to whole microseconds.
  pub record_of-into_read :
      (read : RawRead Api.Instant) (recorded_at : Api.Instant)
      → storable Api read ≡ ok tt
      → fits_micros Api recorded_at ≡ true
      → All (λ b. b < 256) read.raw_payload
      → (r : SidecarRecord) × (record_of Api read recorded_at ≡ ok r)
        × (into_read Api r
            ≡ ok (record { read = in_micros read; recorded_at = Api.micros recorded_at }))
  unfolding record_of into_read to_micros
  record_of-into_read read recorded_at s f b =
      let (t, v, u, m) = storable_parts read s in
      let (us, written, back) = try_to read.reader_timestamp t in
      let same : storable Api (in_micros read) ≡ ok tt = storable-in_micros read ∙ s in
      let r : SidecarRecord =
        record_with Api read us (floor_micros (Api.nanos read.received_at))
          (floor_micros (Api.nanos recorded_at)) in
      (
        r,
        rw (written, v, f),
        rw (
          Api.parse_print read.id,
          source_from_texts-texts read.timestamp_source,
          open_micros recorded_at,
          back,
          open_micros read.received_at,
          clock_state_from_str-to_str read.device_clock_state,
          hex_decode-lower read.raw_payload b,
          same,
        ),
      )
