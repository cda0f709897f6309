-- ===== src/Reader/Trust.antt =====
-- The times that crates/splitforge-reader/src/lib.rs lets count.
use splitforge.Prelude.{ℕ, ◌-◌, true, Option, ◌≡◌, arith, Bool-cases, inl, inr, ◌∙◌}
use splitforge.Prelude.Int.{ℤ, pos, negsuc, ◌-ℤ◌, ◌≤ℤ◌}
use splitforge.Domain.Time.{TimeApi, i64_or_max, i64_max, truncated_millis}
use splitforge.Domain.Policy.{auto}
use splitforge.Domain.Event.{DeviceClockState, authoritative_timestamp}
use splitforge.Reader.{
  Ingest, ReaderMessage, ReaderTimestamp, utc, uptime, absent, normalize, abs_ms, at_most,
}

-- The time that counts for a read is not further from its receipt than the limit, if the limit decides.
-- It is the reader's only if the reader gave one.
module _ (T : TimeApi) where
  no_offset : (at : T.Instant) → T.millis_between at at ≡ pos 0
  unfolding ◌-ℤ◌
  no_offset at = T.millis_between_nanos at at ∙ zero_apart (T.nanos at)
    where
      zero_apart : (a : ℤ) → truncated_millis (a -ℤ a) ≡ pos 0
      zero_apart a = ground arith

  -- A limit that is below the largest `i64` bounds what was converted to one.
  limited :
      (a limit : ℤ)
      → limit ≤ℤ pos (i64_max - 1)
      → abs_ms (i64_or_max a) ≤ℤ limit
      → abs_ms a ≤ℤ limit
  limited (pos n) limit h k = ground arith
  limited (negsuc n) limit h k = ground arith

  within-≤ℤ : (a limit : ℤ) → at_most (abs_ms a) limit ≡ true → abs_ms a ≤ℤ limit
  within-≤ℤ a limit h = ground arith

  given_within :
      (ingest : Ingest) (id : ℕ) (message : ReaderMessage T.Instant)
      (timestamp : ReaderTimestamp T.Instant) (received_at : T.Instant) (monotonic_ns : Option ℕ)
      (state : DeviceClockState)
      → ingest.trust ≡ auto
      → pos 0 ≤ℤ ingest.max_offset_ms
      → ingest.max_offset_ms ≤ℤ pos (i64_max - 1)
      → abs_ms (
          T.millis_between
            (authoritative_timestamp (
              normalize T ingest id
                (record message { timestamp = timestamp })
                received_at
                monotonic_ns
                state))
            received_at)
        ≤ℤ ingest.max_offset_ms
  unfolding normalize authoritative_timestamp
  given_within ingest id message absent received_at monotonic_ns state e h k =
      rw (no_offset received_at) h
  given_within ingest id message (uptime micros) received_at monotonic_ns state e h k =
      rw (no_offset received_at) h
  given_within ingest id message (utc at) received_at monotonic_ns state e h k =
      let offset = i64_or_max (T.millis_between at received_at) in
      elim (Bool-cases (at_most (abs_ms offset) ingest.max_offset_ms)) [
        | inl near ↦
            rw (e, near)
              (limited (T.millis_between at received_at) ingest.max_offset_ms k
                (within-≤ℤ offset ingest.max_offset_ms near))
        | inr far ↦ rw (e, far, no_offset received_at) h
      ]

  -- Under the automatic trust with a limit from 0 to below the largest i64, the time that counts for
  -- a read is not further from its receipt than the limit, in whole milliseconds.
  pub normalize-within :
      (ingest : Ingest) (id : ℕ) (message : ReaderMessage T.Instant) (received_at : T.Instant)
      (monotonic_ns : Option ℕ) (state : DeviceClockState)
      → ingest.trust ≡ auto
      → pos 0 ≤ℤ ingest.max_offset_ms
      → ingest.max_offset_ms ≤ℤ pos (i64_max - 1)
      → (let read = normalize T ingest id message received_at monotonic_ns state in
          abs_ms (T.millis_between (authoritative_timestamp read) received_at)
          ≤ℤ ingest.max_offset_ms)
  normalize-within ingest id message received_at monotonic_ns state e h k =
      given_within ingest id message message.timestamp received_at monotonic_ns state e h k
