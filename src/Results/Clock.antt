-- ===== src/Results/Clock.antt =====
-- crates/splitforge-results/src/clock.rs: the flags that the device's clock puts on finished lines. A set of
-- identifiers is a list of them.
pub mod Noted
pub mod Samples
use splitforge.Prelude.{
  ℕ, Bool, true, false, not, ◌&&◌, ◌||◌, ◌==◌, List, [], ◌∷◌, ◌++◌, Option, none, some, map,
  if◌then◌else◌, ltb,
}
use splitforge.Prelude.Map.{get, update}
use splitforge.Domain.Time.{TimeApi}
use splitforge.Domain.Clock.{ClockStep}
use splitforge.Domain.Event.{
  RawRead, StoredRawRead, DeviceClockState, gps_locked, rtc, ntp_synced, TimestampSource,
  reader_utc, device_receipt, AcceptedRead, TimingEvent, TimingEventOrigin, accepted_read, manual,
  Derivation,
}
use splitforge.Domain.Outcome.{
  ResultEntry, ResultFlag, untrusted_device_clock, clock_step_during_result,
}
use splitforge.Results.Entry.{push_if}

abbrev pub some_of : {A : Type 0} → (A → Bool) → List A → Bool
some_of test [] = false
some_of test (x ∷ xs) = test x || some_of test xs

abbrev pub contains : List ℕ → ℕ → Bool
contains ids id = some_of (λ (other : ℕ). other == id) ids

-- `DeviceClockState::is_trustworthy`
abbrev pub is_trustworthy : DeviceClockState → Bool
is_trustworthy gps_locked = true
is_trustworthy rtc = true
is_trustworthy ntp_synced = true
is_trustworthy _ = false

abbrev is_receipt : TimestampSource → Bool
is_receipt reader_utc = false
is_receipt (device_receipt reason) = true

module _ (T : TimeApi) where
  open T use {Instant, lt}

  unfoldable pub untrusted_reads : List (StoredRawRead Instant) → List ℕ
  untrusted_reads [] = []
  untrusted_reads (stored ∷ reads) =
      let rest = untrusted_reads reads in
      if is_receipt stored.read.timestamp_source
        && not (is_trustworthy stored.read.device_clock_state)
      then stored.read.id ∷ rest
      else rest

  -- The read of each crossing; of two crossings with one identifier the last one counts.
  unfoldable pub crossing_reads : List (AcceptedRead Instant) → List (ℕ × ℕ) → List (ℕ × ℕ)
  crossing_reads [] reads = reads
  crossing_reads (crossing ∷ accepted) reads =
      crossing_reads accepted (update ltb crossing.id (λ held. crossing.source_raw_read) reads)

  abbrev pub is_untrusted : List ℕ → List (ℕ × ℕ) → TimingEventOrigin → Bool
  is_untrusted untrusted crossings (manual entry) = false
  is_untrusted untrusted crossings (accepted_read id) = elim (get ltb id crossings) [
    | none ↦ false
    | some read ↦ contains untrusted read
  ]

  unfoldable pub untrusted_among : List ℕ → List (ℕ × ℕ) → List (TimingEvent Instant) → List ℕ
  untrusted_among untrusted crossings [] = []
  untrusted_among untrusted crossings (event ∷ events) =
      let rest = untrusted_among untrusted crossings events in
      if is_untrusted untrusted crossings event.origin then event.id ∷ rest else rest

  unfoldable pub untrusted_events : List (StoredRawRead Instant) → Derivation Instant → List ℕ
  untrusted_events reads derivation =
      untrusted_among (untrusted_reads reads) (crossing_reads derivation.accepted [])
        derivation.timing_events

  abbrev min_instant : Instant → Instant → Instant
  min_instant a b = if lt b a then b else a

  abbrev max_instant : Instant → Instant → Instant
  max_instant a b = if lt b a then a else b

  -- `[gun, start].into_iter().flatten().min()`
  abbrev pub earliest : Option Instant → Option Instant → Option Instant
  earliest none none = none
  earliest none (some b) = some b
  earliest (some a) none = some a
  earliest (some a) (some b) = some (min_instant a b)

  abbrev pub step_overlaps : Instant → Instant → ClockStep Instant → Bool
  step_overlaps from finish step =
      not (lt finish (min_instant step.observed_before step.observed_after))
      && not (lt (max_instant step.observed_before step.observed_after) from)

  abbrev pub stepped : List (ClockStep Instant) → Option Instant → Option Instant → Bool
  stepped steps none from = false
  stepped steps (some finish) none = false
  stepped steps (some finish) (some from) = some_of (step_overlaps from finish) steps

  -- `flag_clock`, of one entry
  unfoldable pub flag_entry :
      List ℕ → List (ClockStep Instant) → Option Instant → ResultEntry Instant → ResultEntry Instant
  flag_entry untrusted steps gun e =
      let flags =
        push_if (some_of (contains untrusted) e.timing_events) untrusted_device_clock e.flags in
      record e {
        flags =
            push_if (stepped steps e.finish_at (earliest gun e.start_at)) clock_step_during_result
              flags;
      }

  unfoldable pub flag_clock :
      List ℕ
      → List (ClockStep Instant)
      → Option Instant
      → List (ResultEntry Instant)
      → List (ResultEntry Instant)
  flag_clock untrusted steps gun entries = map (flag_entry untrusted steps gun) entries
