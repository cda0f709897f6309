-- ===== src/Domain/Clock.antt =====
-- crates/splitforge-domain/src/clock.rs: jumps of the device's clock.
pub mod Exact
use splitforge.Prelude.{ℕ, suc, Bool, Option, none, some, ltb, leb, if◌then◌else◌}
use splitforge.Prelude.Int.{ℤ, pos, negsuc, ◌-ℤ◌, ltb_ℤ}
use splitforge.Domain.Time.{TimeApi, i64_max, i64_or_max}

abbrev pub step_threshold_ms : ℕ
step_threshold_ms = 250

abbrev pub sample_interval_ms : ℕ
sample_interval_ms = 10_000

pub record ClockStep (I : Type 0) : Type 0 where
  pub observed_before : I
  pub observed_after : I
  pub monotonic_ms : ℕ
  pub step_ms : ℤ

pub record StoredClockStep (I : Type 0) : Type 0 where
  pub seq : ℕ
  pub recorded_at : I
  pub step : ClockStep I

-- The nearest `i64`.
abbrev pub saturated : ℤ → ℤ
saturated (pos n) = if leb n i64_max then pos n else pos i64_max
saturated (negsuc n) = if leb n i64_max then negsuc n else negsuc i64_max

-- `i64::saturating_sub`
abbrev pub saturating_sub : ℤ → ℤ → ℤ
saturating_sub a b = saturated (a -ℤ b)

-- `unsigned_abs`
abbrev pub unsigned_abs : ℤ → ℕ
unsigned_abs (pos n) = n
unsigned_abs (negsuc n) = suc n

-- `i64::saturating_abs`
abbrev pub saturating_abs : ℤ → ℤ
saturating_abs a = saturated (pos (unsigned_abs a))

module _ (T : TimeApi) where
  abbrev Instant : Type 0
  Instant = T.Instant

  unfoldable pub detect : Instant → Instant → ℕ → Option (ClockStep Instant)
  detect observed_before observed_after monotonic_ms =
      let wall_ms = i64_or_max (T.millis_between observed_before observed_after) in
      let monotonic = i64_or_max (pos monotonic_ms) in
      let step_ms = saturating_sub wall_ms monotonic in
      if ltb_ℤ (pos step_threshold_ms) (saturating_abs step_ms)
      then some (record {
        observed_before = observed_before;
        observed_after = observed_after;
        monotonic_ms = monotonic_ms;
        step_ms = step_ms;
      })
      else none

abbrev pub is_backward : {I : Type 0} → ClockStep I → Bool
is_backward s = ltb_ℤ s.step_ms (pos 0)

abbrev pub magnitude_ms : {I : Type 0} → ClockStep I → ℕ
magnitude_ms s = unsigned_abs s.step_ms
