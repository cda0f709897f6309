-- ===== src/Domain/Gap/Watch.antt =====
-- What the checks of crates/splitforge-domain/src/gap.rs make of a gap.
use splitforge.Prelude.{
  ℕ, Bool, true, false, not, ◌&&◌, ◌==◌, leb, ◌*◌, ◌+◌, ◌^◌, ◌≡◌, arith, inl, ◌⊎◌, some,
  if◌then◌else◌,
}
use splitforge.Prelude.Int.{ℤ, pos, negsuc, ◌-ℤ◌, ◌≤ℤ◌}
use splitforge.Domain.Time.{TimeApi, truncated_millis}
use splitforge.Domain.Gap.{
  HeartbeatVerdict, idle_heartbeat, open_heartbeat, close_heartbeat, assess_heartbeat,
  SilenceVerdict, idle_silence, open_silence, close_silence, assess_silence, ReaderGap, duration_ms,
  u64_or_zero,
}

-- Whether a gap is open after a verdict.
abbrev pub heartbeat_open : HeartbeatVerdict → Bool → Bool
heartbeat_open idle_heartbeat was = was
heartbeat_open open_heartbeat was = true
heartbeat_open close_heartbeat was = false

abbrev pub silence_open : SilenceVerdict → Bool → Bool
silence_open idle_silence was = was
silence_open open_silence was = true
silence_open close_silence was = false

-- Whatever was open before, the heartbeat check leaves a gap open exactly if it is on, the reader was
-- heard and has been quiet for the threshold or longer. The silence check leaves things as they were
-- if it is off or no race runs, and otherwise a gap open exactly if nothing was read for that long.
pub assess_open :
    (threshold_ms : ℕ) (armed : Bool) (quiet_ms : ℕ) (was : Bool)
    → (heartbeat_open (assess_heartbeat threshold_ms armed quiet_ms was) was
        ≡ (not (threshold_ms == 0) && armed && leb threshold_ms quiet_ms))
      × (silence_open (assess_silence threshold_ms armed quiet_ms) was
          ≡ (if not (threshold_ms == 0) && armed then leb threshold_ms quiet_ms else was))
unfolding assess_heartbeat assess_silence
assess_open threshold_ms armed quiet_ms was = (ground arith, ground arith)

module _ (T : TimeApi) where
  -- A gap that ended has a duration of the whole milliseconds between its ends by the wall clock, when
  -- it lasted 2 ^ 63 nanoseconds at most: zero if the clock at its end stands before its start.
  pub duration_ms-nanos :
      (g : ReaderGap T.Instant) (ended : T.Instant)
      → g.ended_at ≡ some ended
      → T.nanos ended -ℤ T.nanos g.started_at ≤ℤ pos (2 ^ 63)
      → (d : ℕ) × (duration_ms T g ≡ some d)
        × (T.nanos ended -ℤ T.nanos g.started_at ≤ℤ pos (d * 1_000_000 + 999_999))
        × ((d ≡ 0) ⊎ (pos (d * 1_000_000) ≤ℤ T.nanos ended -ℤ T.nanos g.started_at))
  unfolding duration_ms
  duration_ms-nanos g ended e h =
      let nanos = T.nanos ended -ℤ T.nanos g.started_at in
      (
        u64_or_zero (truncated_millis nanos),
        (rw (e, T.millis_between_nanos g.started_at ended)),
        bounded nanos h,
        below nanos,
      )
    where
      bounded :
          (n : ℤ)
          → n ≤ℤ pos (2 ^ 63)
          → n ≤ℤ pos (u64_or_zero (truncated_millis n) * 1_000_000 + 999_999)
      bounded (pos n) h = ground arith
      bounded (negsuc n) h = omega arith

      below :
          (n : ℤ)
          → (u64_or_zero (truncated_millis n) ≡ 0)
            ⊎ (pos (u64_or_zero (truncated_millis n) * 1_000_000) ≤ℤ n)
      below (pos n) = ground arith
      below (negsuc n) = inl (ground arith)
