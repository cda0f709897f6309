-- ===== src/Results/Clock/Samples.antt =====
-- Lines under a clock that stepped, for crates/splitforge-results/src/clock.rs.
use splitforge.Prelude.{ℕ, List, [], ◌∷◌, none, some, ◌≡◌, refl}
use splitforge.Prelude.Int.{ℤ, pos}
use splitforge.Domain.Samples.{nanos_api}
use splitforge.Domain.Clock.{ClockStep}
use splitforge.Domain.Outcome.{
  ResultEntry, finished, derived, untrusted_device_clock, clock_step_during_result,
}
use splitforge.Results.Clock.{flag_clock, flag_entry}
use splitforge.Results.Clock.Noted.{Noted, flag_clock-Noted}

abbrev line_of : ℕ → ℕ → ℕ → ResultEntry ℤ
line_of id event finish = record {
  participant = id;
  bib = [];
  name = [];
  status = finished;
  status_source = derived;
  status_reason = none;
  start_at = none;
  finish_at = some (pos finish);
  gun_time_ms = none;
  chip_time_ms = none;
  scoring_time_ms = none;
  place = none;
  flags = [];
  timing_events = event ∷ [];
}

abbrev lines : List (ResultEntry ℤ)
lines = line_of 1 10 50 ∷ line_of 2 20 200 ∷ []

abbrev jump : ClockStep ℤ
jump = record {
  observed_before = pos 100;
  observed_after = pos 110;
  monotonic_ms = 10;
  step_ms = pos 400;
}

flag_clock-lines :
    flag_clock nanos_api (10 ∷ []) (jump ∷ []) (some (pos 0)) lines
    ≡ record (line_of 1 10 50) { flags = untrusted_device_clock ∷ [] }
      ∷ record (line_of 2 20 200) { flags = clock_step_during_result ∷ [] }
      ∷ []
unfolding flag_clock flag_entry
flag_clock-lines = refl

flag_clock-Noted_example :
    Noted nanos_api
      (10 ∷ [])
      (jump ∷ [])
      (some (pos 0))
      lines
      (flag_clock nanos_api (10 ∷ []) (jump ∷ []) (some (pos 0)) lines)
flag_clock-Noted_example = flag_clock-Noted nanos_api (10 ∷ []) (jump ∷ []) (some (pos 0)) lines
