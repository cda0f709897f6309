-- ===== src/Domain/Gap/Samples.antt =====
-- Runs of crates/splitforge-domain/src/clock.rs and gap.rs, and their theorems at these inputs.
use splitforge.Prelude.{none, some, ◌≡◌, ◌<◌, ◌⊎◌, arith}
use splitforge.Prelude.Int.{ℤ, pos, ◌-ℤ◌}
use splitforge.Domain.Samples.{nanos_api}
use splitforge.Domain.Clock.{detect, ClockStep, unsigned_abs}
use splitforge.Domain.Clock.Exact.{detect-IsStepOf, IsStepOf}

-- Ten seconds pass, and the wall clock goes back by one.
detect-IsStepOf_example :
    (let difference = (pos 19_000_000_000 -ℤ pos 20_000_000_000) -ℤ pos 10_000_000_000 in
      ((detect nanos_api (pos 20_000_000_000) (pos 19_000_000_000) 10_000 ≡ none)
        × (unsigned_abs difference < 251_000_000))
      ⊎ ((s : ClockStep ℤ) × (detect nanos_api (pos 20_000_000_000) (pos 19_000_000_000) 10_000
            ≡ some s)
          × (s.observed_before ≡ pos 20_000_000_000)
          × (s.observed_after ≡ pos 19_000_000_000)
          × (s.monotonic_ms ≡ 10_000)
          × (250_000_000 < unsigned_abs difference)
          × IsStepOf s.step_ms difference))
unfolding ◌-ℤ◌
detect-IsStepOf_example =
    detect-IsStepOf nanos_api (pos 20_000_000_000) (pos 19_000_000_000) 10_000 (omega arith)
