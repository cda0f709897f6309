-- ===== src/Domain/Clock/Exact.antt =====
-- The jumps that crates/splitforge-domain/src/clock.rs reports, in exact nanoseconds.
use splitforge.Prelude.{
  ℕ, ◌^◌, ◌<◌, ◌≤◌, ◌*◌, ◌+◌, ◌⊎◌, true, false, none, some, ltb, ◌≡◌, arith, ap, sym, subst, ◌∙◌,
  inl, inr, Bool-cases, refl,
}
use splitforge.Prelude.Int.{ℤ, pos, negsuc, ◌-ℤ◌, ltb_ℤ}
use splitforge.Domain.Time.{TimeApi, i64_or_max, truncated_millis}
use splitforge.Domain.Clock.{ClockStep, detect, saturating_sub, saturating_abs, unsigned_abs}

i64_or_max-small : (a : ℤ) → unsigned_abs a < 2 ^ 62 → i64_or_max a ≡ a
i64_or_max-small (pos n) h = ground arith
i64_or_max-small (negsuc n) h = ground arith

exceeds-unsigned_abs : (a : ℤ) → ltb_ℤ (pos 250) (saturating_abs a) ≡ ltb 250 (unsigned_abs a)
exceeds-unsigned_abs a = ground arith

-- A difference of milliseconds that is too small for an `i64`
abbrev IsFar : ℤ → ℤ → Type 0
IsFar step exact =
    (2 ^ 62 ≤ unsigned_abs step)
    × (unsigned_abs step ≤ unsigned_abs exact)
    × (ltb_ℤ step (pos 0) ≡ true)
    × (ltb_ℤ exact (pos 0) ≡ true)

saturating_sub-cases :
    (t : ℤ) (m : ℕ)
    → unsigned_abs t < 2 ^ 62
    → (saturating_sub t (i64_or_max (pos m)) ≡ t -ℤ pos m)
      ⊎ IsFar (saturating_sub t (i64_or_max (pos m))) (t -ℤ pos m)
unfolding ◌-ℤ◌
saturating_sub-cases (pos n) m h = ground arith
saturating_sub-cases (negsuc n) m h = ground arith

truncated-small :
    (w : ℤ) → unsigned_abs w < 2 ^ 62 * 1_000_000 → unsigned_abs (truncated_millis w) < 2 ^ 62
truncated-small (pos n) h = ground arith
truncated-small (negsuc n) h = ground arith

-- The difference of the whole milliseconds is that of the nanoseconds, to less than a millisecond.
truncated-near :
    (w : ℤ) (m : ℕ)
    → (unsigned_abs (w -ℤ pos (m * 1_000_000))
        < (unsigned_abs (truncated_millis w -ℤ pos m) + 1) * 1_000_000)
      × (unsigned_abs (truncated_millis w -ℤ pos m) * 1_000_000
          < unsigned_abs (w -ℤ pos (m * 1_000_000)) + 1_000_000)
unfolding ◌-ℤ◌
truncated-near (pos n) m = (ground arith, ground arith)
truncated-near (negsuc n) m = (ground arith, ground arith)

-- If it is not zero, it has the sign of the nanoseconds.
truncated-sign :
    (w : ℤ) (m : ℕ)
    → 0 < unsigned_abs (truncated_millis w -ℤ pos m)
    → ltb_ℤ (truncated_millis w -ℤ pos m) (pos 0) ≡ ltb_ℤ (w -ℤ pos (m * 1_000_000)) (pos 0)
unfolding ◌-ℤ◌
truncated-sign (pos n) m h = ground arith
truncated-sign (negsuc n) m h = ground arith

truncated-beyond :
    (w : ℤ) (m : ℕ)
    → 250 < unsigned_abs (truncated_millis w -ℤ pos m)
    → 250 * 1_000_000 < unsigned_abs (w -ℤ pos (m * 1_000_000))
unfolding ◌-ℤ◌
truncated-beyond (pos n) m h = ground arith
truncated-beyond (negsuc n) m h = ground arith

-- What a step in milliseconds is of a difference in nanoseconds: it has its sign, it is not a
-- millisecond more and, if it is below 2 ^ 62 milliseconds, not a millisecond less.
abbrev pub IsStepOf : ℤ → ℤ → Type 0
IsStepOf step difference =
    (ltb_ℤ step (pos 0) ≡ ltb_ℤ difference (pos 0))
    × (unsigned_abs step * 1_000_000 < unsigned_abs difference + 1_000_000)
    × ((unsigned_abs difference < (unsigned_abs step + 1) * 1_000_000)
        ⊎ (2 ^ 62 ≤ unsigned_abs step))

abbrev Steps : ℤ → ℕ → ℤ → Type 0
Steps w m step =
    (ltb 250 (unsigned_abs step) ≡ true
      → (250_000_000 < unsigned_abs (w -ℤ pos (m * 1_000_000)))
        × IsStepOf step (w -ℤ pos (m * 1_000_000)))
    × (ltb 250 (unsigned_abs step) ≡ false → unsigned_abs (w -ℤ pos (m * 1_000_000)) < 251_000_000)

exact-Steps : (w : ℤ) (m : ℕ) → Steps w m (truncated_millis w -ℤ pos m)
exact-Steps w m =
    let (below, above) = truncated-near w m in
    (
      λ h. (
        truncated-beyond w m (ground arith),
        (truncated-sign w m (ground arith), above, inl below),
      ),
      λ h. ground (arith, below),
    )

far-Steps : (w : ℤ) (m : ℕ) (step : ℤ) → IsFar step (truncated_millis w -ℤ pos m) → Steps w m step
far-Steps w m step (l, u, n, e) =
    let (below, above) = truncated-near w m in
    let sign = truncated-sign w m (omega arith) in
    (
      λ h. (truncated-beyond w m (omega arith), (n ∙ sym e ∙ sign, omega arith, inr l)),
      λ h. absurd (ground (arith, h, l)),
    )

step-Steps :
    (w : ℤ) (m : ℕ)
    → unsigned_abs w < 2 ^ 62 * 1_000_000
    → Steps w m (saturating_sub (truncated_millis w) (i64_or_max (pos m)))
step-Steps w m h = elim (saturating_sub-cases (truncated_millis w) m (truncated-small w h)) [
  | inl e ↦ subst (Steps w m) (sym e) (exact-Steps w m)
  | inr far ↦ far-Steps w m (saturating_sub (truncated_millis w) (i64_or_max (pos m))) far
]

module _ (T : TimeApi) where
  -- Between two samples whose wall clock moved by less than 2 ^ 62 milliseconds either way, and for any
  -- number of milliseconds of the monotonic clock: if no step is reported, the two clocks moved by
  -- less than 251 milliseconds differently, in nanoseconds; if one is, it is of the two samples, the
  -- clocks moved by more than 250 milliseconds differently, and its `step_ms` has the sign of wall
  -- less monotonic, is less than a millisecond larger than that and, if it is below 2 ^ 62, less than
  -- a millisecond smaller.
  pub detect-IsStepOf :
      (before after : T.Instant) (monotonic_ms : ℕ)
      → unsigned_abs (T.nanos after -ℤ T.nanos before) < 2 ^ 62 * 1_000_000
      → (let difference = (T.nanos after -ℤ T.nanos before) -ℤ pos (monotonic_ms * 1_000_000) in
          ((detect T before after monotonic_ms ≡ none) × (unsigned_abs difference < 251_000_000))
          ⊎ ((s : ClockStep T.Instant) × (detect T before after monotonic_ms ≡ some s)
              × (s.observed_before ≡ before)
              × (s.observed_after ≡ after)
              × (s.monotonic_ms ≡ monotonic_ms)
              × (250_000_000 < unsigned_abs difference)
              × IsStepOf s.step_ms difference))
  unfolding detect
  detect-IsStepOf before after m h =
      let w = T.nanos after -ℤ T.nanos before in
      let step = saturating_sub (i64_or_max (T.millis_between before after)) (i64_or_max (pos m)) in
      let same : step ≡ saturating_sub (truncated_millis w) (i64_or_max (pos m)) =
        ap (λ (a : ℤ). saturating_sub (i64_or_max a) (i64_or_max (pos m)))
          (T.millis_between_nanos before after)
        ∙ ap (λ (a : ℤ). saturating_sub a (i64_or_max (pos m)))
            (i64_or_max-small (truncated_millis w) (truncated-small w h)) in
      let (more, less) = subst (Steps w m) (sym same) (step-Steps w m h) in
      elim (Bool-cases (ltb 250 (unsigned_abs step))) [
        | inl far ↦
            let (beyond, step_of) = more far in
            inr (
              record {
                observed_before = before;
                observed_after = after;
                monotonic_ms = m;
                step_ms = step;
              },
              (rw (exceeds-unsigned_abs step, far)),
              refl,
              refl,
              refl,
              beyond,
              step_of,
            )
        | inr near ↦ inl ((rw (exceeds-unsigned_abs step, near)), less near)
      ]
