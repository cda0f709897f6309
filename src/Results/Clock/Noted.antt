-- ===== src/Results/Clock/Noted.antt =====
-- What crates/splitforge-results/src/clock.rs adds to a line, and when.
use splitforge.Prelude.{
  ℕ, Bool, true, false, not, ◌&&◌, ◌==◌, List, [], ◌∷◌, Option, none, some, ◌≡◌, refl, arith,
  Bool-cases, ==_iff, inl, inr, ◌⊎◌, ◌↔◌, sym, ◌∙◌,
}
use splitforge.Prelude.Int.{ℤ, ◌≤ℤ◌, ltb_ℤ}
use splitforge.Domain.Time.{TimeApi}
use splitforge.Domain.Clock.{ClockStep}
use splitforge.Domain.Outcome.{ResultEntry, untrusted_device_clock, clock_step_during_result}
use splitforge.Results.Entry.{push_if}
use splitforge.Results.Clock.{
  some_of, contains, earliest, step_overlaps, stepped, flag_entry, flag_clock,
}

abbrev pub Any : {A : Type 0} → (A → Type 0) → List A → Type 0
Any P [] = ⊥
Any P (x ∷ xs) = P x ⊎ Any P xs

some_of_iff :
    {A : Type 0} (test : A → Bool) (P : A → Type 0) (xs : List A)
    → ((x : A) → (test x ≡ true) ↔ P x)
    → (some_of test xs ≡ true) ↔ Any P xs
some_of_iff test P [] h = (λ e. cc, λ e. absurd e)
some_of_iff test P (x ∷ xs) h =
    let (to, from) = h x in
    let (all_to, all_from) = some_of_iff test P xs h in
    elim (Bool-cases (test x)) [
      | inl t ↦ rw t (λ e. inl (to t), λ e. refl)
      | inr f ↦ rw f (
        λ e. inr (all_to e),
        λ e. elim e [ inl p ↦ absurd (differ f (from p)) | inr q ↦ all_from q ],
      )
    ]
  where
    differ : {b : Bool} → b ≡ false → b ≡ true → ⊥
    differ h k = cc

module _ (T : TimeApi) where
  -- Not after, by the nanoseconds that instants count.
  abbrev pub NotAfter : T.Instant → T.Instant → Type 0
  NotAfter a b = T.nanos a ≤ℤ T.nanos b

  -- A step was seen from not after the finish to not before a time.
  abbrev pub Crosses : T.Instant → T.Instant → ClockStep T.Instant → Type 0
  Crosses from finish step =
      (NotAfter step.observed_before finish ⊎ NotAfter step.observed_after finish)
      × (NotAfter from step.observed_before ⊎ NotAfter from step.observed_after)

  step_overlaps_iff :
      (from finish : T.Instant) (step : ClockStep T.Instant)
      → (step_overlaps T from finish step ≡ true) ↔ Crosses from finish step
  step_overlaps_iff from finish step =
      let a = step.observed_before in
      let b = step.observed_after in
      elim (Bool-cases (ltb_ℤ (T.nanos b) (T.nanos a))) [
        | inl e ↦
            rw (T.lt_nanos b a, e, T.lt_nanos finish b, T.lt_nanos a from)
              (crosses_back (T.nanos a) (T.nanos b) (T.nanos finish) (T.nanos from) e)
        | inr e ↦
            rw (T.lt_nanos b a, e, T.lt_nanos finish a, T.lt_nanos b from)
              (crosses_on (T.nanos a) (T.nanos b) (T.nanos finish) (T.nanos from) e)
      ]
    where
      crosses_back :
          (a b f g : ℤ)
          → ltb_ℤ b a ≡ true
          → ((not (ltb_ℤ f b) && not (ltb_ℤ a g)) ≡ true)
            ↔ (((a ≤ℤ f) ⊎ (b ≤ℤ f)) × ((g ≤ℤ a) ⊎ (g ≤ℤ b)))
      crosses_back a b f g e =
          (λ h. (inr (ground arith), inl (ground arith)), λ (p, q). ground arith)

      crosses_on :
          (a b f g : ℤ)
          → ltb_ℤ b a ≡ false
          → ((not (ltb_ℤ f a) && not (ltb_ℤ b g)) ≡ true)
            ↔ (((a ≤ℤ f) ⊎ (b ≤ℤ f)) × ((g ≤ℤ a) ⊎ (g ≤ℤ b)))
      crosses_on a b f g e = (λ h. (inl (ground arith), inr (ground arith)), λ (p, q). ground arith)

  -- A step was seen not before a time, if there is one.
  abbrev pub Since : Option T.Instant → ClockStep T.Instant → Type 0
  Since none step = ⊥
  Since (some from) step = NotAfter from step.observed_before ⊎ NotAfter from step.observed_after

  -- A step was seen not after the finish, and not before the gun or not before the start.
  abbrev pub IsDuring :
      T.Instant → Option T.Instant → Option T.Instant → ClockStep T.Instant → Type 0
  IsDuring finish gun start step =
      (NotAfter step.observed_before finish ⊎ NotAfter step.observed_after finish)
      × (Since gun step ⊎ Since start step)

  abbrev pub IsStepped :
      List (ClockStep T.Instant) → Option T.Instant → Option T.Instant → Option T.Instant → Type 0
  IsStepped steps none gun start = ⊥
  IsStepped steps (some finish) gun start = Any (IsDuring finish gun start) steps

  none_during :
      (finish : T.Instant) (steps : List (ClockStep T.Instant))
      → Any (IsDuring finish none none) steps
      → ⊥
  none_during finish [] h = h
  none_during finish (step ∷ steps) (inl (p, inl q)) = q
  none_during finish (step ∷ steps) (inl (p, inr q)) = q
  none_during finish (step ∷ steps) (inr h) = none_during finish steps h

  Since-NotAfter :
      (one later : T.Instant) (step : ClockStep T.Instant)
      → NotAfter one later
      → Since (some later) step
      → Since (some one) step
  Since-NotAfter one later step h (inl p) = inl (omega arith)
  Since-NotAfter one later step h (inr p) = inr (omega arith)

  stepped_iff :
      (steps : List (ClockStep T.Instant)) (finish gun start : Option T.Instant)
      → (stepped T steps finish (earliest T gun start) ≡ true) ↔ IsStepped steps finish gun start
  stepped_iff steps none gun start = (λ e. cc, λ e. absurd e)
  stepped_iff steps (some finish) none none = (λ e. cc, λ e. absurd (none_during finish steps e))
  stepped_iff steps (some finish) (some g) none =
      some_of_iff (step_overlaps T g finish) (IsDuring finish (some g) none) steps λ step.
        let (to, from) = step_overlaps_iff g finish step in
        (
          λ e. let (p, q) = to e in (p, inl q),
          λ (p, q). from (p, elim q [ inl r ↦ r | inr r ↦ absurd r ]),
        )
  stepped_iff steps (some finish) none (some s) =
      some_of_iff (step_overlaps T s finish) (IsDuring finish none (some s)) steps λ step.
        let (to, from) = step_overlaps_iff s finish step in
        (
          λ e. let (p, q) = to e in (p, inr q),
          λ (p, q). from (p, elim q [ inl r ↦ absurd r | inr r ↦ r ]),
        )
  stepped_iff steps (some finish) (some g) (some s) = elim (Bool-cases (T.lt s g)) [
    | inl e ↦ rw e (
        let order : NotAfter s g = lt_NotAfter e in
        some_of_iff (step_overlaps T s finish) (IsDuring finish (some g) (some s)) steps λ step.
          let (to, from) = step_overlaps_iff s finish step in
          (
            λ e. let (p, q) = to e in (p, inr q),
            λ (p, q). from (p, elim q [ inl r ↦ Since-NotAfter s g step order r | inr r ↦ r ]),
          ))
    | inr e ↦ rw e (
        let order : NotAfter g s = not_lt_NotAfter e in
        some_of_iff (step_overlaps T g finish) (IsDuring finish (some g) (some s)) steps λ step.
          let (to, from) = step_overlaps_iff g finish step in
          (
            λ e. let (p, q) = to e in (p, inl q),
            λ (p, q). from (p, elim q [ inl r ↦ r | inr r ↦ Since-NotAfter g s step order r ]),
          ))
  ]
    where
      below : (a b : ℤ) → ltb_ℤ a b ≡ true → a ≤ℤ b
      below a b h = ground arith

      above : (a b : ℤ) → ltb_ℤ a b ≡ false → b ≤ℤ a
      above a b h = ground arith

      lt_NotAfter : T.lt s g ≡ true → NotAfter s g
      lt_NotAfter e = below (T.nanos s) (T.nanos g) (sym (T.lt_nanos s g) ∙ e)

      not_lt_NotAfter : T.lt s g ≡ false → NotAfter g s
      not_lt_NotAfter e = above (T.nanos s) (T.nanos g) (sym (T.lt_nanos s g) ∙ e)

  -- Lines, and what became of them.
  abbrev pub Noted :
      List ℕ
      → List (ClockStep T.Instant)
      → Option T.Instant
      → List (ResultEntry T.Instant)
      → List (ResultEntry T.Instant)
      → Type 0
  Noted untrusted steps gun [] [] = Unit
  Noted untrusted steps gun [] (f ∷ after) = ⊥
  Noted untrusted steps gun (e ∷ entries) [] = ⊥
  Noted untrusted steps gun (e ∷ entries) (f ∷ after) =
      ((clock : Bool) × (step : Bool) × (f ≡ record e {
        flags =
            push_if step clock_step_during_result (push_if clock untrusted_device_clock e.flags);
      })
        × ((clock ≡ true)
            ↔ Any (λ (id : ℕ). Any (λ (other : ℕ). other ≡ id) untrusted) e.timing_events)
        × ((step ≡ true) ↔ IsStepped steps e.finish_at gun e.start_at))
      × Noted untrusted steps gun entries after

  -- flag_clock leaves every line as it is but for its flags, which it adds to: that the clock was
  -- untrusted exactly if an event of the line is one of the untrusted, and that the clock stepped
  -- exactly if a step was seen not after the finish and not before the gun or the start.
  pub flag_clock-Noted :
      (untrusted : List ℕ) (steps : List (ClockStep T.Instant)) (gun : Option T.Instant)
      (entries : List (ResultEntry T.Instant))
      → Noted untrusted steps gun entries (flag_clock T untrusted steps gun entries)
  unfolding flag_clock flag_entry
  flag_clock-Noted untrusted steps gun [] = tt
  flag_clock-Noted untrusted steps gun (e ∷ entries) = (
    (
      some_of (contains untrusted) e.timing_events,
      stepped T steps e.finish_at (earliest T gun e.start_at),
      refl,
      some_of_iff (contains untrusted) _ e.timing_events (λ id.
          some_of_iff (λ (other : ℕ). other == id) (λ (other : ℕ). other ≡ id) untrusted
            (λ other. ==_iff other id)),
      stepped_iff steps e.finish_at gun e.start_at,
    ),
    flag_clock-Noted untrusted steps gun entries,
  )
