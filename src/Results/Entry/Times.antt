-- ===== src/Results/Entry/Times.antt =====
-- The time that `build_entry` of crates/splitforge-results/src/lib.rs scores by.
use splitforge.Prelude.{
  Bool, true, false, List, Option, none, some, ◌≡◌, refl, ap, subst, ◌⊎◌, inl, inr, arith,
  Bool-cases,
}
use splitforge.Prelude.Int.{ℤ, pos, ◌≤ℤ◌, ltb_ℤ}
use splitforge.Domain.Time.{TimeApi}
use splitforge.Domain.Entity.{Participant}
use splitforge.Domain.Outcome.{StartMode, gun, chip, ResultFlag, StatusDeclaration, ScoringPolicy}
use splitforge.Results.Evidence.{Crossings}
use splitforge.Results.Entry.{
  zip_map, choose_time, refuse_negative, elapsed_ms, start_of, scoring, build_entry,
}

none-some : {A : Type 0} {a : A} → none ≡ some a → ⊥
none-some h = cc

some_inj : {A : Type 0} {a b : A} → some a ≡ some b → a ≡ b
some_inj h = cc

nonneg_of_test : (m : ℤ) → ltb_ℤ m (pos 0) ≡ false → pos 0 ≤ℤ m
nonneg_of_test m h = ground arith

refuse_negative_lem :
    (r : Option ℤ × List ResultFlag) (ms : ℤ)
    → (refuse_negative r).0 ≡ some ms
    → (r.0 ≡ some ms) × (pos 0 ≤ℤ ms)
unfolding refuse_negative
refuse_negative_lem (none, flags) ms h = absurd cc
refuse_negative_lem (some m, flags) ms h = elim (Bool-cases (ltb_ℤ m (pos 0))) [
  | inl e ↦ absurd (none-some (rw e at h))
  | inr e ↦
      let q = some_inj (rw e at h) in
      (ap some q, subst (λ (n : ℤ). pos 0 ≤ℤ n) q (nonneg_of_test m e))
]

choose_time_lem :
    (mode : StartMode) (has : Bool) (by_gun by_chip : Option ℤ) (flags : List ResultFlag) (ms : ℤ)
    → (choose_time mode has by_gun by_chip flags).0 ≡ some ms
    → (has ≡ true) × ((by_gun ≡ some ms) ⊎ (by_chip ≡ some ms))
unfolding choose_time
choose_time_lem mode false by_gun by_chip flags ms h = absurd (none-some h)
choose_time_lem gun true by_gun by_chip flags ms h = (refl, inl h)
choose_time_lem chip true by_gun (some n) flags ms h = (refl, inr h)
choose_time_lem chip true by_gun none flags ms h = (refl, inl h)

zip_map_lem :
    {A B C : Type 0} (f : A → B → C) (a : Option A) (b : Option B) (c : C)
    → zip_map f a b ≡ some c
    → (x : A) × (y : B) × (a ≡ some x) × (b ≡ some y) × (f x y ≡ c)
zip_map_lem f (some x) (some y) c h = (x, y, refl, refl, some_inj h)
zip_map_lem f (some x) none c h = absurd (none-some h)
zip_map_lem f none b c h = absurd (none-some h)

-- The instants that a time may be measured from: the gun's, or the one of the start.
abbrev pub IsMeasuredFrom :
    (T : TimeApi) → Crossings T.Instant → ScoringPolicy T.Instant → T.Instant → Type 0
IsMeasuredFrom T at_start policy from =
    (policy.gun_time ≡ some from) ⊎ ((start_of T at_start policy.gun_time).start_at ≡ some from)

-- A time that a line is ranked by is not negative: it is the time from the gun, or from the start of
-- the participant, to the finish that the line shows.
pub build_entry-scoring_time :
    (T : TimeApi) (p : Participant) (at_start at_finish : Crossings T.Instant) (started : Bool)
    (declaration : Option (StatusDeclaration T.Instant)) (policy : ScoringPolicy T.Instant) (ms : ℤ)
    → (build_entry T p at_start at_finish started declaration policy).scoring_time_ms ≡ some ms
    → (pos 0 ≤ℤ ms)
      × ((from to : T.Instant) × IsMeasuredFrom T at_start policy from
          × ((build_entry T p at_start at_finish started declaration policy).finish_at ≡ some to)
          × (elapsed_ms T from to ≡ ms))
unfolding build_entry scoring
build_entry-scoring_time T p at_start at_finish started declaration policy ms h =
    let (q, nonneg) = refuse_negative_lem _ ms h in
    let (has, source) = choose_time_lem _ _ _ _ _ ms q in
    elim source [
      | inl g ↦
          let (from, to, a, b, c) = zip_map_lem (elapsed_ms T) _ _ ms g in
          (nonneg, (from, to, inl a, b, c))
      | inr g ↦
          let (from, to, a, b, c) = zip_map_lem (elapsed_ms T) _ _ ms g in
          (nonneg, (from, to, inr a, b, c))
    ]
