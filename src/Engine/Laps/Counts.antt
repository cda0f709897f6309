-- ===== src/Engine/Laps/Counts.antt =====
-- The laps that `derive` of crates/splitforge-engine/src/lib.rs numbers.
use splitforge.Prelude.{
  ℕ, suc, ◌+◌, ◌-◌, ◌^◌, min, Bool, ◌&&◌, List, [], ◌∷◌, ◌++◌, Option, none, some, ◌==◌, ◌≡◌, ap,
  ◌∙◌, arith, length, get_elem?, if◌then◌else◌, Bool-cases, inl, inr,
}
use splitforge.Prelude.Map.{get, update}
use splitforge.Domain.Event.{UuidApi}
use splitforge.Engine.Laps.{Sighting, ltb_pair_of_ids, next_lap, event_of, number_laps}

abbrev is_same : ℕ × ℕ → ℕ × ℕ → Bool
is_same (a, b) (c, d) = (a == c) && (b == d)

-- What is held for a place is replaced there, and stays elsewhere.
get-update :
    (a b c d : ℕ) (m : List ((ℕ × ℕ) × ℕ))
    → get ltb_pair_of_ids (a, b) (update ltb_pair_of_ids (c, d) next_lap m) ≡ (
        if is_same (c, d) (a, b)
        then some (next_lap (get ltb_pair_of_ids (a, b) m))
        else get ltb_pair_of_ids (a, b) m)
unfolding get update
get-update a b c d [] = ground arith
get-update a b c d (((i, j), v) ∷ m) = let ih = get-update a b c d m in ground arith

abbrev held : Option ℕ → ℕ
held none = 0
held (some lap) = lap

next_lap-held : (o : Option ℕ) → next_lap o ≡ min (held o + 0 + 1) (2 ^ 16 - 1)
next_lap-held none = omega arith
next_lap-held (some lap) = omega arith

held-next_lap :
    (same : Bool) (o : Option ℕ) (k : ℕ)
    → min (held (if same then some (next_lap o) else o) + k + 1) (2 ^ 16 - 1)
      ≡ min (held o + (if same then suc k else k) + 1) (2 ^ 16 - 1)
held-next_lap same none k = ground arith
held-next_lap same (some lap) k = ground arith

module _ {I : Type 0} where
  abbrev place_of : Sighting I → ℕ × ℕ
  place_of s = (s.participant, s.checkpoint)

  -- How many of the sightings are on the race side, and of this participant at this checkpoint.
  abbrev pub passed : ℕ × ℕ → List (Sighting I) → ℕ
  passed place [] = 0
  passed place (s ∷ sources) =
      let rest = passed place sources in
      if s.race_side then (if is_same (place_of s) place then suc rest else rest) else rest

  number_laps-from :
      (U : UuidApi) (before : List (Sighting I)) (s : Sighting I) (after : List (Sighting I))
      (m : List ((ℕ × ℕ) × ℕ))
      → get_elem? (number_laps U (before ++ s ∷ after) m) (length before)
        ≡ some (
            event_of U s (
              if s.race_side
              then min
                  (held (get ltb_pair_of_ids (place_of s) m) + passed (place_of s) before + 1)
                  (2 ^ 16 - 1)
              else 0))
  unfolding number_laps event_of
  number_laps-from U [] s after m = elim (Bool-cases s.race_side) [
    | inl e ↦ rw e (
        ap (λ (n : ℕ). some (event_of U s n))
          (next_lap-held (get ltb_pair_of_ids (s.participant, s.checkpoint) m)))
    | inr e ↦ rw e
  ]
  number_laps-from U (x ∷ before) s after m = elim (Bool-cases x.race_side) [
    | inl e ↦ rw e (
        number_laps-from U before s after (update ltb_pair_of_ids (place_of x) next_lap m)
        ∙ ap (λ (n : ℕ). some (event_of U s (if s.race_side then n else 0)))
            (ap (λ (o : Option ℕ). min (held o + passed (place_of s) before + 1) (2 ^ 16 - 1))
                (get-update s.participant s.checkpoint x.participant x.checkpoint m)
              ∙ held-next_lap (is_same (place_of x) (place_of s))
                  (get ltb_pair_of_ids (place_of s) m) (passed (place_of s) before)))
    | inr e ↦ rw e (number_laps-from U before s after m)
  ]

  -- The event of a sighting has lap 0 if it is not on the race side. If it is, its lap is one more than
  -- the number of those before it on the race side of the same participant at the same checkpoint, up
  -- to the greatest `u16`.
  pub number_laps-passed :
      (U : UuidApi) (before : List (Sighting I)) (s : Sighting I) (after : List (Sighting I))
      → get_elem? (number_laps U (before ++ s ∷ after) []) (length before)
        ≡ some (
            event_of U s (
              if s.race_side
              then min (passed (s.participant, s.checkpoint) before + 1) (2 ^ 16 - 1)
              else 0))
  unfolding get
  number_laps-passed U before s after =
      number_laps-from U before s after []
      ∙ ap (λ (n : ℕ). some (event_of U s (if s.race_side then min n (2 ^ 16 - 1) else 0)))
          (omega arith)
