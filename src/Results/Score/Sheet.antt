-- ===== src/Results/Score/Sheet.antt =====
-- The sheet that `score` of crates/splitforge-results/src/lib.rs gives back.
use splitforge.Prelude.{
  ℕ, suc, ◌^◌, ◌<◌, Bool, false, List, [], ◌∷◌, map, Option, some, ok, ◌≡◌, refl, ap, ◌∙◌, arith,
  length, if◌then◌else◌, Bool-cases, inl, inr,
}
use splitforge.Prelude.Map.{sort_by, insert_sorted}
use splitforge.Domain.Time.{TimeApi}
use splitforge.Domain.Entity.{CheckpointKind}
use splitforge.Domain.Outcome.{ResultEntry}
use splitforge.Results.Evidence.{sole_checkpoint}
use splitforge.Results.Ranking.{assign_places, sort_for_publication}
use splitforge.Results.Ranking.Places.{assign_places-ranked}
use splitforge.Results.Ranking.Writes.{ranked}
use splitforge.Results.Score.{ScoringInput, line, needs_start, score_course, score_found, score}

-- How many elements a test holds of.
abbrev pub count : {A : Type 0} → (A → Bool) → List A → ℕ
count test [] = 0
count test (x ∷ xs) = let rest = count test xs in if test x then suc rest else rest

swap_tests :
    (b c : Bool) (m n : ℕ)
    → n ≡ (if c then suc m else m)
    → (if b then suc n else n)
      ≡ (if c then suc (if b then suc m else m) else if b then suc m else m)
swap_tests b c m n h = ground arith

module _ {A : Type 0} (lt : A → A → Bool) (test : A → Bool) where
  count-insert_sorted :
      (x : A) (xs : List A) → count test (insert_sorted lt x xs) ≡ count test (x ∷ xs)
  unfolding insert_sorted
  count-insert_sorted x [] = refl
  count-insert_sorted x (y ∷ ys) = elim (Bool-cases (lt y x)) [
    | inl e ↦ rw e (
        swap_tests (test y) (test x) (count test ys) (count test (insert_sorted lt x ys))
          (count-insert_sorted x ys))
    | inr e ↦ rw e
  ]

  pub count-sort_by : (xs : List A) → count test (sort_by lt xs) ≡ count test xs
  unfolding sort_by
  count-sort_by [] = refl
  count-sort_by (x ∷ xs) =
      count-insert_sorted x (sort_by lt xs)
      ∙ ap (λ (n : ℕ). if test x then suc n else n) (count-sort_by xs)

length-map : {A B : Type 0} (f : A → B) (xs : List A) → length (map f xs) ≡ length xs
length-map f [] = refl
length-map f (x ∷ xs) = ap (λ (n : ℕ). suc n) (length-map f xs)

-- On a course with one finish and at most one start, one if chip times are asked for, and fewer than
-- 2 ^ 32 participants, `score` gives back a sheet. It has the line of every participant, once, with the place
-- that competition ranking gives it: each test holds of as many lines of the one as of the other.
pub score-ranked :
    (T : TimeApi) (input : ScoringInput T.Instant) (finish_line : ℕ) (start_line : Option ℕ)
    (test : ResultEntry T.Instant → Bool)
    → sole_checkpoint input.checkpoints CheckpointKind.finish ≡ ok (some finish_line)
    → sole_checkpoint input.checkpoints CheckpointKind.start ≡ ok start_line
    → needs_start input.policy.start_mode start_line ≡ false
    → length input.participants < 2 ^ 32
    → (sheet : List (ResultEntry T.Instant)) × (score T input ≡ ok sheet)
      × (count test sheet
          ≡ count test (
              map
                (ranked (map (line T input finish_line start_line) input.participants))
                (map (line T input finish_line start_line) input.participants)))
unfolding score score_found score_course sort_for_publication
score-ranked T input finish_line start_line test f s n h =
    let lines = map (line T input finish_line start_line) input.participants in
    (
      sort_for_publication (assign_places lines),
      rw (f, s, n),
      count-sort_by _ test (assign_places lines)
          ∙ ap (count test) (
              assign_places-ranked lines (
                omega
                  (arith, length-map (line T input finish_line start_line) input.participants))),
    )
