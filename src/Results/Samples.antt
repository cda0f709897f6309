-- ===== src/Results/Samples.antt =====
-- Small races scored by the definitions of crates/splitforge-results/src/lib.rs.
use splitforge.Prelude.{
  ℕ, ◌+◌, ◌≤◌, List, [], ◌∷◌, ◌++◌, map, none, some, true, ok, ◌≡◌, refl, arith, ltb, ◌==◌,
}
use splitforge.Prelude.Int.{ℤ, pos, ◌≤ℤ◌, ◌-ℤ◌}
use splitforge.Prelude.Map.{get, sort_by, insert_sorted}
use splitforge.Domain.Outcome.{
  ResultEntry, finished, dnf, dq, derived, StatusDeclaration, gun_policy,
}
use splitforge.Domain.Samples.{nanos_api, crossing_at, course, runner}
use splitforge.Results.Evidence.{
  Crossings, no_crossings, of_kind, sole_of, sole_checkpoint, latest_declarations, manual_flags,
  is_manual,
}
use splitforge.Results.Evidence.Latest.{latest_declarations-highest}
use splitforge.Results.Entry.{
  elapsed_ms, start_of, choose_time, refuse_negative, evidence_flags, scoring, build_entry,
}
use splitforge.Results.Entry.Times.{IsMeasuredFrom, build_entry-scoring_time}
use splitforge.Results.Ranking.{assign_places}
use splitforge.Results.Ranking.Places.{assign_places-ranked}
use splitforge.Results.Ranking.Writes.{ranked}
use splitforge.Results.Score.{ScoringInput, line, score}
use splitforge.Results.Score.Sheet.{count, score-ranked}

abbrev timed : ℕ → ℕ → ResultEntry ℤ
timed id ms = record {
  participant = id;
  bib = (48 + id) ∷ [];
  name = [];
  status = finished;
  status_source = derived;
  status_reason = none;
  start_at = none;
  finish_at = none;
  gun_time_ms = none;
  chip_time_ms = none;
  scoring_time_ms = some (pos ms);
  place = none;
  flags = [];
  timing_events = [];
}

abbrev tied : List (ResultEntry ℤ)
tied = timed 1 900 ∷ timed 2 700 ∷ record (timed 3 100) { status = dnf } ∷ timed 4 700 ∷ []

assign_places-ranked_example : assign_places tied ≡ map (ranked tied) tied
assign_places-ranked_example = assign_places-ranked tied (omega arith)

abbrev finish_only : Crossings ℤ
finish_only = record no_crossings { counted = some (crossing_at 5 1 2 61_500) }

build_entry-scoring_time_example :
    (pos 0 ≤ℤ pos 61_500)
    × ((from to : ℤ) × IsMeasuredFrom nanos_api no_crossings (gun_policy (some (pos 0))) from
        × ((build_entry nanos_api
              (runner 1)
              no_crossings
              finish_only
              true
              none
              (gun_policy (some (pos 0)))).finish_at
            ≡ some to)
        × (elapsed_ms nanos_api from to ≡ pos 61_500))
unfolding build_entry scoring choose_time refuse_negative elapsed_ms evidence_flags start_of
    manual_flags is_manual ◌-ℤ◌
build_entry-scoring_time_example =
    build_entry-scoring_time nanos_api (runner 1) no_crossings finish_only true none
      (gun_policy (some (pos 0))) (pos 61_500) refl

abbrev declared : ℕ → ℕ → StatusDeclaration ℤ
declared seq participant = record {
  id = seq;
  seq = seq;
  race = 1;
  participant = participant;
  status = dq;
  reason = [];
  actor = [];
  declared_at = pos 0;
}

latest_declarations-highest_example :
    (last : StatusDeclaration ℤ) × (get ltb 7 (
        latest_declarations
          ((declared 3 7 ∷ declared 9 8 ∷ []) ++ declared 1 7 ∷ declared 2 7 ∷ [])
          [])
      ≡ some last)
    × (1 ≤ last.seq)
    × ((earlier later : List (StatusDeclaration ℤ)) × ((declared 3 7 ∷ declared 9 8 ∷ [])
            ++ declared 1 7 ∷ declared 2 7 ∷ []
          ≡ earlier ++ last ∷ later)
        × (last.participant ≡ 7))
latest_declarations-highest_example =
    latest_declarations-highest (declared 3 7 ∷ declared 9 8 ∷ []) (declared 2 7 ∷ [])
      (declared 1 7)

abbrev small_race : ScoringInput ℤ
small_race = record {
  participants = runner 1 ∷ runner 2 ∷ [];
  checkpoints = course;
  timing_events = crossing_at 1 1 2 61_500 ∷ crossing_at 2 2 2 60_000 ∷ [];
  declarations = [];
  policy = gun_policy (some (pos 0));
}

score-ranked_example :
    (sheet : List (ResultEntry ℤ)) × (score nanos_api small_race ≡ ok sheet)
    × (count (λ e. e.participant == 2) sheet
        ≡ count
            (λ e. e.participant == 2)
            (map
              (ranked (map (line nanos_api small_race 2 (some 1)) (runner 1 ∷ runner 2 ∷ [])))
              (map (line nanos_api small_race 2 (some 1)) (runner 1 ∷ runner 2 ∷ []))))
unfolding sole_checkpoint of_kind sole_of sort_by insert_sorted
score-ranked_example =
    score-ranked nanos_api small_race 2 (some 1) (λ e. e.participant == 2) refl refl refl
      (omega arith)
