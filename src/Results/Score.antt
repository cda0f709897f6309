-- ===== src/Results/Score.antt =====
-- crates/splitforge-results/src/lib.rs, `score`.
pub mod Sheet
use splitforge.Prelude.{
  ℕ, Bool, true, false, List, [], map, Option, none, some, ltb, Result, ok, err, if◌then◌else◌,
}
use splitforge.Prelude.Map.{get}
use splitforge.Domain.Time.{TimeApi}
use splitforge.Domain.Entity.{CheckpointKind, Checkpoint, Participant, start, finish}
use splitforge.Domain.Event.{TimingEvent}
use splitforge.Domain.Outcome.{StatusDeclaration, ScoringPolicy, ResultEntry, StartMode, gun, chip}
use splitforge.Results.Evidence.{
  ScoringError, no_finish_checkpoint, chip_time_without_start_checkpoint, Crossings, no_crossings,
  ltb_place, gather, starters, latest_declarations, sole_checkpoint,
}
use splitforge.Results.Entry.{build_entry, is_some}
use splitforge.Results.Ranking.{assign_places, sort_for_publication}

pub record ScoringInput (I : Type 0) : Type 0 where
  pub participants : List Participant
  pub checkpoints : List Checkpoint
  pub timing_events : List (TimingEvent I)
  pub declarations : List (StatusDeclaration I)
  pub policy : ScoringPolicy I

abbrev pub needs_start : StartMode → Option ℕ → Bool
needs_start gun at = false
needs_start chip none = true
needs_start chip (some at) = false

module _ (T : TimeApi) where
  open T use {Instant}

  -- `crossings.get(&(participant, checkpoint)).copied().unwrap_or_default()`
  unfoldable pub crossings_at : List ((ℕ × ℕ) × Crossings Instant) → ℕ → ℕ → Crossings Instant
  crossings_at crossings participant checkpoint =
      elim (get ltb_place (participant, checkpoint) crossings) [ none ↦ no_crossings | some c ↦ c ]

  unfoldable pub start_crossings :
      List ((ℕ × ℕ) × Crossings Instant) → ℕ → Option ℕ → Crossings Instant
  start_crossings crossings participant none = no_crossings
  start_crossings crossings participant (some at) = crossings_at crossings participant at

  -- One participant's line: the body of the closure that `score` maps over the roster.
  unfoldable pub line : ScoringInput Instant → ℕ → Option ℕ → Participant → ResultEntry Instant
  line input finish_line start_line p =
      let crossings = gather T input.timing_events input.policy.gun_time [] in
      let started = starters T input.timing_events input.policy.gun_time start_line [] in
      let declared = latest_declarations input.declarations [] in
      build_entry T p (start_crossings crossings p.id start_line)
        (crossings_at crossings p.id finish_line) (is_some (get ltb p.id started))
        (get ltb p.id declared) input.policy

  unfoldable pub score_course :
      ScoringInput Instant → ℕ → Option ℕ → Result (List (ResultEntry Instant)) ScoringError
  score_course input finish_line start_line = ok (
      sort_for_publication
        (assign_places (map (line input finish_line start_line) input.participants)))

  -- `score` behind its two searches. The first has to be done for the second to be, which the clauses
  -- say.
  unfoldable pub score_found :
      ScoringInput Instant
      → Result (Option ℕ) ScoringError
      → Result (Option ℕ) ScoringError
      → Result (List (ResultEntry Instant)) ScoringError
  score_found input (err e) start_line = err e
  score_found input (ok none) start_line = err no_finish_checkpoint
  score_found input (ok (some finish_line)) (err e) = err e
  score_found input (ok (some finish_line)) (ok start_line) =
      if needs_start input.policy.start_mode start_line
      then err chip_time_without_start_checkpoint
      else score_course input finish_line start_line

  unfoldable pub score : ScoringInput Instant → Result (List (ResultEntry Instant)) ScoringError
  score input =
      score_found input (sole_checkpoint input.checkpoints CheckpointKind.finish)
        (sole_checkpoint input.checkpoints CheckpointKind.start)
