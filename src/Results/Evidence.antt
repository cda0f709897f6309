-- ===== src/Results/Evidence.antt =====
-- crates/splitforge-results/src/lib.rs, what `score` gathers before it writes a line: the crossings of
-- a checkpoint, the checkpoint of a kind and the declarations in force.
pub mod Latest
use splitforge.Prelude.{
  ℕ, Bool, true, false, not, ◌&&◌, List, [], ◌∷◌, ◌++◌, Option, none, some, length, ltb, ◌==◌,
  if◌then◌else◌, Result, ok, err,
}
use splitforge.Prelude.Map.{get, update, sort_by, ltb_pair}
use splitforge.Domain.Time.{TimeApi}
use splitforge.Domain.Entity.{Checkpoint, CheckpointKind, start, split, finish, lap}
use splitforge.Domain.Event.{TimingEvent, TimingEventOrigin, accepted_read}
use splitforge.Domain.Outcome.{StatusDeclaration, ResultFlag}

pub data ScoringError : Type 0 where
  no_finish_checkpoint : ScoringError
  multiple_finish_checkpoints : ℕ → List ℕ → ScoringError
  multiple_start_checkpoints : ℕ → List ℕ → ScoringError
  chip_time_without_start_checkpoint : ScoringError

pub record Crossings (I : Type 0) : Type 0 where
  pub counted : Option (TimingEvent I)
  pub before_gun : Option (TimingEvent I)
  pub counted_chip : Option (TimingEvent I)

abbrev pub no_crossings : {I : Type 0} → Crossings I
no_crossings = record { counted = none; before_gun = none; counted_chip = none }

unfoldable pub is_manual : {I : Type 0} → TimingEvent I → Bool
is_manual event = elim event.origin [
  | accepted_read id ↦ false
  | TimingEventOrigin.manual id ↦ true
]

abbrev pub is_at : Option ℕ → ℕ → Bool
is_at none checkpoint = false
is_at (some id) checkpoint = id == checkpoint

abbrev pub ltb_place : ℕ × ℕ → ℕ × ℕ → Bool
ltb_place = ltb_pair ltb ltb

unfoldable pub newer :
    {I : Type 0} → StatusDeclaration I → Option (StatusDeclaration I) → StatusDeclaration I
newer declaration none = declaration
newer declaration (some held) = if ltb held.seq declaration.seq then declaration else held

unfoldable pub latest_declarations :
    {I : Type 0}
    → List (StatusDeclaration I)
    → List (ℕ × StatusDeclaration I)
    → List (ℕ × StatusDeclaration I)
latest_declarations [] latest = latest
latest_declarations (declaration ∷ declarations) latest =
    latest_declarations declarations (update ltb declaration.participant (newer declaration) latest)

module _ (T : TimeApi) where
  open T use {Instant, lt}

  -- `gun.is_some_and(|gun| event.at < gun)`
  abbrev pub is_before : Instant → Option Instant → Bool
  is_before at none = false
  is_before at (some gun) = lt at gun

  -- `order(a) < order(b)`
  abbrev pub earlier : TimingEvent Instant → TimingEvent Instant → Bool
  earlier a b = ltb_pair lt ltb (a.at, a.id) (b.at, b.id)

  -- The earlier one, the held one if they are equal.
  unfoldable pub keep_earlier :
      TimingEvent Instant → Option (TimingEvent Instant) → Option (TimingEvent Instant)
  keep_earlier event none = some event
  keep_earlier event (some held) = if earlier event held then some event else some held

  unfoldable pub keep_later :
      TimingEvent Instant → Option (TimingEvent Instant) → Option (TimingEvent Instant)
  keep_later event none = some event
  keep_later event (some held) = if earlier held event then some event else some held

  unfoldable pub add : Crossings Instant → TimingEvent Instant → Option Instant → Crossings Instant
  add c event gun =
      if is_before event.at gun
      then record c { before_gun = keep_later event c.before_gun }
      else record c {
        counted = keep_earlier event c.counted;
        counted_chip =
            if not (is_manual event) then keep_earlier event c.counted_chip else c.counted_chip;
      }

  -- The flags that `Crossings::manual_flags` pushes behind `flags`.
  unfoldable pub manual_flags :
      Crossings Instant
      → Option (TimingEvent Instant)
      → ResultFlag
      → ResultFlag
      → List ResultFlag
      → List ResultFlag
  manual_flags c none manual over_chip flags = flags
  manual_flags c (some used) manual over_chip flags =
      if is_manual used
      then if (elim c.counted [ none ↦ false | some counted ↦ counted.id == used.id ])
          && (elim c.counted_chip [ none ↦ false | some chip ↦ true ])
        then flags ++ manual ∷ over_chip ∷ []
        else flags ++ manual ∷ []
      else flags

  -- The first loop of `score`: the crossings per participant and checkpoint.
  unfoldable pub gather :
      List (TimingEvent Instant)
      → Option Instant
      → List ((ℕ × ℕ) × Crossings Instant)
      → List ((ℕ × ℕ) × Crossings Instant)
  gather [] gun crossings = crossings
  gather (event ∷ events) gun crossings = gather events gun (
      update ltb_place (event.participant, event.checkpoint)
        (λ held. add (elim held [ none ↦ no_crossings | some c ↦ c ]) event gun) crossings)

  -- The second loop: who started, as the keys of a map to the unit, which are given here as `true`.
  unfoldable pub starters :
      List (TimingEvent Instant) → Option Instant → Option ℕ → List (ℕ × Bool) → List (ℕ × Bool)
  starters [] gun start_line started = started
  starters (event ∷ events) gun start_line started = starters events gun start_line (
      if not (is_before event.at gun)
      then update ltb event.participant (λ _. true) started
      else if is_at start_line event.checkpoint
      then update ltb event.participant (λ _. true) started
      else started)

-- The number of a kind, by which kinds are compared.
abbrev pub kind_code : CheckpointKind → ℕ
kind_code start = 0
kind_code split = 1
kind_code finish = 2
kind_code lap = 3

unfoldable pub of_kind : CheckpointKind → List Checkpoint → List Checkpoint
of_kind kind [] = []
of_kind kind (c ∷ checkpoints) =
    let rest = of_kind kind checkpoints in
    if kind_code c.kind == kind_code kind then c ∷ rest else rest

-- `.join(", ")`
unfoldable pub join_names : List Checkpoint → List ℕ
join_names [] = []
join_names (c ∷ []) = c.name
join_names (c ∷ d ∷ checkpoints) = c.name ++ 44 ∷ 32 ∷ join_names (d ∷ checkpoints)

abbrev several : CheckpointKind → ℕ → List ℕ → ScoringError
several finish count names = multiple_finish_checkpoints count names
several start count names = multiple_start_checkpoints count names
several split count names = multiple_start_checkpoints count names
several lap count names = multiple_start_checkpoints count names

unfoldable pub sole_of : CheckpointKind → List Checkpoint → Result (Option ℕ) ScoringError
sole_of kind [] = ok none
sole_of kind (only ∷ []) = ok (some only.id)
sole_of kind (c ∷ d ∷ checkpoints) =
    err (several kind (length (c ∷ d ∷ checkpoints)) (join_names (c ∷ d ∷ checkpoints)))

unfoldable pub sole_checkpoint : List Checkpoint → CheckpointKind → Result (Option ℕ) ScoringError
sole_checkpoint checkpoints kind =
    sole_of kind (sort_by (λ a b. ltb a.sequence b.sequence) (of_kind kind checkpoints))
