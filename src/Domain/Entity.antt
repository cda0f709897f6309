-- ===== src/Domain/Entity.antt =====
-- crates/splitforge-domain/src/entity.rs: races, checkpoints, participants, chip assignments and the
-- mapping of antennas to checkpoints.
use splitforge.Prelude.{
  ℕ, Bool, true, false, List, [], ◌∷◌, ◌++◌, Option, none, some, ltb, ◌&&◌, not, if◌then◌else◌,
}
use splitforge.Prelude.Map.{get, update, sort_by, ltb_bytes, ltb_pair}
use splitforge.Domain.Time.{TimeApi}

pub data CheckpointKind : Type 0 where
  start split finish lap : CheckpointKind

pub record Checkpoint : Type 0 where
  pub id : ℕ
  pub race : ℕ
  pub name : List ℕ
  pub kind : CheckpointKind
  pub sequence : ℕ

pub record Participant : Type 0 where
  pub id : ℕ
  pub race : ℕ
  pub bib : List ℕ
  pub name : List ℕ

pub record ChipAssignment (I : Type 0) : Type 0 where
  pub chip : List ℕ
  pub participant : ℕ
  pub race : ℕ
  pub valid_from : I
  pub valid_until : Option I

pub data SessionAction : Type 0 where
  start stop : SessionAction

pub record RaceSession (I : Type 0) : Type 0 where
  pub seq : ℕ
  pub race : ℕ
  pub action : SessionAction
  pub at : I
  pub actor : List ℕ
  pub note : Option (List ℕ)
  pub recorded_at : I

-- `DomainError::OverlappingChipAssignment`, or the registry.
pub data Registered (I : Type 0) : Type 0 where
  overlapping : List ℕ → Registered I
  registered : List (List ℕ × List (ChipAssignment I)) → Registered I

module _ (T : TimeApi) where
  open T use {Instant, lt}

  -- `is_none_or`, as the intervals use it: an open end is after everything.
  abbrev ends_after : Option Instant → Instant → Bool
  ends_after none at = true
  ends_after (some end) at = lt at end

  unfoldable pub covers : ChipAssignment Instant → Instant → Bool
  covers a at = not (lt at a.valid_from) && ends_after a.valid_until at

  unfoldable pub overlaps : ChipAssignment Instant → ChipAssignment Instant → Bool
  overlaps a b = ends_after b.valid_until a.valid_from && ends_after a.valid_until b.valid_from

  unfoldable pub find : {A : Type 0} → (A → Bool) → List A → Option A
  find test [] = none
  find test (x ∷ xs) = if test x then some x else find test xs

  -- `ChipRegistry::from_assignments`: its first loop groups the assignments by chip.
  unfoldable pub group_by_chip :
      List (ChipAssignment Instant)
      → List (List ℕ × List (ChipAssignment Instant))
      → List (List ℕ × List (ChipAssignment Instant))
  group_by_chip [] by_chip = by_chip
  group_by_chip (a ∷ assignments) by_chip = group_by_chip assignments (
      update ltb_bytes a.chip (λ old. (elim old [ none ↦ [] | some list ↦ list ]) ++ a ∷ [])
        by_chip)

  -- `list.windows(2)`
  unfoldable pub any_overlap : List (ChipAssignment Instant) → Bool
  any_overlap [] = false
  any_overlap (a ∷ []) = false
  any_overlap (a ∷ b ∷ list) = if overlaps a b then true else any_overlap (b ∷ list)

  unfoldable pub sort_assignments : List (ChipAssignment Instant) → List (ChipAssignment Instant)
  sort_assignments list = sort_by (λ a b. lt a.valid_from b.valid_from) list

  -- The second loop sorts each chip's assignments and looks for an overlap of neighbours.
  unfoldable pub check_chips :
      List (List ℕ × List (ChipAssignment Instant))
      → List (List ℕ × List (ChipAssignment Instant))
      → Registered Instant
  check_chips [] checked = registered checked
  check_chips ((chip, list) ∷ by_chip) checked =
      let sorted = sort_assignments list in
      let rest = check_chips by_chip (checked ++ (chip, sorted) ∷ []) in
      if any_overlap sorted then overlapping chip else rest

  unfoldable pub from_assignments : List (ChipAssignment Instant) → Registered Instant
  from_assignments assignments = check_chips (group_by_chip assignments []) []

  unfoldable pub resolve :
      List (List ℕ × List (ChipAssignment Instant))
      → List ℕ
      → Instant
      → Option (ChipAssignment Instant)
  resolve by_chip chip at = elim (get ltb_bytes chip by_chip) [
    | none ↦ none
    | some list ↦ find (λ a. covers a at) list
  ]

  unfoldable pub participant_at :
      List (List ℕ × List (ChipAssignment Instant)) → List ℕ → Instant → Option ℕ
  participant_at by_chip chip at = elim (resolve by_chip chip at) [
    | none ↦ none
    | some a ↦ some a.participant
  ]

  -- `rfind` of a start among the sessions, oldest first.
  unfoldable pub last_start : List (RaceSession Instant) → Option Instant → Option Instant
  last_start [] found = found
  last_start (s ∷ sessions) found =
      last_start sessions (elim s.action [ SessionAction.start ↦ some s.at | stop ↦ found ])

  -- `RaceConfig::gun_time`, of the sessions and the scheduled start.
  unfoldable pub gun_time_of : List (RaceSession Instant) → Option Instant → Option Instant
  gun_time_of sessions scheduled_start = elim (last_start sessions none) [
    | none ↦ scheduled_start
    | some at ↦ some at
  ]

  -- `RaceConfig::is_running`, of the sessions.
  unfoldable pub is_running : List (RaceSession Instant) → Bool
  is_running [] = false
  is_running (s ∷ []) = elim s.action [ SessionAction.start ↦ true | stop ↦ false ]
  is_running (s ∷ next ∷ sessions) = is_running (next ∷ sessions)

-- A reader and an antenna to the checkpoint they cover.
pub record AntennaMap : Type 0 where
  pub exact : List ((List ℕ × ℕ) × ℕ)
  pub wildcard : List (List ℕ × ℕ)

abbrev pub no_antennas : AntennaMap
no_antennas = record { exact = []; wildcard = [] }

abbrev pub ltb_port : List ℕ × ℕ → List ℕ × ℕ → Bool
ltb_port = ltb_pair ltb_bytes ltb

unfoldable pub map_antenna : AntennaMap → List ℕ → ℕ → ℕ → AntennaMap
map_antenna m reader antenna checkpoint = record m {
  exact = update ltb_port (reader, antenna) (λ _. checkpoint) m.exact;
}

unfoldable pub map_reader : AntennaMap → List ℕ → ℕ → AntennaMap
map_reader m reader checkpoint = record m {
  wildcard = update ltb_bytes reader (λ _. checkpoint) m.wildcard;
}

-- `AntennaMap::resolve`
unfoldable pub resolve_antenna : AntennaMap → List ℕ → Option ℕ → Option ℕ
resolve_antenna m reader none = get ltb_bytes reader m.wildcard
resolve_antenna m reader (some antenna) = elim (get ltb_port (reader, antenna) m.exact) [
  | none ↦ get ltb_bytes reader m.wildcard
  | some checkpoint ↦ some checkpoint
]
