-- ===== src/Results/Entry.antt =====
-- crates/splitforge-results/src/lib.rs, `build_entry` and `elapsed_ms`: one participant's line before
-- places are given.
pub mod Times
use splitforge.Prelude.{
  ℕ, Bool, true, false, not, ◌&&◌, List, [], ◌∷◌, ◌++◌, Option, none, some, ◌==◌, if◌then◌else◌,
}
use splitforge.Prelude.Int.{ℤ, pos, ltb_ℤ}
use splitforge.Domain.Time.{TimeApi, i64_or_max}
use splitforge.Domain.Entity.{Participant}
use splitforge.Domain.Event.{TimingEvent}
use splitforge.Domain.Outcome.{
  ResultStatus, finished, dns, dnf, status_rank, StartMode, gun, chip, StatusDeclaration,
  ScoringPolicy, ResultFlag, no_start_read_under_chip_time, no_gun_time, finish_before_start,
  declared_finished_without_finish_read, start_read_before_gun, finish_read_before_gun,
  manual_start, manual_finish, manual_start_over_chip, manual_finish_over_chip, StatusSource,
  derived, declared, ResultEntry,
}
use splitforge.Results.Evidence.{Crossings, manual_flags}

abbrev pub is_some : {A : Type 0} → Option A → Bool
is_some none = false
is_some (some a) = true

-- `a.zip(b).map(f)`
abbrev pub zip_map : {A B C : Type 0} → (A → B → C) → Option A → Option B → Option C
zip_map f (some a) (some b) = some (f a b)
zip_map f (some a) none = none
zip_map f none b = none

abbrev pub push_if : {A : Type 0} → Bool → A → List A → List A
push_if true a list = list ++ a ∷ []
push_if false a list = list

abbrev pub is_finished : ResultStatus → Bool
is_finished status = status_rank status == status_rank finished

module _ (T : TimeApi) where
  open T use {Instant, lt, millis_between}

  unfoldable pub elapsed_ms : Instant → Instant → ℤ
  elapsed_ms from to = i64_or_max (millis_between from to)

  pub record Started : Type 0 where
    pub start_at : Option Instant
    pub start_event : Option (TimingEvent Instant)
    pub early : Bool

  -- The first `match` of `build_entry`; `early` says that it pushes `StartReadBeforeGun`.
  unfoldable pub start_of : Crossings Instant → Option Instant → Started
  start_of c gun_time = elim c.counted [
    | some event ↦ record { start_at = some event.at; start_event = some event; early = false }
    | none ↦ elim c.before_gun [
      | none ↦ record { start_at = none; start_event = none; early = false }
      | some event ↦ elim gun_time [
        | none ↦ record { start_at = none; start_event = none; early = false }
        | some at ↦ record { start_at = some at; start_event = some event; early = true }
      ]
    ]
  ]

-- What the choice of the time to score by gives back, and the flags it pushes.
unfoldable pub choose_time :
    StartMode → Bool → Option ℤ → Option ℤ → List ResultFlag → Option ℤ × List ResultFlag
choose_time mode false gun_time_ms chip_time_ms flags = (none, flags)
choose_time gun true gun_time_ms chip_time_ms flags =
    (gun_time_ms, push_if (not (is_some gun_time_ms)) no_gun_time flags)
choose_time chip true gun_time_ms (some ms) flags = (some ms, flags)
choose_time chip true gun_time_ms none flags = (
  gun_time_ms,
  push_if (not (is_some gun_time_ms)) no_gun_time (flags ++ no_start_read_under_chip_time ∷ []),
)

-- A negative time is flagged, and not scored by.
unfoldable pub refuse_negative : Option ℤ × List ResultFlag → Option ℤ × List ResultFlag
refuse_negative (none, flags) = (none, flags)
refuse_negative (some ms, flags) =
    if ltb_ℤ ms (pos 0) then (none, flags ++ finish_before_start ∷ []) else (some ms, flags)

-- The status without a declaration.
unfoldable pub derived_status : Bool → Bool → ResultStatus
derived_status true started = finished
derived_status false true = dnf
derived_status false false = dns

module _ {I : Type 0} where
  abbrev pub status_of : Option (StatusDeclaration I) → Bool → Bool → ResultStatus
  status_of none has_finish started = derived_status has_finish started
  status_of (some declaration) has_finish started = declaration.status

  abbrev pub source_of : Option (StatusDeclaration I) → StatusSource
  source_of none = derived
  source_of (some declaration) = declared

  abbrev pub reason_of : Option (StatusDeclaration I) → Option (List ℕ)
  reason_of none = none
  reason_of (some declaration) = some declaration.reason

  abbrev pub event_at : Option (TimingEvent I) → Option I
  event_at none = none
  event_at (some event) = some event.at

  abbrev pub id_list : Option (TimingEvent I) → List ℕ
  id_list none = []
  id_list (some event) = event.id ∷ []

module _ (T : TimeApi) where
  open T use {Instant}

  -- The flags that are pushed before a time is chosen.
  unfoldable pub evidence_flags :
      Crossings Instant → Crossings Instant → Option Instant → List ResultFlag
  evidence_flags at_start at_finish gun_time =
      let s = start_of T at_start gun_time in
      let start_flags =
        manual_flags T at_start s.start_event manual_start manual_start_over_chip
          (push_if s.early start_read_before_gun []) in
      let finish_flags =
        manual_flags T at_finish at_finish.counted manual_finish manual_finish_over_chip
          start_flags in
      push_if (not (is_some at_finish.counted) && is_some at_finish.before_gun)
        finish_read_before_gun finish_flags

  abbrev pub gun_ms : Crossings Instant → Option Instant → Option ℤ
  gun_ms at_finish gun_time = zip_map (elapsed_ms T) gun_time (event_at at_finish.counted)

  abbrev pub chip_ms : Crossings Instant → Crossings Instant → Option Instant → Option ℤ
  chip_ms at_start at_finish gun_time =
      zip_map (elapsed_ms T) (start_of T at_start gun_time).start_at (event_at at_finish.counted)

  -- The scoring time, and all flags but the last.
  unfoldable pub scoring :
      Crossings Instant → Crossings Instant → ScoringPolicy Instant → Option ℤ × List ResultFlag
  scoring at_start at_finish policy = refuse_negative (
      choose_time policy.start_mode (is_some at_finish.counted) (gun_ms at_finish policy.gun_time)
        (chip_ms at_start at_finish policy.gun_time)
        (evidence_flags at_start at_finish policy.gun_time))

  unfoldable pub build_entry :
      Participant
      → Crossings Instant
      → Crossings Instant
      → Bool
      → Option (StatusDeclaration Instant)
      → ScoringPolicy Instant
      → ResultEntry Instant
  build_entry p at_start at_finish started declaration policy =
      let has_finish = is_some at_finish.counted in
      let status = status_of declaration has_finish started in
      let s = start_of T at_start policy.gun_time in
      let time = scoring at_start at_finish policy in
      record {
        participant = p.id;
        bib = p.bib;
        name = p.name;
        status = status;
        status_source = source_of declaration;
        status_reason = reason_of declaration;
        start_at = s.start_at;
        finish_at = event_at at_finish.counted;
        gun_time_ms = gun_ms at_finish policy.gun_time;
        chip_time_ms = chip_ms at_start at_finish policy.gun_time;
        scoring_time_ms = time.0;
        place = none;
        flags =
            push_if (is_finished status && is_some declaration && not has_finish)
              declared_finished_without_finish_read time.1;
        timing_events = id_list s.start_event ++ id_list at_finish.counted;
      }
