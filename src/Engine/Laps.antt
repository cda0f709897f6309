-- ===== src/Engine/Laps.antt =====
-- crates/splitforge-engine/src/lib.rs, the second half of `derive`: crossings and manual entries are
-- merged into one sequence, and laps are counted along it.
pub mod Counts
use splitforge.Prelude.{
  ℕ, ◌+◌, ◌-◌, ◌^◌, min, Bool, true, not, List, [], ◌∷◌, ◌++◌, Option, none, some, ltb,
  if◌then◌else◌,
}
use splitforge.Prelude.Map.{get, update, sort_by, ltb_pair}
use splitforge.Domain.Time.{TimeApi}
use splitforge.Domain.Event.{
  AcceptedRead, ManualEntry, TimingEvent, UuidApi, from_accepted, from_manual,
}

pub data Source (I : Type 0) : Type 0 where
  crossing : AcceptedRead I → Source I
  manual : ManualEntry I → Source I

-- The tuples of `sources`.
pub record Sighting (I : Type 0) : Type 0 where
  pub at : I
  pub participant : ℕ
  pub checkpoint : ℕ
  pub race_side : Bool
  pub source : Source I

abbrev pub source_key : {I : Type 0} → Source I → ℕ × ℕ
source_key (crossing c) = (0, c.id)
source_key (manual m) = (1, m.id)

abbrev pub ltb_pair_of_ids : ℕ × ℕ → ℕ × ℕ → Bool
ltb_pair_of_ids = ltb_pair ltb ltb

module _ (T : TimeApi) where
  open T use {Instant, lt}

  unfoldable pub crossing_sources :
      List (AcceptedRead Instant) → List (ℕ × Bool) → List (Sighting Instant)
  crossing_sources [] race_sides = []
  crossing_sources (c ∷ accepted) race_sides =
      let rest = crossing_sources accepted race_sides in
      elim c.participant [
        | none ↦ rest
        | some participant ↦
            record {
              at = c.at;
              participant = participant;
              checkpoint = c.checkpoint;
              race_side = elim (get ltb c.id race_sides) [ none ↦ true | some side ↦ side ];
              source = crossing c;
            }
            ∷ rest
      ]

  -- `gun_time.is_none_or(|gun| at >= gun)`
  abbrev pub at_or_after : Instant → Option Instant → Bool
  at_or_after at none = true
  at_or_after at (some gun) = not (lt at gun)

  unfoldable pub manual_sources :
      List (ManualEntry Instant) → Option Instant → List (Sighting Instant)
  manual_sources [] gun = []
  manual_sources (m ∷ entries) gun =
      record {
        at = m.at;
        participant = m.participant;
        checkpoint = m.checkpoint;
        race_side = at_or_after m.at gun;
        source = Source.manual m;
      }
      ∷ manual_sources entries gun

  abbrev pub source_before : Sighting Instant → Sighting Instant → Bool
  source_before a b =
      ltb_pair lt ltb_pair_of_ids (a.at, source_key a.source) (b.at, source_key b.source)

  unfoldable pub merged_sources :
      List (AcceptedRead Instant)
      → List (ℕ × Bool)
      → List (ManualEntry Instant)
      → Option Instant
      → List (Sighting Instant)
  merged_sources accepted race_sides entries gun =
      sort_by source_before (crossing_sources accepted race_sides ++ manual_sources entries gun)

-- `counter.saturating_add(1)`, of a `u16` that is 0 where there is none yet
abbrev pub next_lap : Option ℕ → ℕ
next_lap none = 1
next_lap (some lap) = min (lap + 1) (2 ^ 16 - 1)

module _ {I : Type 0} (U : UuidApi) where
  unfoldable pub event_of : Sighting I → ℕ → TimingEvent I
  event_of s lap = elim s.source [
    | crossing c ↦ from_accepted U s.participant s.checkpoint s.at lap c.id
    | Source.manual m ↦ from_manual U s.participant s.checkpoint s.at lap m.id
  ]

  -- The loop that numbers the laps.
  unfoldable pub number_laps : List (Sighting I) → List ((ℕ × ℕ) × ℕ) → List (TimingEvent I)
  number_laps [] counters = []
  number_laps (s ∷ sources) counters =
      let place : ℕ × ℕ = (s.participant, s.checkpoint) in
      let warm_up = event_of s 0 ∷ number_laps sources counters in
      let counted =
        event_of s (next_lap (get ltb_pair_of_ids place counters))
        ∷ number_laps sources (update ltb_pair_of_ids place next_lap counters) in
      if not s.race_side then warm_up else counted
