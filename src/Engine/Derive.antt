-- ===== src/Engine/Derive.antt =====
-- crates/splitforge-engine/src/lib.rs, `derive`.
pub mod Kept
use splitforge.Prelude.{
  ℕ, Bool, not, ◌||◌, List, [], ◌∷◌, ◌++◌, map, Option, none, some, ltb, leb, ◌==◌, if◌then◌else◌,
}
use splitforge.Prelude.Int.{ℤ, pos, ltb_ℤ}
use splitforge.Prelude.Map.{update, sort_by, ltb_pair, ltb_bytes}
use splitforge.Domain.Time.{TimeApi, i64_or_max, i64_max}
use splitforge.Domain.Policy.{
  TimingPolicy, SelectionRule, first, first_above_rssi, peak_rssi, min_interval_ms_for,
  selection_rule_for,
}
use splitforge.Domain.Entity.{ChipAssignment, AntennaMap, resolve_antenna, participant_at}
use splitforge.Domain.Event.{
  StoredRawRead, ManualEntry, AcceptedRead, RejectionReason, duplicate_within_window,
  below_rssi_floor, below_min_lap, unmapped_reader, RejectedRead, Derivation, UuidApi, new_accepted,
}
use splitforge.Engine.Bursts.{at_of, split_into_bursts, select, on_the_race_side, i16_min}
use splitforge.Engine.Laps.{merged_sources, number_laps}

pub record DerivationInput (I : Type 0) : Type 0 where
  pub reads : List (StoredRawRead I)
  pub policy : TimingPolicy
  pub chips : List (List ℕ × List (ChipAssignment I))
  pub antennas : AntennaMap
  pub manual : List (ManualEntry I)
  pub gun_time : Option I

abbrev pub ltb_group : List ℕ × ℕ → List ℕ × ℕ → Bool
ltb_group = ltb_pair ltb_bytes ltb

abbrev pub reject : {I : Type 0} → StoredRawRead I → RejectionReason → RejectedRead
reject stored reason = record { raw_read = stored.read.id; reason = reason }

-- One rejection for each read of a burst.
abbrev pub reject_all :
    {I : Type 0} → List (StoredRawRead I) → (StoredRawRead I → RejectionReason) → List RejectedRead
reject_all burst reason = map (λ stored. reject stored (reason stored)) burst

-- What the loops of `derive` change.
pub record Progress (I : Type 0) : Type 0 where
  pub rejected : List RejectedRead
  pub accepted : List (AcceptedRead I)
  pub race_sides : List (ℕ × Bool)
  pub last_credited : Option (I × Bool)

abbrev pub floor_of : SelectionRule → ℤ
floor_of (first_above_rssi floor_dbm) = floor_dbm
floor_of first = i16_min
floor_of peak_rssi = i16_min

module _ {I : Type 0} where
  -- The body of the first loop: a read goes to its chip and checkpoint, or is rejected.
  unfoldable pub place_read :
      Option ℕ
      → StoredRawRead I
      → List ((List ℕ × ℕ) × List (StoredRawRead I))
      → List RejectedRead
      → List ((List ℕ × ℕ) × List (StoredRawRead I)) × List RejectedRead
  place_read (some checkpoint) stored groups rejected = (
    update ltb_group (stored.read.chip, checkpoint)
        (λ held. (elim held [ none ↦ [] | some group ↦ group ]) ++ stored ∷ []) groups,
    rejected,
  )
  place_read none stored groups rejected = (
    groups,
    rejected ++ reject stored (unmapped_reader stored.read.source stored.read.antenna) ∷ [],
  )

  unfoldable pub group_reads :
      AntennaMap
      → List (StoredRawRead I)
      → List ((List ℕ × ℕ) × List (StoredRawRead I))
      → List RejectedRead
      → List ((List ℕ × ℕ) × List (StoredRawRead I)) × List RejectedRead
  group_reads antennas [] groups rejected = (groups, rejected)
  group_reads antennas (stored ∷ reads) groups rejected =
      let next =
        place_read (resolve_antenna antennas stored.read.source stored.read.antenna) stored groups
          rejected in
      group_reads antennas reads next.0 next.1

module _ (T : TimeApi) (U : UuidApi) where
  open T use {Instant, lt, millis_between}

  -- The minimum lap and the actual one, when the crossing is a lap too soon.
  unfoldable pub lap_violation :
      Option ℕ → Option (Instant × Bool) → Bool → Instant → Option (ℕ × ℤ)
  lap_violation none last race_side at = none
  lap_violation (some min_lap_ms) none race_side at = none
  lap_violation (some min_lap_ms) (some (previous, previous_race_side)) race_side at =
      if previous_race_side || not race_side
      then if ltb_ℤ (millis_between previous at) (pos min_lap_ms)
        then some (min_lap_ms, i64_or_max (millis_between previous at))
        else none
      else none

  -- The reads of a burst that its crossing suppresses.
  unfoldable pub suppress : List (StoredRawRead Instant) → ℕ → ℕ → Instant → List RejectedRead
  suppress [] chosen accepted at = []
  suppress (stored ∷ burst) chosen accepted at =
      let rest = suppress burst chosen accepted at in
      if not (stored.read.id == chosen)
      then reject stored
          (duplicate_within_window accepted (i64_or_max (millis_between at (at_of stored))))
        ∷ rest
      else rest

  abbrev pub crossing_of :
      DerivationInput Instant
      → List ℕ × ℕ
      → List (StoredRawRead Instant)
      → StoredRawRead Instant
      → AcceptedRead Instant
  crossing_of input (chip, checkpoint) burst chosen =
      new_accepted U checkpoint chip (participant_at T input.chips chip (at_of chosen))
        (at_of chosen) chosen.read.id (map (λ stored. stored.read.id) burst) chosen.read.rssi_dbm

  -- What a burst comes to once a read is chosen: a lap too soon, or a crossing.
  unfoldable pub settle :
      Option (ℕ × ℤ)
      → DerivationInput Instant
      → List ℕ × ℕ
      → List (StoredRawRead Instant)
      → StoredRawRead Instant
      → Progress Instant
      → Progress Instant
  settle (some (min_lap_ms, actual_ms)) input place burst chosen p = record p {
    rejected = p.rejected ++ reject_all burst (λ _. below_min_lap min_lap_ms actual_ms);
  }
  settle none input place burst chosen p =
      let at = at_of chosen in
      let race_side = on_the_race_side T burst input.gun_time in
      let crossing = crossing_of input place burst chosen in
      record {
        rejected = p.rejected ++ suppress burst chosen.read.id crossing.id at;
        accepted = p.accepted ++ crossing ∷ [];
        race_sides = update ltb crossing.id (λ _. race_side) p.race_sides;
        last_credited = some (at, race_side);
      }

  unfoldable pub credit :
      DerivationInput Instant
      → List ℕ × ℕ
      → List (StoredRawRead Instant)
      → StoredRawRead Instant
      → Progress Instant
      → Progress Instant
  credit input place burst chosen p =
      settle
        (lap_violation input.policy.min_lap_ms p.last_credited
          (on_the_race_side T burst input.gun_time) (at_of chosen))
        input place burst chosen p

  -- The body of the loop over the bursts of a group, by the read that is chosen.
  unfoldable pub take_chosen :
      Option (StoredRawRead Instant)
      → DerivationInput Instant
      → List ℕ × ℕ
      → SelectionRule
      → List (StoredRawRead Instant)
      → Progress Instant
      → Progress Instant
  take_chosen none input place rule burst p = record p {
    rejected =
        p.rejected
        ++ reject_all burst (λ stored. below_rssi_floor stored.read.rssi_dbm (floor_of rule));
  }
  take_chosen (some chosen) input place rule burst p = credit input place burst chosen p

  unfoldable pub take_burst :
      DerivationInput Instant
      → List ℕ × ℕ
      → SelectionRule
      → List (StoredRawRead Instant)
      → Progress Instant
      → Progress Instant
  take_burst input place rule burst p = take_chosen (select burst rule) input place rule burst p

  unfoldable pub take_bursts :
      DerivationInput Instant
      → List ℕ × ℕ
      → SelectionRule
      → List (List (StoredRawRead Instant))
      → Progress Instant
      → Progress Instant
  take_bursts input place rule [] p = p
  take_bursts input place rule (burst ∷ bursts) p =
      take_bursts input place rule bursts (take_burst input place rule burst p)

  abbrev pub read_before : StoredRawRead Instant → StoredRawRead Instant → Bool
  read_before a b = ltb_pair lt ltb (at_of a, a.seq) (at_of b, b.seq)

  -- `i64::try_from(ms).unwrap_or(i64::MAX)`, of a `u64`
  abbrev pub window_of : ℕ → ℕ
  window_of ms = if leb ms i64_max then ms else i64_max

  -- The loop over the groups.
  unfoldable pub take_groups :
      DerivationInput Instant
      → List ((List ℕ × ℕ) × List (StoredRawRead Instant))
      → Progress Instant
      → Progress Instant
  take_groups input [] p = p
  take_groups input ((place, group) ∷ groups) p = take_groups input groups (
      take_bursts input place (selection_rule_for input.policy place.1)
        (split_into_bursts T (sort_by read_before group)
          (window_of (min_interval_ms_for input.policy place.1)))
        (record p { last_credited = none }))

  abbrev pub accepted_before : AcceptedRead Instant → AcceptedRead Instant → Bool
  accepted_before a b = ltb_pair lt ltb (a.at, a.id) (b.at, b.id)

  unfoldable pub derive : DerivationInput Instant → Derivation Instant
  derive input =
      let grouped = group_reads input.antennas input.reads [] [] in
      let p =
        take_groups input grouped.0
          (record { rejected = grouped.1; accepted = []; race_sides = []; last_credited = none }) in
      let accepted = sort_by accepted_before p.accepted in
      record {
        accepted = accepted;
        rejected = sort_by (λ a b. ltb a.raw_read b.raw_read) p.rejected;
        timing_events =
            number_laps U (merged_sources T accepted p.race_sides input.manual input.gun_time) [];
      }
