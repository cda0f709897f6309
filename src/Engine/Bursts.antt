-- ===== src/Engine/Bursts.antt =====
-- crates/splitforge-engine/src/lib.rs, `split_into_bursts`, `select` and `on_the_race_side`.
pub mod Cuts
use splitforge.Prelude.{
  ℕ, zero, suc, Bool, true, false, not, ◌&&◌, List, [], ◌∷◌, ◌++◌, Option, none, some, ltb,
  if◌then◌else◌,
}
use splitforge.Prelude.Int.{ℤ, negsuc, ltb_ℤ}
use splitforge.Prelude.Map.{ltb_pair}
use splitforge.Domain.Time.{TimeApi}
use splitforge.Domain.Policy.{SelectionRule, first, first_above_rssi, peak_rssi}
use splitforge.Domain.Event.{StoredRawRead, authoritative_timestamp}

abbrev pub i16_min : ℤ
i16_min = negsuc 32_767

abbrev pub at_of : {I : Type 0} → StoredRawRead I → I
at_of stored = authoritative_timestamp stored.read

module _ (T : TimeApi) where
  open T use {Instant, lt, longer_than}

  -- `previous.is_some_and(|prev| at - prev > window)`
  abbrev pub is_gap : Option Instant → Instant → ℕ → Bool
  is_gap none at window = false
  is_gap (some previous) at window = longer_than previous at window

  -- `bursts.push(current)`, unless it is empty
  abbrev pub push_burst :
      List (List (StoredRawRead Instant))
      → List (StoredRawRead Instant)
      → List (List (StoredRawRead Instant))
  push_burst bursts [] = bursts
  push_burst bursts (stored ∷ current) = bursts ++ (stored ∷ current) ∷ []

  unfoldable pub split_loop :
      List (StoredRawRead Instant)
      → ℕ
      → List (List (StoredRawRead Instant))
      → List (StoredRawRead Instant)
      → Option Instant
      → List (List (StoredRawRead Instant))
  split_loop [] window bursts current previous = push_burst bursts current
  split_loop (stored ∷ reads) window bursts current previous =
      let gap = is_gap previous (at_of stored) window in
      split_loop reads window (if gap then push_burst bursts current else bursts)
        (if gap then stored ∷ [] else current ++ stored ∷ []) (some (at_of stored))

  unfoldable pub split_into_bursts :
      List (StoredRawRead Instant) → ℕ → List (List (StoredRawRead Instant))
  split_into_bursts reads window = split_loop reads window [] [] none

  -- The gun against the last of `stored ∷ burst`.
  unfoldable pub last_at_or_after :
      Instant → StoredRawRead Instant → List (StoredRawRead Instant) → Bool
  last_at_or_after gun stored [] = not (lt (at_of stored) gun)
  last_at_or_after gun stored (next ∷ burst) = last_at_or_after gun next burst

  unfoldable pub on_the_race_side : List (StoredRawRead Instant) → Option Instant → Bool
  on_the_race_side burst none = true
  on_the_race_side [] (some gun) = false
  on_the_race_side (stored ∷ burst) (some gun) = last_at_or_after gun stored burst

module _ {I : Type 0} where
  -- `rssi_dbm.is_some_and(|rssi| rssi >= floor_dbm)`
  unfoldable pub clears : ℤ → StoredRawRead I → Bool
  clears floor_dbm stored = elim stored.read.rssi_dbm [
    | none ↦ false
    | some rssi ↦ not (ltb_ℤ rssi floor_dbm)
  ]

  unfoldable pub find_clearing : ℤ → List (StoredRawRead I) → Option (StoredRawRead I)
  find_clearing floor_dbm [] = none
  find_clearing floor_dbm (stored ∷ burst) =
      let rest = find_clearing floor_dbm burst in
      if clears floor_dbm stored then some stored else rest

  -- `rssi_dbm.unwrap_or(i16::MIN)`
  unfoldable pub strength : StoredRawRead I → ℤ
  strength stored = elim stored.read.rssi_dbm [ none ↦ i16_min | some rssi ↦ rssi ]

  -- The order of `(rssi, Reverse(index))`
  abbrev pub weaker : ℕ × StoredRawRead I → ℕ × StoredRawRead I → Bool
  weaker (i, a) (j, b) = ltb_pair ltb_ℤ (λ m n. ltb n m) (strength a, i) (strength b, j)

  -- `max_by_key`, of the reads from `index` on: the last of the greatest is kept.
  unfoldable pub peak_loop : ℕ → List (StoredRawRead I) → ℕ × StoredRawRead I → ℕ × StoredRawRead I
  peak_loop index [] best = best
  peak_loop index (stored ∷ burst) best =
      peak_loop (suc index) burst (if weaker (index, stored) best then best else (index, stored))

  unfoldable pub select : List (StoredRawRead I) → SelectionRule → Option (StoredRawRead I)
  select [] first = none
  select (stored ∷ burst) first = some stored
  select burst (first_above_rssi floor_dbm) = find_clearing floor_dbm burst
  select [] peak_rssi = none
  select (stored ∷ burst) peak_rssi = some (peak_loop 1 burst (0, stored)).1
