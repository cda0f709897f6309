-- ===== src/Engine/Samples.antt =====
-- Reads derived from by the definitions of crates/splitforge-engine/src/lib.rs.
use splitforge.Prelude.{
  List, [], ◌∷◌, ◌≡◌, refl, ℕ, Bool, true, false, ◌||◌, ◌++◌, none, some, get_elem?,
}
use splitforge.Prelude.Int.{ℤ, pos}
use splitforge.Domain.Policy.{default_policy}
use splitforge.Domain.Event.{StoredRawRead}
use splitforge.Domain.Samples.{nanos_api, sum_ids, read_at}
use splitforge.Engine.Bursts.{split_into_bursts}
use splitforge.Engine.Bursts.Cuts.{Cut, split_into_bursts-Cut}
use splitforge.Engine.Laps.{Source, Sighting, event_of, number_laps}
use splitforge.Engine.Laps.Counts.{number_laps-passed}
use splitforge.Engine.Derive.{DerivationInput, derive}
use splitforge.Engine.Derive.Kept.{is_rejected, is_credited, is_kept-derive}

abbrev later_reads : List (StoredRawRead ℤ)
later_reads = read_at 2 3_000 ∷ read_at 3 6_001 ∷ []

split_into_bursts-Cut_example :
    (burst : List (StoredRawRead ℤ)) × (rest : List (List (StoredRawRead ℤ))) × Cut nanos_api 3_000
      (read_at 1 0)
      later_reads
      burst
      rest
    × (split_into_bursts nanos_api (read_at 1 0 ∷ later_reads) 3_000 ≡ (read_at 1 0 ∷ burst) ∷ rest)
split_into_bursts-Cut_example = split_into_bursts-Cut nanos_api 3_000 (read_at 1 0) later_reads

-- The finish is mapped, and reads of other antennas are not.
abbrev finish_input : DerivationInput ℤ
finish_input = record {
  reads = read_at 1 0 ∷ later_reads;
  policy = default_policy;
  chips = [];
  antennas = record { exact = ((82 ∷ [], 1), 2) ∷ []; wildcard = [] };
  manual = [];
  gun_time = none;
}

is_kept-derive_example :
    is_rejected 2 (derive nanos_api sum_ids finish_input).rejected
      || is_credited 2 (derive nanos_api sum_ids finish_input).accepted
    ≡ true
is_kept-derive_example = is_kept-derive nanos_api sum_ids 2 finish_input refl

abbrev passing : ℕ → ℕ → Bool → Sighting ℤ
passing id participant side = record {
  at = pos id;
  participant = participant;
  checkpoint = 2;
  race_side = side;
  source = Source.manual (record {
    id = id;
    race = 1;
    participant = participant;
    checkpoint = 2;
    at = pos id;
    actor = [];
    reason = [];
  });
}

-- A warm-up and another runner do not count towards the second lap of runner 7.
abbrev earlier_passings : List (Sighting ℤ)
earlier_passings = passing 1 7 false ∷ passing 2 7 true ∷ passing 3 8 true ∷ []

number_laps-passed_example :
    get_elem? (number_laps sum_ids (earlier_passings ++ passing 4 7 true ∷ []) []) 3
    ≡ some (event_of sum_ids (passing 4 7 true) 2)
number_laps-passed_example = number_laps-passed sum_ids earlier_passings (passing 4 7 true) []
