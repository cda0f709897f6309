-- ===== src/Results/Ranking.antt =====
-- crates/splitforge-results/src/lib.rs, `assign_places`, `sort_for_publication` and `bib_order`.
pub mod Order
pub mod Writes
pub mod Places
use splitforge.Prelude.{
  ℕ, zero, suc, ◌+◌, ◌-◌, ◌*◌, ◌^◌, min, Bool, true, false, not, ◌&&◌, List, [], ◌∷◌, Option, none,
  some, ltb, leb, ◌==◌, if◌then◌else◌, length,
}
use splitforge.Prelude.Int.{ℤ, pos, negsuc, ltb_ℤ}
use splitforge.Prelude.Map.{sort_by, ltb_pair, ltb_option, ltb_bytes}
use splitforge.Prelude.Text.{parse_digits}
use splitforge.Domain.Outcome.{ResultEntry, is_placed, status_rank}

-- `str::parse::<u64>`, without its error: digits, one at least, behind at most one `+`.
unfoldable pub parse_u64 : List ℕ → Option ℕ
parse_u64 [] = none
parse_u64 (byte ∷ bytes) =
    elim (if byte == 43
      then (elim bytes [ [] ↦ none | digit ∷ digits ↦ parse_digits 0 (digit ∷ digits) ])
      else parse_digits 0 (byte ∷ bytes)) [
        | none ↦ none
        | some value ↦ if ltb value (2 ^ 64) then some value else none
      ]

unfoldable pub bib_order : List ℕ → ℕ × (ℕ × List ℕ)
bib_order bib = elim (parse_u64 bib) [ none ↦ (1, (0, bib)) | some number ↦ (0, (number, bib)) ]

abbrev pub ltb_bib : ℕ × (ℕ × List ℕ) → ℕ × (ℕ × List ℕ) → Bool
ltb_bib = ltb_pair ltb (ltb_pair ltb ltb_bytes)

abbrev pub ltb_time : Option ℤ → Option ℤ → Bool
ltb_time = ltb_option ltb_ℤ

abbrev pub eq_ℤ : ℤ → ℤ → Bool
eq_ℤ (pos m) (pos n) = m == n
eq_ℤ (negsuc m) (negsuc n) = m == n
eq_ℤ (pos m) (negsuc n) = false
eq_ℤ (negsuc m) (pos n) = false

abbrev pub eq_time : Option ℤ → Option ℤ → Bool
eq_time none none = true
eq_time (some m) (some n) = eq_ℤ m n
eq_time none (some n) = false
eq_time (some m) none = false

-- `u32::try_from(offset).unwrap_or(u32::MAX).saturating_add(1)`
abbrev pub place_at : ℕ → ℕ
place_at offset = min (offset + 1) (2 ^ 32 - 1)

abbrev pub place_key : Option ℕ → ℕ × ℕ
place_key none = (1, 0)
place_key (some place) = (0, place)

module _ {I : Type 0} where
  abbrev pub is_placeable : ResultEntry I → Bool
  is_placeable e = is_placed e.status && (elim e.scoring_time_ms [ none ↦ false | some ms ↦ true ])

  -- The indices from `index` on of the entries that take a place. Each goes with its entry, which is
  -- what the source looks up by it while it sorts.
  unfoldable pub placeable : ℕ → List (ResultEntry I) → List (ℕ × ResultEntry I)
  placeable index [] = []
  placeable index (e ∷ entries) =
      let rest = placeable (suc index) entries in if is_placeable e then (index, e) ∷ rest else rest

  unfoldable pub goes_before : ℕ × ResultEntry I → ℕ × ResultEntry I → Bool
  goes_before (i, a) (j, b) =
      ltb_pair ltb_time (ltb_pair ltb_bib ltb) (a.scoring_time_ms, (bib_order a.bib, a.participant))
        (b.scoring_time_ms, (bib_order b.bib, b.participant))

  -- `entries[index].place = Some(place)`
  unfoldable pub set_place : List (ResultEntry I) → ℕ → ℕ → List (ResultEntry I)
  set_place [] index place = []
  set_place (e ∷ entries) zero place = record e { place = some place } ∷ entries
  set_place (e ∷ entries) (suc index) place = e ∷ set_place entries index place

  -- The loop of `assign_places`, from `offset` on.
  unfoldable pub assign_loop :
      List (ℕ × ResultEntry I) → ℕ → ℕ → Option ℤ → List (ResultEntry I) → List (ResultEntry I)
  assign_loop [] offset place previous_time entries = entries
  assign_loop ((index, e) ∷ rest) offset place previous_time entries =
      let current =
        if not (eq_time previous_time e.scoring_time_ms) then place_at offset else place in
      assign_loop rest (suc offset) current e.scoring_time_ms (set_place entries index current)

  unfoldable pub assign_places : List (ResultEntry I) → List (ResultEntry I)
  assign_places entries = assign_loop (sort_by goes_before (placeable 0 entries)) 0 0 none entries

  unfoldable pub published_before : ResultEntry I → ResultEntry I → Bool
  published_before a b =
      ltb_pair (ltb_pair ltb ltb) (ltb_pair ltb (ltb_pair ltb_bib ltb))
        (place_key a.place, (status_rank a.status, (bib_order a.bib, a.participant)))
        (place_key b.place, (status_rank b.status, (bib_order b.bib, b.participant)))

  unfoldable pub sort_for_publication : List (ResultEntry I) → List (ResultEntry I)
  sort_for_publication entries = sort_by published_before entries
