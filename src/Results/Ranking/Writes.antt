-- ===== src/Results/Ranking/Writes.antt =====
-- The writes of `assign_places` in crates/splitforge-results/src/lib.rs: in whatever order they are
-- made, an entry ends with the same place.
use splitforge.Prelude.{
  ℕ, zero, suc, ◌+◌, ◌<◌, List, [], ◌∷◌, ◌++◌, map, append_assoc, Option, some, ◌≡◌, refl, sym, ap,
  ◌∙◌, arith, All, length, length-append, if◌then◌else◌, Bool-cases, inl, inr,
}
use splitforge.Prelude.Int.{ℤ}
use splitforge.Prelude.Map.{sort_by, insert_sorted}
use splitforge.Domain.Outcome.{ResultEntry}
use splitforge.Results.Ranking.{ltb_time, is_placeable, placeable, goes_before, set_place}
use splitforge.Results.Ranking.Order.{time_of}

module _ {I : Type 0} where
  -- How many entries that take a place are faster than a time.
  abbrev pub faster : Option ℤ → List (ResultEntry I) → ℕ
  faster t [] = 0
  faster t (e ∷ entries) =
      let rest = faster t entries in
      if is_placeable e then (if ltb_time e.scoring_time_ms t then suc rest else rest) else rest

  -- An entry with the place it should have among `entries`.
  abbrev pub ranked : List (ResultEntry I) → ResultEntry I → ResultEntry I
  ranked entries e =
      if is_placeable e then record e { place = some (faster e.scoring_time_ms entries + 1) } else e

  -- The writes of the loop, with a rank that is known beforehand.
  abbrev pub write_all :
      (Option ℤ → ℕ) → List (ℕ × ResultEntry I) → List (ResultEntry I) → List (ResultEntry I)
  write_all rank [] entries = entries
  write_all rank (p ∷ ps) entries = write_all rank ps (set_place entries p.0 (rank (time_of p) + 1))

  -- The indices of the list lie above a number.
  abbrev Above : ℕ → ℕ × ResultEntry I → Type 0
  Above n p = n < p.0

  Above-placeable :
      (n i : ℕ) (entries : List (ResultEntry I)) → n < i → All (Above n) (placeable i entries)
  unfolding placeable
  Above-placeable n i [] h = tt
  Above-placeable n i (e ∷ entries) h = elim (Bool-cases (is_placeable e)) [
    | inl k ↦ rw k (h, Above-placeable n (suc i) entries (omega arith))
    | inr k ↦ rw k (Above-placeable n (suc i) entries (omega arith))
  ]

  set_place_comm :
      (entries : List (ResultEntry I)) (i j m n : ℕ)
      → i < j
      → set_place (set_place entries i m) j n ≡ set_place (set_place entries j n) i m
  unfolding set_place
  set_place_comm [] i j m n h = refl
  set_place_comm (e ∷ entries) i zero m n h = absurd (omega arith)
  set_place_comm (e ∷ entries) zero (suc j) m n h = refl
  set_place_comm (e ∷ entries) (suc i) (suc j) m n h =
      ap (◌∷◌ e) (set_place_comm entries i j m n (omega arith))

  write_all-insert :
      (rank : Option ℤ → ℕ) (p : ℕ × ResultEntry I) (ps : List (ℕ × ResultEntry I))
      (entries : List (ResultEntry I))
      → All (Above p.0) ps
      → write_all rank (insert_sorted goes_before p ps) entries ≡ write_all rank (p ∷ ps) entries
  unfolding insert_sorted
  write_all-insert rank p [] entries h = refl
  write_all-insert rank p (q ∷ ps) entries (a, h) = elim (Bool-cases (goes_before q p)) [
    | inl e ↦ rw e (
        write_all-insert rank p ps (set_place entries q.0 (rank (time_of q) + 1)) h
        ∙ ap (write_all rank ps)
            (sym (set_place_comm entries p.0 q.0 (rank (time_of p) + 1) (rank (time_of q) + 1) a)))
    | inr e ↦ rw e
  ]

  All-insert :
      (P : ℕ × ResultEntry I → Type 0) (p : ℕ × ResultEntry I) (ps : List (ℕ × ResultEntry I))
      → P p
      → All P ps
      → All P (insert_sorted goes_before p ps)
  unfolding insert_sorted
  All-insert P p [] h k = (h, tt)
  All-insert P p (q ∷ ps) h (l, k) = elim (Bool-cases (goes_before q p)) [
    | inl e ↦ rw e (l, All-insert P p ps h k)
    | inr e ↦ rw e (h, (l, k))
  ]

  pub All-sort :
      (P : ℕ × ResultEntry I → Type 0) (ps : List (ℕ × ResultEntry I))
      → All P ps
      → All P (sort_by goes_before ps)
  unfolding sort_by
  All-sort P [] h = tt
  All-sort P (p ∷ ps) (h, k) = All-insert P p (sort_by goes_before ps) h (All-sort P ps k)

  -- The same writes, in the order of the entries.
  pub write_all-sort :
      (rank : Option ℤ → ℕ) (i : ℕ) (es entries : List (ResultEntry I))
      → write_all rank (sort_by goes_before (placeable i es)) entries
        ≡ write_all rank (placeable i es) entries
  unfolding placeable sort_by
  write_all-sort rank i [] entries = refl
  write_all-sort rank i (e ∷ es) entries = elim (Bool-cases (is_placeable e)) [
    | inl h ↦ rw h (
        write_all-insert rank (i, e) (sort_by goes_before (placeable (suc i) es)) entries
          (All-sort (Above i) (placeable (suc i) es) (Above-placeable i (suc i) es (omega arith)))
        ∙ write_all-sort rank (suc i) es (set_place entries i (rank e.scoring_time_ms + 1)))
    | inr h ↦ rw h (write_all-sort rank (suc i) es entries)
  ]

  set_place-append :
      (done : List (ResultEntry I)) (e : ResultEntry I) (es : List (ResultEntry I)) (place : ℕ)
      → set_place (done ++ e ∷ es) (length done) place
        ≡ done ++ record e { place = some place } ∷ es
  unfolding set_place
  set_place-append [] e es place = refl
  set_place-append (d ∷ done) e es place = ap (◌∷◌ d) (set_place-append done e es place)

  pub write_all-map :
      (all done es : List (ResultEntry I)) (i : ℕ)
      → i ≡ length done
      → write_all (λ t. faster t all) (placeable i es) (done ++ es) ≡ done ++ map (ranked all) es
  unfolding placeable
  write_all-map all done [] i h = refl
  write_all-map all done (e ∷ es) i h = elim (Bool-cases (is_placeable e)) [
    | inl k ↦
        let e' : ResultEntry I = record e { place = some (faster e.scoring_time_ms all + 1) } in
        rw k (
          ap (write_all (λ t. faster t all) (placeable (suc i) es)) (
            ap (λ (j : ℕ). set_place (done ++ e ∷ es) j (faster e.scoring_time_ms all + 1)) h
            ∙ set_place-append done e es (faster e.scoring_time_ms all + 1)
            ∙ sym (append_assoc done (e' ∷ []) es))
          ∙ write_all-map all (done ++ e' ∷ []) es (suc i)
              (omega (arith, length-append done (e' ∷ [])))
          ∙ append_assoc done (e' ∷ []) (map (ranked all) es))
    | inr k ↦ rw k (
        ap (write_all (λ t. faster t all) (placeable (suc i) es))
          (sym (append_assoc done (e ∷ []) es))
        ∙ write_all-map all (done ++ e ∷ []) es (suc i) (omega (arith, length-append done (e ∷ [])))
        ∙ append_assoc done (e ∷ []) (map (ranked all) es))
  ]
