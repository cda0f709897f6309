-- ===== src/Results/Ranking/Places.antt =====
-- What `assign_places` of crates/splitforge-results/src/lib.rs writes: standard competition ranking.
use splitforge.Prelude.{
  ℕ, suc, ◌+◌, ◌^◌, ◌<◌, ◌≤◌, true, false, List, [], ◌∷◌, map, Option, none, some, ◌≡◌, refl, ap,
  ◌∙◌, arith, All, length, if◌then◌else◌, not, Bool-cases, inl, inr, ◌&&◌,
}
use splitforge.Prelude.Int.{ℤ}
use splitforge.Prelude.Map.{sort_by, insert_sorted}
use splitforge.Domain.Outcome.{ResultEntry, ResultStatus, finished, dns, dnf, dq, is_placed}
use splitforge.Results.Ranking.{
  ltb_time, eq_time, is_placeable, place_at, placeable, goes_before, set_place, assign_loop,
  assign_places,
}
use splitforge.Results.Ranking.Writes.{
  faster, ranked, write_all, All-sort, write_all-sort, write_all-map,
}
use splitforge.Results.Ranking.Order.{
  ltb_time-ltb_time, eq_time→eq, ltb_time_of_ne, ltb_time_irrefl, time_of, NoneFaster, IsOrdered,
  below, below-NoneFaster, sort-IsOrdered, below-sort,
}

ltb_time-none : (t : Option ℤ) → ltb_time t none ≡ false
ltb_time-none none = refl
ltb_time-none (some ms) = refl

has_time :
    (status : ResultStatus) (t : Option ℤ)
    → (is_placed status && (elim t [ none ↦ false | some ms ↦ true ])) ≡ true
    → (ms : ℤ) × (t ≡ some ms)
unfolding is_placed
has_time finished none h = absurd cc
has_time finished (some ms) h = (ms, refl)
has_time dns t h = absurd cc
has_time dnf t h = absurd cc
has_time dq t h = absurd cc

module _ {I : Type 0} where
  abbrev Timed : ℕ × ResultEntry I → Type 0
  Timed p = (ms : ℤ) × (time_of p ≡ some ms)

  -- The place that the loop gives next.
  chosen_place :
      (rank : Option ℤ → ℕ) (p : ℕ × ResultEntry I) (ps : List (ℕ × ResultEntry I))
      (offset place : ℕ) (previous : Option ℤ)
      → ltb_time (time_of p) previous ≡ false
      → NoneFaster (time_of p) ps
      → (ltb_time previous (time_of p) ≡ true
          → rank (time_of p) ≡ offset + below (time_of p) (p ∷ ps))
      → (previous ≡ time_of p → place ≡ rank (time_of p) + 1)
      → offset + 1 < 2 ^ 32
      → (if not (eq_time previous (time_of p)) then place_at offset else place)
        ≡ rank (time_of p) + 1
  chosen_place rank p ps offset place previous np least h b k =
      elim (Bool-cases (eq_time previous (time_of p))) [
        | inl e ↦ rw e (b (eq_time→eq previous (time_of p) e))
        | inr e ↦
            let z = h (ltb_time_of_ne previous (time_of p) np e) in
            let y = below-NoneFaster (time_of p) (p ∷ ps) (ltb_time_irrefl (time_of p), least) in
            rw e (omega (arith, z, y))
      ]

  counted_in :
      (offset : ℕ) (p : ℕ × ResultEntry I) (ps : List (ℕ × ResultEntry I)) (t : Option ℤ)
      → ltb_time (time_of p) t ≡ true
      → offset + below t (p ∷ ps) ≡ suc offset + below t ps
  counted_in offset p ps t l = rw l (omega arith)

  assign_loop-write_all :
      (rank : Option ℤ → ℕ) (ps : List (ℕ × ResultEntry I)) (offset place : ℕ) (previous : Option ℤ)
      (entries : List (ResultEntry I))
      → IsOrdered ps
      → NoneFaster previous ps
      → All Timed ps
      → ((t : Option ℤ) → ltb_time previous t ≡ true → rank t ≡ offset + below t ps)
      → ((ms : ℤ) → previous ≡ some ms → place ≡ rank previous + 1)
      → offset + length ps < 2 ^ 32
      → assign_loop ps offset place previous entries ≡ write_all rank ps entries
  unfolding assign_loop
  assign_loop-write_all rank [] offset place previous entries o n td h b k = refl
  assign_loop-write_all rank (p ∷ ps) offset place previous entries (least, o) (np, n)
        ((ms, tp), td) h b k =
      ap
        (λ (place' : ℕ).
          assign_loop ps (suc offset) place' (time_of p) (set_place entries p.0 place'))
        (chosen_place rank p ps offset place previous np least (h (time_of p))
          (λ q. b ms (q ∙ tp) ∙ ap (λ (t : Option ℤ). rank t + 1) q) (omega arith))
      ∙ assign_loop-write_all rank ps (suc offset) (rank (time_of p) + 1) (time_of p)
          (set_place entries p.0 (rank (time_of p) + 1)) o least td
          (λ t l. h t (ltb_time-ltb_time previous (time_of p) t np l) ∙ counted_in offset p ps t l)
          (λ ms' e. refl) (omega arith)

  pub below-placeable :
      (t : Option ℤ) (i : ℕ) (entries : List (ResultEntry I))
      → below t (placeable i entries) ≡ faster t entries
  unfolding placeable
  below-placeable t i [] = refl
  below-placeable t i (e ∷ entries) = elim (Bool-cases (is_placeable e)) [
    | inl h ↦ rw (h, below-placeable t (suc i) entries)
    | inr h ↦ rw h (below-placeable t (suc i) entries)
  ]

  slowest_none : (ps : List (ℕ × ResultEntry I)) → NoneFaster none ps
  slowest_none [] = tt
  slowest_none (p ∷ ps) = (ltb_time-none (time_of p), slowest_none ps)

  Timed-placeable : (i : ℕ) (entries : List (ResultEntry I)) → All Timed (placeable i entries)
  unfolding placeable
  Timed-placeable i [] = tt
  Timed-placeable i (e ∷ entries) = elim (Bool-cases (is_placeable e)) [
    | inl h ↦ rw h (has_time e.status e.scoring_time_ms h, Timed-placeable (suc i) entries)
    | inr h ↦ rw h (Timed-placeable (suc i) entries)
  ]

  length-placeable :
      (i : ℕ) (entries : List (ResultEntry I)) → length (placeable i entries) ≤ length entries
  unfolding placeable
  length-placeable i [] = omega arith
  length-placeable i (e ∷ entries) = elim (Bool-cases (is_placeable e)) [
    | inl h ↦ rw h (omega (arith, length-placeable (suc i) entries))
    | inr h ↦ rw h (omega (arith, length-placeable (suc i) entries))
  ]

  length-insert :
      (p : ℕ × ResultEntry I) (ps : List (ℕ × ResultEntry I))
      → length (insert_sorted goes_before p ps) ≡ suc (length ps)
  unfolding insert_sorted
  length-insert p [] = refl
  length-insert p (q ∷ ps) = elim (Bool-cases (goes_before q p)) [
    | inl e ↦ rw e (ap (λ (n : ℕ). suc n) (length-insert p ps))
    | inr e ↦ rw e
  ]

  length-sort : (ps : List (ℕ × ResultEntry I)) → length (sort_by goes_before ps) ≡ length ps
  unfolding sort_by
  length-sort [] = refl
  length-sort (p ∷ ps) =
      length-insert p (sort_by goes_before ps) ∙ ap (λ (n : ℕ). suc n) (length-sort ps)

  -- On a sheet of fewer than 2 ^ 32 entries `assign_places` gives each entry that takes a place one more than
  -- the number of those that are faster, and leaves the others as they are.
  pub assign_places-ranked :
      (entries : List (ResultEntry I))
      → length entries < 2 ^ 32
      → assign_places entries ≡ map (ranked entries) entries
  unfolding assign_places
  assign_places-ranked entries h =
      let ps = placeable 0 entries in
      assign_loop-write_all (λ t. faster t entries) (sort_by goes_before ps) 0 0 none entries
        (sort-IsOrdered ps) (slowest_none (sort_by goes_before ps))
        (All-sort Timed ps (Timed-placeable 0 entries))
        (λ t l. omega (arith, below-sort t ps, below-placeable t 0 entries)) (λ ms e. absurd cc)
        (omega (arith, length-sort ps, length-placeable 0 entries))
      ∙ write_all-sort (λ t. faster t entries) 0 entries entries
      ∙ write_all-map entries [] entries 0 refl
