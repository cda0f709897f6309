-- ===== src/Results/Ranking/Order.antt =====
-- The order of times in `assign_places` of crates/splitforge-results/src/lib.rs: sorting by it, and
-- counting along it.
use splitforge.Prelude.{
  ℕ, suc, Bool, true, false, List, [], ◌∷◌, Option, ◌≡◌, refl, ap, ◌∙◌, arith, All, if◌then◌else◌,
  Bool-cases, inl, inr,
}
use splitforge.Prelude.Int.{ℤ}
use splitforge.Prelude.Map.{sort_by, insert_sorted}
use splitforge.Domain.Outcome.{ResultEntry}
use splitforge.Results.Ranking.{ltb_time, eq_time, goes_before}

pub ltb_time_trans :
    (a b c : Option ℤ) → ltb_time b a ≡ false → ltb_time c b ≡ false → ltb_time c a ≡ false
ltb_time_trans a b c h k = ground arith

pub ltb_time-ltb_time :
    (a b c : Option ℤ) → ltb_time b a ≡ false → ltb_time b c ≡ true → ltb_time a c ≡ true
ltb_time-ltb_time a b c h k = ground arith

pub eq_time→eq : (a b : Option ℤ) → eq_time a b ≡ true → a ≡ b
eq_time→eq a b h = ground arith

pub ltb_time_of_ne :
    (a b : Option ℤ) → ltb_time b a ≡ false → eq_time a b ≡ false → ltb_time a b ≡ true
ltb_time_of_ne a b h k = ground arith

pub ltb_time_irrefl : (a : Option ℤ) → ltb_time a a ≡ false
ltb_time_irrefl a = ground arith

swap_counts :
    (b c : Bool) (m n : ℕ)
    → n ≡ (if c then suc m else m)
    → (if b then suc n else n)
      ≡ (if c then suc (if b then suc m else m) else if b then suc m else m)
swap_counts b c m n h = ground arith

module _ {I : Type 0} where
  -- A time that an entry is ranked by.
  abbrev pub time_of : ℕ × ResultEntry I → Option ℤ
  time_of p = p.1.scoring_time_ms

  -- No entry is faster than the time.
  abbrev pub NoneFaster : Option ℤ → List (ℕ × ResultEntry I) → Type 0
  NoneFaster t ps = All (λ p. ltb_time (time_of p) t ≡ false) ps

  abbrev pub IsOrdered : List (ℕ × ResultEntry I) → Type 0
  IsOrdered [] = Unit
  IsOrdered (p ∷ ps) = NoneFaster (time_of p) ps × IsOrdered ps

  -- How many are faster than a time.
  abbrev pub below : Option ℤ → List (ℕ × ResultEntry I) → ℕ
  below t [] = 0
  below t (p ∷ ps) = let rest = below t ps in if ltb_time (time_of p) t then suc rest else rest

  pub below-NoneFaster :
      (t : Option ℤ) (ps : List (ℕ × ResultEntry I)) → NoneFaster t ps → below t ps ≡ 0
  below-NoneFaster t [] h = refl
  below-NoneFaster t (p ∷ ps) (h, k) = rw (h, below-NoneFaster t ps k)

  NoneFaster-trans :
      (s t : Option ℤ) (ps : List (ℕ × ResultEntry I))
      → ltb_time t s ≡ false
      → NoneFaster t ps
      → NoneFaster s ps
  NoneFaster-trans s t [] h k = tt
  NoneFaster-trans s t (p ∷ ps) h (l, k) =
      (ltb_time_trans s t (time_of p) h l, NoneFaster-trans s t ps h k)

  goes_before-true :
      (p q : ℕ × ResultEntry I) → goes_before p q ≡ true → ltb_time (time_of q) (time_of p) ≡ false
  unfolding goes_before
  goes_before-true p q h = ground arith

  goes_before-false :
      (p q : ℕ × ResultEntry I) → goes_before p q ≡ false → ltb_time (time_of p) (time_of q) ≡ false
  unfolding goes_before
  goes_before-false p q h = ground arith

  insert-NoneFaster :
      (t : Option ℤ) (p : ℕ × ResultEntry I) (ps : List (ℕ × ResultEntry I))
      → ltb_time (time_of p) t ≡ false
      → NoneFaster t ps
      → NoneFaster t (insert_sorted goes_before p ps)
  unfolding insert_sorted
  insert-NoneFaster t p [] h k = (h, tt)
  insert-NoneFaster t p (q ∷ ps) h (l, k) = elim (Bool-cases (goes_before q p)) [
    | inl e ↦ rw e (l, insert-NoneFaster t p ps h k)
    | inr e ↦ rw e (h, (l, k))
  ]

  insert-IsOrdered :
      (p : ℕ × ResultEntry I) (ps : List (ℕ × ResultEntry I))
      → IsOrdered ps
      → IsOrdered (insert_sorted goes_before p ps)
  unfolding insert_sorted
  insert-IsOrdered p [] h = (tt, tt)
  insert-IsOrdered p (q ∷ ps) (k, h) = elim (Bool-cases (goes_before q p)) [
    | inl e ↦
        rw e
          (insert-NoneFaster (time_of q) p ps (goes_before-true q p e) k, insert-IsOrdered p ps h)
    | inr e ↦
        let l = goes_before-false q p e in
        rw e ((l, NoneFaster-trans (time_of p) (time_of q) ps l k), (k, h))
  ]

  pub sort-IsOrdered : (ps : List (ℕ × ResultEntry I)) → IsOrdered (sort_by goes_before ps)
  unfolding sort_by
  sort-IsOrdered [] = tt
  sort-IsOrdered (p ∷ ps) = insert-IsOrdered p (sort_by goes_before ps) (sort-IsOrdered ps)

  below-insert :
      (t : Option ℤ) (p : ℕ × ResultEntry I) (ps : List (ℕ × ResultEntry I))
      → below t (insert_sorted goes_before p ps) ≡ below t (p ∷ ps)
  unfolding insert_sorted
  below-insert t p [] = refl
  below-insert t p (q ∷ ps) = elim (Bool-cases (goes_before q p)) [
    | inl e ↦ rw e (
        swap_counts (ltb_time (time_of q) t) (ltb_time (time_of p) t) (below t ps)
          (below t (insert_sorted goes_before p ps)) (below-insert t p ps))
    | inr e ↦ rw e
  ]

  pub below-sort :
      (t : Option ℤ) (ps : List (ℕ × ResultEntry I)) → below t (sort_by goes_before ps) ≡ below t ps
  unfolding sort_by
  below-sort t [] = refl
  below-sort t (p ∷ ps) =
      below-insert t p (sort_by goes_before ps)
      ∙ ap (λ (n : ℕ). if ltb_time (time_of p) t then suc n else n) (below-sort t ps)
