-- ===== src/Prelude/Map.antt =====
-- Maps and sorts of Rust's standard library over native lists: `BTreeMap` as a list in the order of
-- its keys, and the stable `sort_by`.
use splitforge.Prelude.{
  ℕ, Bool, true, false, List, [], ◌∷◌, Option, none, some, if◌then◌else◌, ltb, ◌==◌, ◌||◌, ◌&&◌,
  not,
}

module _ {K V : Type 0} (lt : K → K → Bool) where
  unfoldable pub get : K → List (K × V) → Option V
  get k [] = none
  get k ((j, v) ∷ m) = if lt k j then none else if lt j k then get k m else some v

  -- `entry(k)` and what is done with it: the value that was there, if any, is replaced.
  unfoldable pub update : K → (Option V → V) → List (K × V) → List (K × V)
  update k f [] = (k, f none) ∷ []
  update k f ((j, v) ∷ m) =
      let rest = update k f m in
      if lt k j
      then (k, f none) ∷ (j, v) ∷ m
      else if lt j k
      then (j, v) ∷ rest
      else (k, f (some v)) ∷ m

-- A stable sort: `x` goes behind everything that is not greater than it, from the right.
module _ {A : Type 0} (lt : A → A → Bool) where
  unfoldable pub insert_sorted : A → List A → List A
  insert_sorted x [] = x ∷ []
  insert_sorted x (y ∷ ys) =
      let rest = insert_sorted x ys in if lt y x then y ∷ rest else x ∷ y ∷ ys

  unfoldable pub sort_by : List A → List A
  sort_by [] = []
  sort_by (x ∷ xs) = insert_sorted x (sort_by xs)

-- The order of two byte strings.
unfoldable pub ltb_bytes : List ℕ → List ℕ → Bool
ltb_bytes [] [] = false
ltb_bytes [] (y ∷ ys) = true
ltb_bytes (x ∷ xs) [] = false
ltb_bytes (x ∷ xs) (y ∷ ys) = ltb x y || (x == y && ltb_bytes xs ys)

-- The order of pairs, tuples and chained `then_with`: the first part decides unless it is equal.
module _ {A B : Type 0} (lt : A → A → Bool) (lt' : B → B → Bool) where
  abbrev pub ltb_pair : A × B → A × B → Bool
  ltb_pair (a, b) (c, d) = lt a c || (not (lt c a) && lt' b d)

-- `None` comes first in the order of `Option`.
module _ {A : Type 0} (lt : A → A → Bool) where
  abbrev pub ltb_option : Option A → Option A → Bool
  ltb_option none none = false
  ltb_option none (some b) = true
  ltb_option (some a) none = false
  ltb_option (some a) (some b) = lt a b
