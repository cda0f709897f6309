-- ===== src/Prelude/Outcomes.antt =====
-- How a piece of Rust ends. A read or a slice out of bounds panics, and panics are modelled so
-- that their absence can be proved. `stuck` is no Rust outcome: a loop of the model ran out of fuel.
use Prim.Native.Nat.{ℕ, suc, ◌+◌, ◌-◌, ◌≤◌}
use mathlib.Core.Path.{◌≡◌, refl}
use mathlib.Core.Logic.{◌⊎◌, inl, inr}
use mathlib.Core.Bool.{true, ◌&&◌}
use mathlib.Core.List.{List, [], ◌∷◌, ◌++◌}
use mathlib.Core.Option.{Option, none, some}
use native.Mathlib.Omega.{arith}
use splitforge.Prelude.Lists.{
  length, get_elem?, take, drop, length-append, take-append, drop-append,
}
use splitforge.Prelude.Tests.{leb, if◌then◌else◌}

pub data Run {ℓ} (A : Type ℓ) : Type ℓ where
  done : A → Run A
  panic : Run A
  stuck : Run A

infixl 5 ◌>>=◌ ◌>>◌
abbrev pub ◌>>=◌ {ℓ κ} : {A : Type ℓ} {B : Type κ} → Run A → (A → Run B) → Run B
done a >>= f = f a
panic >>= f = panic
stuck >>= f = stuck

abbrev pub ◌>>◌ {ℓ} : {B : Type ℓ} → Run (Unit {0}) → Run B → Run B
m >> k = m >>= λ _. k

module _ {ℓ} {A : Type ℓ} where
  -- `slice[i]`
  unfoldable pub index : List A → ℕ → Run A
  index xs i = elim (get_elem? xs i) [ none ↦ panic | some x ↦ done x ]

  -- `&slice[from..to]`
  unfoldable pub slice : List A → ℕ → ℕ → Run (List A)
  slice xs from to =
      if leb from to && leb to (length xs) then done (take (to - from) (drop from xs)) else panic

  -- `&slice[from..]`
  unfoldable pub slice_from : List A → ℕ → Run (List A)
  slice_from xs from = if leb from (length xs) then done (drop from xs) else panic

  get_elem?-append_length :
      (pre : List A) (x : A) (post : List A) → get_elem? (pre ++ x ∷ post) (length pre) ≡ some x
  get_elem?-append_length [] x post = refl
  get_elem?-append_length (y ∷ pre) x post = get_elem?-append_length pre x post

  -- Reading just behind a prefix.
  pub index-append :
      (pre : List A) (x : A) (post : List A) (i : ℕ)
      → i ≡ length pre
      → index (pre ++ x ∷ post) i ≡ done x
  unfolding index
  index-append pre x post i h = rw (h, index, get_elem?-append_length pre x post)

  get_elem?-append_suc :
      (pre : List A) (x y : A) (post : List A)
      → get_elem? (pre ++ x ∷ y ∷ post) (suc (length pre)) ≡ some y
  get_elem?-append_suc [] x y post = refl
  get_elem?-append_suc (z ∷ pre) x y post = get_elem?-append_suc pre x y post

  pub index-append_suc :
      (pre : List A) (x y : A) (post : List A) (i : ℕ)
      → i ≡ suc (length pre)
      → index (pre ++ x ∷ y ∷ post) i ≡ done y
  unfolding index
  index-append_suc pre x y post i h = rw (h, index, get_elem?-append_suc pre x y post)

  -- Slicing out the middle of three parts.
  pub slice-append :
      (pre mid post : List A) (from to : ℕ)
      → from ≡ length pre
      → to ≡ length pre + length mid
      → slice (pre ++ (mid ++ post)) from to ≡ done mid
  unfolding slice
  slice-append pre mid post from to h k = rw fits (rw (size, h, drop-append, take-append))
    where
      fits : (leb from to && leb to (length (pre ++ (mid ++ post)))) ≡ true
      fits = ground (arith, length-append pre (mid ++ post), length-append mid post)

      size : to - from ≡ length mid
      size = omega arith

  pub slice_from_lem : (xs : List A) (i : ℕ) → i ≤ length xs → slice_from xs i ≡ done (drop i xs)
  unfolding slice_from
  slice_from_lem xs i h = rw fits
    where
      fits : leb i (length xs) ≡ true
      fits = ground arith

-- Rust's `Result<A, E>`.
pub data Result {ℓ} (A E : Type ℓ) : Type ℓ where
  ok : A → Result A E
  err : E → Result A E

pub Result-cases {ℓ} :
    {A E : Type ℓ} (r : Result A E) → ((a : A) × (r ≡ ok a)) ⊎ ((e : E) × (r ≡ err e))
Result-cases (ok a) = inl (a, refl)
Result-cases (err e) = inr (e, refl)

-- `Option::and_then`, and so `?` on an `Option`.
abbrev pub and_then {ℓ κ} : {A : Type ℓ} {B : Type κ} → Option A → (A → Option B) → Option B
and_then none f = none
and_then (some a) f = f a
