-- ===== src/Prelude/Fallible.antt =====
-- Rust's `?` on a `Result`, under the name that do blocks look for.
use mathlib.Core.Option.{Option, none, some}
use splitforge.Prelude.Outcomes.{Result, ok, err}

infixl 5 ◌>>=◌
abbrev pub ◌>>=◌ : {A B E : Type 0} → Result A E → (A → Result B E) → Result B E
ok a >>= f = f a
err e >>= f = err e

-- The same where do blocks are of another kind
abbrev pub try_then : {A B E : Type 0} → Result A E → (A → Result B E) → Result B E
try_then r f = r >>= f

-- `.map(f).transpose()`
abbrev pub try_map : {A B E : Type 0} → (A → Result B E) → Option A → Result (Option B) E
try_map f none = ok none
try_map f (some a) = f a >>= λ b. ok (some b)

-- `Option::ok_or`
abbrev pub ok_or : {A E : Type 0} → E → Option A → Result A E
ok_or e none = err e
ok_or e (some a) = ok a
