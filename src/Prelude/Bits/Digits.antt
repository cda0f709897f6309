-- ===== src/Prelude/Bits/Digits.antt =====
-- One equation for the lowest digit of each native bit operation.
use Prim.Native.Nat.{min, max, differ, digits, bitwise}
use Prim.Native.Nat.{bit_and-bitwise, bit_or-bitwise, bit_xor-bitwise}
use Prim.Native.Nat.{ℕ, zero, suc, ◌+◌, ◌*◌, ◌/◌, ◌%◌, ◌≤◌, ◌<◌, bit_and, bit_or, bit_xor}
use mathlib.Core.Path.{◌≡◌, refl, ap, ◌∙◌}
use native.Mathlib.Decide.{dec_le}
use native.Mathlib.Omega.{arith}

-- The native operations stand for `bitwise`, which walks down the binary digits of its first
-- argument. Here `pad` is what it does with the digits left when these run out, and `pair` what it
-- does with two digits.
module _ (pad : ℕ → ℕ) (pair : ℕ → ℕ → ℕ) where
  settle : (n a b : ℕ) → a ≤ n → digits pad pair (suc n) a b ≡ digits pad pair n a b
  settle zero zero b h = refl
  settle zero (suc a) b h = absurd (omega arith)
  settle (suc n) zero b h = refl
  settle (suc n) (suc a) b h =
      ap (λ (t : ℕ). t * 2 + pair (suc a % 2) (b % 2)) (settle n (suc a / 2) (b / 2) (omega arith))

  own_size : (n a b : ℕ) → a ≤ n → digits pad pair n a b ≡ bitwise pad pair a b
  own_size zero zero b h = refl
  own_size zero (suc a) b h = absurd (omega arith)
  own_size (suc n) a b h = elim (dec_le a n) [
    | yes le ↦ settle n a b le ∙ own_size n a b le
    | no gt ↦ ap (λ (k : ℕ). digits pad pair k a b) {x = suc n} {y = a} (omega arith)
  ]

  module _ (start : (b : ℕ) → pad b ≡ pad (b / 2) * 2 + pair 0 (b % 2)) where
    lowest :
        (a b : ℕ)
        → bitwise pad pair a b ≡ bitwise pad pair (a / 2) (b / 2) * 2 + pair (a % 2) (b % 2)
    lowest zero b = start b
    lowest (suc a) b =
        ap (λ (t : ℕ). t * 2 + pair (suc a % 2) (b % 2))
          (own_size a (suc a / 2) (b / 2) (omega arith))

pub bit_or_step : (a b : ℕ) → bit_or a b ≡ bit_or (a / 2) (b / 2) * 2 + max (a % 2) (b % 2)
bit_or_step a b = simp bit_or-bitwise (lowest (λ rest. rest) max (λ rest. omega arith) a b)

pub bit_and_step : (a b : ℕ) → bit_and a b ≡ bit_and (a / 2) (b / 2) * 2 + min (a % 2) (b % 2)
bit_and_step a b = simp bit_and-bitwise (lowest (λ rest. 0) min (λ rest. omega arith) a b)

differ-eq-mod : (a b : ℕ) → a < 2 → b < 2 → differ a b ≡ (a + b) % 2
differ-eq-mod zero b h k = omega arith
differ-eq-mod (suc zero) zero h k = refl
differ-eq-mod (suc zero) (suc zero) h k = refl
differ-eq-mod (suc zero) (suc (suc b)) h k = absurd (omega arith)
differ-eq-mod (suc (suc a)) b h k = absurd (omega arith)

pub bit_xor_step : (a b : ℕ) → bit_xor a b ≡ bit_xor (a / 2) (b / 2) * 2 + (a % 2 + b % 2) % 2
bit_xor_step a b =
    xor_digits a b
    ∙ ap (λ (t : ℕ). bit_xor (a / 2) (b / 2) * 2 + t)
        (differ-eq-mod (a % 2) (b % 2) (omega arith) (omega arith))
  where
    xor_digits : (a b : ℕ) → bit_xor a b ≡ bit_xor (a / 2) (b / 2) * 2 + differ (a % 2) (b % 2)
    xor_digits a b = simp bit_xor-bitwise (lowest (λ rest. rest) differ (λ rest. omega arith) a b)
