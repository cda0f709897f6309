-- ===== src/Prelude/Bits.antt =====
-- Bounds and cancellation of exclusive or, at variables.
pub mod Digits
pub mod Masks
use Prim.Native.Nat.{min, max, differ, digits, bitwise}
use Prim.Native.Nat.{bit_and-bitwise, bit_or-bitwise, bit_xor-bitwise}
use Prim.Native.Nat.{ℕ, zero, suc, ◌+◌, ◌*◌, ◌/◌, ◌%◌, ◌^◌, ◌≤◌, ◌<◌, bit_and, bit_or, bit_xor}
use mathlib.Core.Path.{◌≡◌, refl, sym, ap, ◌∙◌}
use native.Mathlib.Decide.{dec_le}
use native.Mathlib.Nat.{le_refl, pow-suc}
use native.Mathlib.Omega.{arith}
use splitforge.Prelude.Bits.Digits.{bit_or_step, bit_xor_step}

-- An exclusive or of two `k`-bit numbers has `k` bits.
pub bit_xor-lt : (k a b : ℕ) → a < 2 ^ k → b < 2 ^ k → bit_xor a b < 2 ^ k
bit_xor-lt zero zero zero h g = omega arith
bit_xor-lt zero zero (suc b) h g = absurd (omega arith)
bit_xor-lt zero (suc a) b h g = absurd (omega arith)
bit_xor-lt (suc k) a b h g = omega (
  arith,
  bit_xor_step a b,
  pow-suc 2 k,
  bit_xor-lt k (a / 2) (b / 2) (omega (arith, pow-suc 2 k)) (omega (arith, pow-suc 2 k)),
)

-- A bitwise or of two `k`-bit numbers has `k` bits.
pub bit_or-lt : (k a b : ℕ) → a < 2 ^ k → b < 2 ^ k → bit_or a b < 2 ^ k
bit_or-lt zero zero zero h g = omega arith
bit_or-lt zero zero (suc b) h g = absurd (omega arith)
bit_or-lt zero (suc a) b h g = absurd (omega arith)
bit_or-lt (suc k) a b h g = omega (
  arith,
  bit_or_step a b,
  pow-suc 2 k,
  bit_or-lt k (a / 2) (b / 2) (omega (arith, pow-suc 2 k)) (omega (arith, pow-suc 2 k)),
)

-- Exclusive or with one value loses nothing.
pub bit_xor-cancel : (k a b c : ℕ) → a < 2 ^ k → b < 2 ^ k → bit_xor a c ≡ bit_xor b c → a ≡ b
bit_xor-cancel zero a b c p q e = omega arith
bit_xor-cancel (suc k) a b c p q e = omega (
  arith,
  pow-suc 2 k,
  bit_xor_step a c,
  bit_xor_step b c,
  bit_xor-cancel k (a / 2) (b / 2) (c / 2) (omega (arith, pow-suc 2 k)) (omega (arith, pow-suc 2 k))
      (omega (arith, bit_xor_step a c, bit_xor_step b c)),
)

abbrev xor_digit : ℕ → ℕ → ℕ
xor_digit a b = (a % 2 + b % 2) % 2

bit_xor_nibble :
    (a b : ℕ)
    → bit_xor a b
      ≡ bit_xor (a / 16) (b / 16) * 16
        + xor_digit (a / 8) (b / 8) * 8
        + xor_digit (a / 4) (b / 4) * 4
        + xor_digit (a / 2) (b / 2) * 2
        + xor_digit a b
bit_xor_nibble a b = ground (
  arith,
  bit_xor_step a b,
  bit_xor_step (a / 2) (b / 2),
  bit_xor_step (a / 4) (b / 4),
  bit_xor_step (a / 8) (b / 8),
)

bit_xor_zeros : (a b : ℕ) → a ≡ 0 → b ≡ 0 → bit_xor a b ≡ 0
bit_xor_zeros a b p q = rw (p, q)

low_digits :
    (x y d₃ d₂ d₁ d₀ : ℕ)
    → d₃ < 2
    → d₂ < 2
    → d₁ < 2
    → d₀ < 2
    → x ≡ y * 16 + d₃ * 8 + d₂ * 4 + d₁ * 2 + d₀
    → x % 16 ≡ d₃ * 8 + d₂ * 4 + d₁ * 2 + d₀
low_digits x y d₃ d₂ d₁ d₀ h₃ h₂ h₁ h₀ e = omega arith

xor_digit-lt : (a b : ℕ) → xor_digit a b < 2
xor_digit-lt a b = omega arith

d8 : (a : ℕ) → a % 16 / 8 % 2 ≡ a / 8 % 2
d8 a = omega arith

d4 : (a : ℕ) → a % 16 / 4 % 2 ≡ a / 4 % 2
d4 a = omega arith

d2 : (a : ℕ) → a % 16 / 2 % 2 ≡ a / 2 % 2
d2 a = omega arith

d1 : (a : ℕ) → a % 16 % 2 ≡ a % 2
d1 a = omega arith

-- The low four bits of an exclusive or come from the low four bits of its arguments.
pub bit_xor-mod_sixteen : (a b : ℕ) → bit_xor a b % 16 ≡ bit_xor (a % 16) (b % 16)
bit_xor-mod_sixteen a b =
    low_digits (bit_xor a b) (bit_xor (a / 16) (b / 16)) _ _ _ _ (xor_digit-lt (a / 8) (b / 8))
      (xor_digit-lt (a / 4) (b / 4)) (xor_digit-lt (a / 2) (b / 2)) (xor_digit-lt a b)
      (bit_xor_nibble a b)
    ∙ sym (
        bit_xor_nibble (a % 16) (b % 16)
        ∙ rw
            (
              bit_xor_zeros (a % 16 / 16) (b % 16 / 16) (omega arith) (omega arith),
              d8 a,
              d8 b,
              d4 a,
              d4 b,
              d2 a,
              d2 b,
              d1 a,
              d1 b,
            )
            (omega arith))

high_digits :
    (x y d₃ d₂ d₁ d₀ : ℕ)
    → d₃ < 2
    → d₂ < 2
    → d₁ < 2
    → d₀ < 2
    → x ≡ y * 16 + d₃ * 8 + d₂ * 4 + d₁ * 2 + d₀
    → x / 16 ≡ y
high_digits x y d₃ d₂ d₁ d₀ h₃ h₂ h₁ h₀ e = omega arith

bit_xor-div_sixteen : (a b : ℕ) → bit_xor a b / 16 ≡ bit_xor (a / 16) (b / 16)
bit_xor-div_sixteen a b =
    high_digits _ _ _ _ _ _ (xor_digit-lt (a / 8) (b / 8)) (xor_digit-lt (a / 4) (b / 4))
      (xor_digit-lt (a / 2) (b / 2)) (xor_digit-lt a b) (bit_xor_nibble a b)

-- A right shift by three nibbles goes through an exclusive or.
pub bit_xor-div_4096 : (a b : ℕ) → bit_xor a b / 4096 ≡ bit_xor (a / 4096) (b / 4096)
bit_xor-div_4096 a b = ground (
  arith,
  bit_xor-div_sixteen a b,
  bit_xor-div_sixteen (a / 16) (b / 16),
  bit_xor-div_sixteen (a / 256) (b / 256),
)

bit_xor_comm_fuel : (n a b : ℕ) → a ≤ n → b ≤ n → bit_xor a b ≡ bit_xor b a
bit_xor_comm_fuel zero zero zero h k = refl
bit_xor_comm_fuel zero zero (suc b) h k = absurd (omega arith)
bit_xor_comm_fuel zero (suc a) b h k = absurd (omega arith)
bit_xor_comm_fuel (suc n) a b h k = omega (
  arith,
  bit_xor_step a b,
  bit_xor_step b a,
  bit_xor_comm_fuel n (a / 2) (b / 2) (omega arith) (omega arith),
)

pub bit_xor_comm : (a b : ℕ) → bit_xor a b ≡ bit_xor b a
bit_xor_comm a b = bit_xor_comm_fuel (a + b) a b (omega arith) (omega arith)
