-- ===== src/Prelude/Bits/Masks.antt =====
-- Masks of low bits as remainders, and `or` of disjoint fields as a sum.
use Prim.Native.Nat.{ℕ, zero, suc, ◌+◌, ◌*◌, ◌/◌, ◌%◌, ◌^◌, ◌≤◌, ◌<◌, bit_and, bit_or}
use mathlib.Core.Path.{◌≡◌, refl, ap, ◌∙◌}
use native.Mathlib.Nat.{le_refl, pow-suc}
use native.Mathlib.Omega.{arith}
use splitforge.Prelude.Bits.Digits.{bit_or_step, bit_and_step}

-- `and` with 0 and `or` with 0, from above by the size of the other argument.
and_nothing : (size a : ℕ) → a ≤ size → bit_and a 0 ≡ 0
and_nothing size zero fits = refl
and_nothing zero (suc a) fits = absurd (omega arith)
and_nothing (suc size) a fits =
    omega (arith, bit_and_step a 0, and_nothing size (a / 2) (omega arith))

-- A mask of one more low bit is one more digit of the remainder.
mask_step :
    (m : ℕ)
    → ((a : ℕ) → bit_and a m ≡ a % (m + 1))
    → (a : ℕ) → bit_and a (2 * m + 1) ≡ a / 2 % (m + 1) * 2 + a % 2
mask_step m ih a = ground (arith, bit_and_step a (2 * m + 1), ih (a / 2))

pub mask_one : (a : ℕ) → bit_and a 1 ≡ a % 2
mask_one a = omega (arith, bit_and_step a 1, and_nothing (a / 2) (a / 2) (le_refl _))

mask_three : (a : ℕ) → bit_and a 3 ≡ a % 4
mask_three a = omega (arith, mask_step 1 mask_one a)

mask_seven : (a : ℕ) → bit_and a 7 ≡ a % 8
mask_seven a = omega (arith, mask_step 3 mask_three a)

pub mask_nibble : (a : ℕ) → bit_and a 0x0F ≡ a % 16
mask_nibble a = omega (arith, mask_step 7 mask_seven a)

mask_five_bits : (a : ℕ) → bit_and a 31 ≡ a % 32
mask_five_bits a = omega (arith, mask_step 15 mask_nibble a)

mask_six_bits : (a : ℕ) → bit_and a 63 ≡ a % 64
mask_six_bits a = omega (arith, mask_step 31 mask_five_bits a)

mask_seven_bits : (a : ℕ) → bit_and a 127 ≡ a % 128
mask_seven_bits a = omega (arith, mask_step 63 mask_six_bits a)

pub mask_byte : (a : ℕ) → bit_and a 0xFF ≡ a % 256
mask_byte a = omega (arith, mask_step 127 mask_seven_bits a)

or_nothing : (size a : ℕ) → a ≤ size → bit_or a 0 ≡ a
or_nothing size zero fits = refl
or_nothing zero (suc a) fits = absurd (omega arith)
or_nothing (suc size) a fits = omega (arith, bit_or_step a 0, or_nothing size (a / 2) (omega arith))

-- `(q << k) | r` is a sum when `r` has `k` bits.
pub bit_or_fields : (k q r : ℕ) → r < 2 ^ k → bit_or (q * 2 ^ k) r ≡ q * 2 ^ k + r
bit_or_fields zero q zero h = or_nothing (q * 1) (q * 1) (le_refl _) ∙ (omega arith)
bit_or_fields zero q (suc r) h = absurd (omega arith)
bit_or_fields (suc k) q r h = ground (
  arith,
  bit_or_step (q * 2 ^ suc k) r,
  pow-suc 2 k,
  ap (λ (t : ℕ). q * t) (pow-suc 2 k),
  bit_or_fields k q (r / 2) (omega (arith, pow-suc 2 k)),
)
