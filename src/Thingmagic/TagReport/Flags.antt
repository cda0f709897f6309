-- ===== src/Thingmagic/TagReport/Flags.antt =====
-- The flags of crates/splitforge-thingmagic/src/tag_report.rs as binary digits.
use splitforge.Prelude.{
  ℕ, zero, suc, ◌+◌, ◌*◌, ◌/◌, ◌%◌, ◌^◌, ◌<◌, ◌==◌, ◌≡◌, refl, ap, arith, bit_and, some,
}
use splitforge.Prelude.Bits.Digits.{bit_and_step}
use splitforge.Prelude.Bits.Masks.{mask_one, mask_nibble}
use splitforge.Thingmagic.TagReport.{has, logical_antenna}
use native.Mathlib.Nat.{pow-suc}
use Prim.Native.Nat.{bit_and-bitwise}

bit_1 : (n : ℕ) → bit_and n 2 ≡ n / 2 % 2 * 2
bit_1 n = omega (arith, bit_and_step n 2, mask_one (n / 2))

bit_2 : (n : ℕ) → bit_and n 4 ≡ n / 4 % 2 * 4
bit_2 n = omega (arith, bit_and_step n 4, bit_1 (n / 2))

bit_3 : (n : ℕ) → bit_and n 8 ≡ n / 8 % 2 * 8
bit_3 n = omega (arith, bit_and_step n 8, bit_2 (n / 2))

bit_4 : (n : ℕ) → bit_and n 16 ≡ n / 16 % 2 * 16
bit_4 n = omega (arith, bit_and_step n 16, bit_3 (n / 2))

bit_5 : (n : ℕ) → bit_and n 32 ≡ n / 32 % 2 * 32
bit_5 n = omega (arith, bit_and_step n 32, bit_4 (n / 2))

bit_6 : (n : ℕ) → bit_and n 64 ≡ n / 64 % 2 * 64
bit_6 n = omega (arith, bit_and_step n 64, bit_5 (n / 2))

bit_7 : (n : ℕ) → bit_and n 128 ≡ n / 128 % 2 * 128
bit_7 n = omega (arith, bit_and_step n 128, bit_6 (n / 2))

bit_8 : (n : ℕ) → bit_and n 256 ≡ n / 256 % 2 * 256
bit_8 n = omega (arith, bit_and_step n 256, bit_7 (n / 2))

-- A number of `k` bits has none above them.
pub bit_and_above : (k m n : ℕ) → n < 2 ^ k → bit_and n (m * 2 ^ k) ≡ 0
bit_and_above zero m zero h = simp bit_and-bitwise refl
bit_and_above zero m (suc n) h = absurd (omega arith)
bit_and_above (suc k) m n h = ground (
  arith,
  bit_and_step n (m * 2 ^ suc k),
  pow-suc 2 k,
  ap (λ (t : ℕ). m * t) (pow-suc 2 k),
  bit_and_above k m (n / 2) (omega (arith, pow-suc 2 k)),
)

pub has-digits :
    (flags : ℕ)
    → (has flags 1 ≡ (flags % 2 == 1))
      × (has flags 2 ≡ (flags / 2 % 2 == 1))
      × (has flags 4 ≡ (flags / 4 % 2 == 1))
      × (has flags 8 ≡ (flags / 8 % 2 == 1))
      × (has flags 16 ≡ (flags / 16 % 2 == 1))
      × (has flags 32 ≡ (flags / 32 % 2 == 1))
      × (has flags 64 ≡ (flags / 64 % 2 == 1))
      × (has flags 128 ≡ (flags / 128 % 2 == 1))
      × (has flags 256 ≡ (flags / 256 % 2 == 1))
unfolding has
has-digits flags = (
  ground (arith, mask_one flags),
  ground (arith, bit_1 flags),
  ground (arith, bit_2 flags),
  ground (arith, bit_3 flags),
  ground (arith, bit_4 flags),
  ground (arith, bit_5 flags),
  ground (arith, bit_6 flags),
  ground (arith, bit_7 flags),
  ground (arith, bit_8 flags),
)

-- The antenna byte of a port that transmits and receives; port 16 is written as 0.
pub logical_antenna-port :
    (port : ℕ) → 0 < port → port < 17 → logical_antenna (port % 16 * 16 + port % 16) ≡ some port
unfolding logical_antenna
logical_antenna-port port h k = ground (
  arith,
  mask_nibble ((port % 16 * 16 + port % 16) / 2 ^ 4),
  mask_nibble (port % 16 * 16 + port % 16),
)
