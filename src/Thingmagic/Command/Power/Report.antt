-- ===== src/Thingmagic/Command/Power/Report.antt =====
-- The power that a module reports, of crates/splitforge-thingmagic/src/command.rs.
use splitforge.Prelude.{ℕ, ◌-◌, ◌/◌, ◌%◌, ◌^◌, List, [], ◌∷◌, ◌++◌, some, ◌≡◌, arith}
use splitforge.Prelude.Int.{ℤ, pos, negsuc, ◌≤ℤ◌}
use splitforge.Thingmagic.Frame.RoundTrip.{be_u16_split}
use splitforge.Thingmagic.Command.Power.{PowerReport, from_answer, be_i16}

-- The sixteen bits of an integer in two's complement
abbrev pub bits_of : ℤ → ℕ
bits_of (pos n) = n
bits_of (negsuc n) = 2 ^ 16 - 1 - n

abbrev pub IsI16 : ℤ → Type 0
IsI16 z = (negsuc (2 ^ 15 - 1) ≤ℤ z) × (z ≤ℤ pos (2 ^ 15 - 1))

abbrev pub i16_bytes : ℤ → List ℕ
i16_bytes z = bits_of z / 256 ∷ bits_of z % 256 ∷ []

be_i16-bits_of : (z : ℤ) → IsI16 z → be_i16 (bits_of z / 256) (bits_of z % 256) ≡ z
unfolding be_i16
be_i16-bits_of (pos n) (h, k) = rw (be_u16_split n) (ground arith)
be_i16-bits_of (negsuc n) (h, k) = rw (be_u16_split (2 ^ 16 - 1 - n)) (ground arith)

-- An answer that echoes option 1 and then has three powers as big-endian i16s is read as these, in the
-- order of the power in force, the most and the least, whatever follows them.
pub from_answer-i16_bytes :
    (r : PowerReport) (rest : List ℕ)
    → IsI16 r.centi_dbm
    → IsI16 r.max_centi_dbm
    → IsI16 r.min_centi_dbm
    → from_answer (
        1 ∷ i16_bytes r.centi_dbm
        ++ (i16_bytes r.max_centi_dbm ++ (i16_bytes r.min_centi_dbm ++ rest)))
      ≡ some r
unfolding from_answer
from_answer-i16_bytes r rest h k l = rw (
  be_i16-bits_of r.centi_dbm h,
  be_i16-bits_of r.max_centi_dbm k,
  be_i16-bits_of r.min_centi_dbm l,
)
