-- ===== src/Thingmagic/Command/Codes/Tables.antt =====
-- The tables of crates/splitforge-thingmagic/src/command.rs agree in both directions.
use splitforge.Prelude.{
  ℕ, List, [], ◌∷◌, ◌++◌, some, ◌≡◌, ◌↔◌, refl, ap, ◌∙◌, sym, subst, arith, All, ◌==◌, ==_iff,
  Bool-cases, inl, inr, Bool, true, not, ◌&&◌,
}
use splitforge.Prelude.Text.{lowercase, to_lower, ◌=ₜ◌, is_whitespace}
use splitforge.Prelude.Text.Trim.{IsBlank, IsSolid, trim-append}
use splitforge.Thingmagic.Command.Codes.{
  OpCode, write_flash, to_byte, arms, match_byte, from_byte, Region, na, region_name, region_byte,
  find_region, find_name, all_regions, parse_region,
}

some_inj : {A : Type 0} {a b : A} → some a ≡ some b → a ≡ b
some_inj h = cc

from_byte-to_byte : (opcode : OpCode) → from_byte (to_byte opcode) ≡ some opcode
unfolding from_byte match_byte to_byte
from_byte-to_byte write_flash = refl
from_byte-to_byte _ = refl

abbrev Names : ℕ × OpCode → Type 0
Names (value, opcode) = to_byte opcode ≡ value

match_byte-All :
    (arms : List (ℕ × OpCode)) (byte : ℕ) (opcode : OpCode)
    → All Names arms
    → match_byte arms byte ≡ some opcode
    → to_byte opcode ≡ byte
unfolding match_byte
match_byte-All [] byte opcode h e = absurd cc
match_byte-All ((value, o) ∷ arms) byte opcode (n, h) e = elim (Bool-cases (byte == value)) [
  | inl q ↦
      let r = some_inj (rw q at e) in
      subst (λ (x : OpCode). to_byte x ≡ byte) r (n ∙ sym ((==_iff byte value).0 q))
  | inr q ↦ match_byte-All arms byte opcode h (rw q at e)
]

arms-All : All Names arms
unfolding to_byte
arms-All = omega arith

-- A byte names the opcode that is sent as that byte, and no other byte names one.
pub from_byte_iff :
    (byte : ℕ) (opcode : OpCode) → (from_byte byte ≡ some opcode) ↔ (to_byte opcode ≡ byte)
unfolding from_byte
from_byte_iff byte opcode = (
  match_byte-All arms byte opcode arms-All,
  λ h. subst (λ (b : ℕ). from_byte b ≡ some opcode) h (from_byte-to_byte opcode),
)

find_name-region_name : (region : Region) → find_name all_regions (region_name region) ≡ some region
unfolding find_name region_name find_region region_byte ◌=ₜ◌
find_name-region_name na = refl
find_name-region_name _ = refl

abbrev all_solid : List ℕ → Bool
all_solid [] = true
all_solid (c ∷ text) = not (is_whitespace c) && all_solid text

all_solid_sound : (text : List ℕ) → all_solid text ≡ true → All IsSolid text
all_solid_sound [] h = tt
all_solid_sound (c ∷ text) h = ground (arith, all_solid_sound text)

region_name-all_solid : (region : Region) → all_solid (region_name region) ≡ true
unfolding region_name find_region region_byte
region_name-all_solid na = refl
region_name-all_solid _ = refl

region_name-All-IsSolid : (region : Region) → All IsSolid (region_name region)
region_name-All-IsSolid region = all_solid_sound (region_name region) (region_name-all_solid region)

to_lower-IsSolid : (c : ℕ) → IsSolid (to_lower c) → IsSolid c
unfolding to_lower
to_lower-IsSolid c h = ground arith

lowercase-All-IsSolid : (text : List ℕ) → All IsSolid (lowercase text) → All IsSolid text
unfolding lowercase
lowercase-All-IsSolid [] h = tt
lowercase-All-IsSolid (c ∷ text) (h, k) = (to_lower-IsSolid c h, lowercase-All-IsSolid text k)

-- A region is found by its name, in letters of either case, with any white space around it.
pub parse_region-region_name :
    (region : Region) (pre text post : List ℕ)
    → All IsBlank pre
    → lowercase text ≡ region_name region
    → All IsBlank post
    → parse_region (pre ++ (text ++ post)) ≡ some region
unfolding parse_region
parse_region-region_name region pre text post h e k =
    let solid =
      lowercase-All-IsSolid text (subst (All IsSolid) (sym e) (region_name-All-IsSolid region)) in
    ap (λ (t : List ℕ). find_name all_regions (lowercase t)) (trim-append pre text post h solid k)
    ∙ ap (find_name all_regions) e
    ∙ find_name-region_name region
