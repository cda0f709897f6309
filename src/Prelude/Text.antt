-- ===== src/Prelude/Text.antt =====
-- Text as Rust's standard library walks it: a `str` is the list of its characters' code points.
-- Trimming, ASCII case, decimal numerals, and the texts of the source as lists.
pub mod Decimal
pub mod Trim
use Prim.Native.Char.{code}
use Prim.Native.String.{String}
use splitforge.Prelude.{
  ℕ, zero, suc, ◌+◌, ◌-◌, ◌*◌, ◌/◌, ◌%◌, ◌^◌, Bool, true, false, ◌&&◌, ◌||◌, List, [], ◌∷◌, ◌++◌,
  map, Option, none, some, ltb, leb, ◌==◌, if◌then◌else◌,
}

abbrev pub codes : String → List ℕ
codes String.[] = []
codes (String.◌∷◌ c s) = code c ∷ codes s

-- The code points that Unicode calls white space.
abbrev pub is_whitespace : ℕ → Bool
is_whitespace c =
    (leb 9 c && leb c 13)
    || c == 32
    || c == 0x85
    || c == 0xA0
    || c == 0x1680
    || (leb 0x2000 c && leb c 0x200A)
    || c == 0x2028
    || c == 0x2029
    || c == 0x202F
    || c == 0x205F
    || c == 0x3000

unfoldable pub trim_start : List ℕ → List ℕ
trim_start [] = []
trim_start (c ∷ text) = if is_whitespace c then trim_start text else c ∷ text

-- The white space at the end is dropped from the right.
unfoldable pub trim_end : List ℕ → List ℕ
trim_end [] = []
trim_end (c ∷ text) = elim (trim_end text) [
  | [] ↦ if is_whitespace c then [] else c ∷ []
  | d ∷ rest ↦ c ∷ d ∷ rest
]

unfoldable pub trim : List ℕ → List ℕ
trim text = trim_end (trim_start text)

unfoldable pub to_lower : ℕ → ℕ
to_lower c = if leb 65 c && leb c 90 then c + 32 else c

-- `to_ascii_lowercase`
unfoldable pub lowercase : List ℕ → List ℕ
lowercase [] = []
lowercase (c ∷ text) = to_lower c ∷ lowercase text

infix 50 ◌=ₜ◌
unfoldable pub ◌=ₜ◌ : List ℕ → List ℕ → Bool
[] =ₜ [] = true
[] =ₜ (d ∷ ds) = false
(c ∷ cs) =ₜ [] = false
(c ∷ cs) =ₜ (d ∷ ds) = c == d && cs =ₜ ds

abbrev pub is_digit : ℕ → Bool
is_digit c = leb 48 c && leb c 57

-- The digits of a decimal numeral behind `value`.
unfoldable pub parse_digits : ℕ → List ℕ → Option ℕ
parse_digits value [] = some value
parse_digits value (c ∷ text) =
    let rest = parse_digits (value * 10 + (c - 48)) text in if is_digit c then rest else none

-- A decimal numeral before `text`. A number has no more digits than its value and one.
unfoldable pub decimal_loop : ℕ → ℕ → List ℕ → List ℕ
decimal_loop zero n text = text
decimal_loop (suc fuel) n text =
    let rest = decimal_loop fuel (n / 10) ((48 + n % 10) ∷ text) in
    if ltb n 10 then (48 + n) ∷ text else rest

-- `to_string` of an unsigned number
unfoldable pub decimal : ℕ → List ℕ
decimal n = decimal_loop (suc n) n []
