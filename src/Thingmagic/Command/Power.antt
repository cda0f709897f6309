-- ===== src/Thingmagic/Command/Power.antt =====
-- crates/splitforge-thingmagic/src/command.rs: the read power, as text and as bytes. A power is not
-- negative, so its number of hundredths is a `ℕ`.
pub mod Printed
pub mod Report
use splitforge.Prelude.{
  ℕ, zero, suc, ◌+◌, ◌-◌, ◌*◌, ◌/◌, ◌%◌, ◌^◌, Bool, true, false, not, ◌&&◌, List, [], ◌∷◌, ◌++◌,
  Option, none, some, ltb, leb, ◌==◌, if◌then◌else◌, length, take, drop, and_then,
}
use splitforge.Prelude.Int.{ℤ, pos, negsuc}
use splitforge.Prelude.Text.{codes, trim, ◌=ₜ◌, is_digit, parse_digits, decimal}
use splitforge.Thingmagic.Frame.{be_u16}

pub record ReadPower : Type 0 where
  pub centi_dbm : ℕ

unfoldable pub from_centi_dbm : ℤ → Option ReadPower
from_centi_dbm (negsuc n) = none
from_centi_dbm (pos n) = some (record { centi_dbm = n })

-- `{:02}` of a number below 100
abbrev pub two_digits : ℕ → List ℕ
two_digits n = (48 + n / 10) ∷ (48 + n % 10) ∷ []

-- `Display`
unfoldable pub display : ReadPower → List ℕ
display p = decimal (p.centi_dbm / 100) ++ 46 ∷ two_digits (p.centi_dbm % 100) ++ codes " dBm"

-- `strip_suffix(suffix).unwrap_or(text)`
unfoldable pub without_suffix : List ℕ → List ℕ → List ℕ
without_suffix suffix text =
    let at = length text - length suffix in
    if leb (length suffix) (length text) && drop at text =ₜ suffix then take at text else text

-- `split_once`
unfoldable pub split_once : ℕ → List ℕ → Option (List ℕ × List ℕ)
split_once separator [] = none
split_once separator (c ∷ text) =
    let rest =
      and_then (split_once separator text) (λ (p : List ℕ × List ℕ). some (c ∷ p.0, p.1)) in
    if c == separator then some ([], text) else rest

abbrev pub all_digits : List ℕ → Bool
all_digits [] = true
all_digits (c ∷ text) = is_digit c && all_digits text

-- The closure `digits`
abbrev pub digits : List ℕ → Bool
digits [] = false
digits (c ∷ text) = all_digits (c ∷ text)

-- A number that fits a non-negative `i32`
abbrev pub checked_i32 : ℕ → Option ℕ
checked_i32 n = if ltb n (2 ^ 31) then some n else none

-- `str::parse::<i32>`, of digits
abbrev pub parse_i32 : List ℕ → Option ℕ
parse_i32 text = and_then (parse_digits 0 text) checked_i32

-- `{fraction:0<2}`, of two characters at most
abbrev pub fill_two : List ℕ → List ℕ
fill_two [] = 48 ∷ 48 ∷ []
fill_two (c ∷ []) = c ∷ 48 ∷ []
fill_two (c ∷ d ∷ text) = c ∷ d ∷ text

-- The `match` on `split_once`: the digits before the point and behind it.
unfoldable pub split_power : List ℕ → Option (List ℕ × List ℕ)
split_power text = elim (split_once 46 text) [
  | none ↦ some (text, [])
  | some (whole, fraction) ↦
      if digits fraction && leb (length fraction) 2 then some (whole, fraction) else none
]

abbrev pub power_of : ℕ → Option ReadPower
power_of centi = if ltb centi (2 ^ 15) then from_centi_dbm (pos centi) else none

unfoldable pub join_power : List ℕ × List ℕ → Option ReadPower
join_power (whole, fraction) =
    if digits whole
    then and_then (parse_i32 whole) (λ units.
      and_then (parse_i32 (fill_two fraction)) (λ hundredths.
        and_then (checked_i32 (units * 100))
          (λ value. and_then (checked_i32 (value + hundredths)) power_of)))
    else none

-- `ReadPower::from_str`, without its error, which repeats the text
unfoldable pub parse_power : List ℕ → Option ReadPower
parse_power text =
    and_then (split_power (trim (without_suffix (codes "dBm") (trim text)))) join_power

-- `i16::to_be_bytes`, of a power
abbrev pub power_bytes : ReadPower → List ℕ
power_bytes p = p.centi_dbm / 256 ∷ p.centi_dbm % 256 ∷ []

-- `i16::from_be_bytes`
unfoldable pub be_i16 : ℕ → ℕ → ℤ
be_i16 high low =
    let bits = be_u16 high low in if ltb bits (2 ^ 15) then pos bits else negsuc (2 ^ 16 - 1 - bits)

pub record PowerReport : Type 0 where
  pub centi_dbm : ℤ
  pub max_centi_dbm : ℤ
  pub min_centi_dbm : ℤ

unfoldable pub from_answer : List ℕ → Option PowerReport
from_answer (option ∷ set_high ∷ set_low ∷ max_high ∷ max_low ∷ min_high ∷ min_low ∷ rest) =
    if option == 1
    then some (record {
      centi_dbm = be_i16 set_high set_low;
      max_centi_dbm = be_i16 max_high max_low;
      min_centi_dbm = be_i16 min_high min_low;
    })
    else none
from_answer _ = none
