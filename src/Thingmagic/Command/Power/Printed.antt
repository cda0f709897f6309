-- ===== src/Thingmagic/Command/Power/Printed.antt =====
-- A read power of crates/splitforge-thingmagic/src/command.rs survives printing and sending.
use splitforge.Prelude.{
  ℕ, ◌+◌, ◌-◌, ◌*◌, ◌/◌, ◌%◌, ◌^◌, ◌<◌, true, false, ◌&&◌, List, [], ◌∷◌, ◌++◌, append_assoc,
  Option, some, ◌≡◌, refl, ap, ◌∙◌, sym, subst, arith, All, All-append_intro, length, length-append,
  drop, take-append, drop-append, leb, ◌==◌, and_then,
}
use splitforge.Prelude.Text.{codes, trim, ◌=ₜ◌, parse_digits, decimal}
use splitforge.Prelude.Text.Trim.{IsSolid, trim-append, trim-solid, =ₜ_refl}
use splitforge.Prelude.Text.Decimal.{
  IsDigit, parse_digits-decimal, parse_digits-digit, decimal-All-IsDigit, decimal-cons,
}
use splitforge.Thingmagic.Command.Power.{
  ReadPower, from_centi_dbm, two_digits, display, without_suffix, split_once, all_digits, digits,
  split_power, join_power, parse_power,
}

IsDigit-IsSolid : (c : ℕ) → IsDigit c → IsSolid c
IsDigit-IsSolid c h = ground arith

All-IsDigit-all_digits : (text : List ℕ) → All IsDigit text → all_digits text ≡ true
All-IsDigit-all_digits [] h = refl
All-IsDigit-all_digits (c ∷ text) (h, k) = rw h (All-IsDigit-all_digits text k)

split_once-digits :
    (text rest : List ℕ) → All IsDigit text → split_once 46 (text ++ 46 ∷ rest) ≡ some (text, rest)
unfolding split_once
split_once-digits [] rest h = refl
split_once-digits (c ∷ text) rest (h, k) = rw (no_point, split_once-digits text rest k)
  where
    no_point : (c == 46) ≡ false
    no_point = ground arith

without_suffix-append : (suffix text : List ℕ) → without_suffix suffix (text ++ suffix) ≡ text
unfolding without_suffix
without_suffix-append suffix text = rw test (rw size (take-append text suffix))
  where
    size : length (text ++ suffix) - length suffix ≡ length text
    size = omega (arith, length-append text suffix)

    test :
        (leb (length suffix) (length (text ++ suffix))
          && drop (length (text ++ suffix) - length suffix) (text ++ suffix) =ₜ suffix)
        ≡ true
    test =
        rw (size, drop-append text suffix, =ₜ_refl suffix)
          (ground (arith, length-append text suffix))

two_digits-IsDigit : (n : ℕ) → n < 100 → IsDigit (48 + n / 10) × IsDigit (48 + n % 10)
two_digits-IsDigit n h = ground arith

parse_digits-two_digits : (n : ℕ) → n < 100 → parse_digits 0 (two_digits n) ≡ some n
unfolding parse_digits
parse_digits-two_digits n h =
    parse_digits-digit 0 (n / 10) ((48 + n % 10) ∷ []) (omega arith)
    ∙ parse_digits-digit (0 * 10 + n / 10) (n % 10) [] (omega arith)
    ∙ ap some (omega arith)

digits-decimal : (n : ℕ) → digits (decimal n) ≡ true
digits-decimal n =
    let (c, rest, q) = decimal-cons n in
    rw q (All-IsDigit-all_digits (c ∷ rest) (subst (All IsDigit) q (decimal-All-IsDigit n)))

join_power-digits :
    (c : ℕ)
    → c < 32768
    → join_power (decimal (c / 100), two_digits (c % 100)) ≡ some (record { centi_dbm = c })
unfolding join_power from_centi_dbm
join_power-digits c h =
    rw
      (
        digits-decimal (c / 100),
        parse_digits-decimal (c / 100),
        parse_digits-two_digits (c % 100) (omega arith),
      )
      (ground arith)

split_power-digits :
    (whole : List ℕ) (n : ℕ)
    → All IsDigit whole
    → n < 100
    → split_power (whole ++ 46 ∷ two_digits n) ≡ some (whole, two_digits n)
unfolding split_power
split_power-digits whole n h k =
    rw (split_once-digits whole (two_digits n) h, split_power)
      (let d = two_digits-IsDigit n k in rw (d.0, d.1))

All-IsDigit-All-IsSolid : (text : List ℕ) → All IsDigit text → All IsSolid text
All-IsDigit-All-IsSolid [] h = tt
All-IsDigit-All-IsSolid (c ∷ text) (h, k) = (IsDigit-IsSolid c h, All-IsDigit-All-IsSolid text k)

-- The number without its unit.
abbrev number : ReadPower → List ℕ
number p = decimal (p.centi_dbm / 100) ++ 46 ∷ two_digits (p.centi_dbm % 100)

number-All-IsSolid : (p : ReadPower) → All IsSolid (number p)
number-All-IsSolid p =
    let d = two_digits-IsDigit (p.centi_dbm % 100) (omega arith) in
    All-append_intro IsSolid (decimal (p.centi_dbm / 100)) (46 ∷ two_digits (p.centi_dbm % 100))
      (All-IsDigit-All-IsSolid _ (decimal-All-IsDigit (p.centi_dbm / 100)))
      (refl, All-IsDigit-All-IsSolid (two_digits (p.centi_dbm % 100)) (d.0, (d.1, tt)))

trim-display : (p : ReadPower) → trim (number p ++ codes " dBm") ≡ number p ++ codes " dBm"
trim-display p =
    let (c, rest, q) = decimal-cons (p.centi_dbm / 100) in
    let body = rest ++ 46 ∷ two_digits (p.centi_dbm % 100) in
    let solid =
      IsDigit-IsSolid c (subst (All IsDigit) q (decimal-All-IsDigit (p.centi_dbm / 100))).0 in
    let same = ap (λ (t : List ℕ). (t ++ 46 ∷ two_digits (p.centi_dbm % 100)) ++ codes " dBm") q in
    let split = sym (append_assoc (c ∷ body) (codes " dB") (109 ∷ [])) in
    let e = same ∙ split in ap trim e ∙ trim-solid c (body ++ codes " dB") 109 solid refl ∙ sym e

-- A power that an `i16` holds is parsed back from the text that it is displayed as.
pub parse_power-display : (p : ReadPower) → p.centi_dbm < 2 ^ 15 → parse_power (display p) ≡ some p
unfolding parse_power display
parse_power-display p h =
    let unit = sym (append_assoc (number p) (32 ∷ []) (codes "dBm")) in
    let text =
      ap (without_suffix (codes "dBm")) (trim-display p ∙ unit)
      ∙ without_suffix-append (codes "dBm") (number p ++ 32 ∷ []) in
    let bare =
      ap trim text ∙ trim-append [] (number p) (32 ∷ []) tt (number-All-IsSolid p) (refl, tt) in
    ap (λ (t : List ℕ). and_then (split_power t) join_power) bare
    ∙ ap (λ (t : Option (List ℕ × List ℕ)). and_then t join_power)
        (split_power-digits (decimal (p.centi_dbm / 100)) (p.centi_dbm % 100)
          (decimal-All-IsDigit (p.centi_dbm / 100)) (omega arith))
    ∙ join_power-digits p.centi_dbm h
