-- ===== src/Prelude/Text/Decimal.antt =====
-- Decimal numerals are read back as they were printed.
use splitforge.Prelude.{
  ℕ, zero, suc, ◌+◌, ◌*◌, ◌/◌, ◌%◌, ◌<◌, true, List, [], ◌∷◌, some, ltb, ◌≡◌, ap, ◌∙◌, arith, All,
  Bool-cases, inl, inr,
}
use splitforge.Prelude.Text.{is_digit, parse_digits, decimal_loop, decimal}

abbrev pub IsDigit : ℕ → Type 0
IsDigit c = is_digit c ≡ true

numeral-IsDigit : (n : ℕ) → n < 10 → IsDigit (48 + n)
numeral-IsDigit n h = ground arith

pub parse_digits-digit :
    (value n : ℕ) (text : List ℕ)
    → n < 10
    → parse_digits value ((48 + n) ∷ text) ≡ parse_digits (value * 10 + n) text
unfolding parse_digits
parse_digits-digit value n text h =
    rw (numeral-IsDigit n h) (ap (λ (k : ℕ). parse_digits k text) (omega arith))

-- Enough fuel: the number is below it.
pub parse_digits-decimal_loop :
    (fuel n : ℕ) (text : List ℕ)
    → n < fuel
    → parse_digits 0 (decimal_loop fuel n text) ≡ parse_digits n text
unfolding decimal_loop
parse_digits-decimal_loop zero n text h = absurd (omega arith)
parse_digits-decimal_loop (suc fuel) n text h = elim (Bool-cases (ltb n 10)) [
  | inl e ↦ rw e (
      parse_digits-digit 0 n text (ground arith)
      ∙ ap (λ (k : ℕ). parse_digits k text) (omega arith))
  | inr e ↦ rw e (
      parse_digits-decimal_loop fuel (n / 10) ((48 + n % 10) ∷ text) (ground arith)
      ∙ parse_digits-digit (n / 10) (n % 10) text (omega arith)
      ∙ ap (λ (k : ℕ). parse_digits k text) (omega arith))
]

pub parse_digits-decimal : (n : ℕ) → parse_digits 0 (decimal n) ≡ some n
unfolding decimal parse_digits
parse_digits-decimal n = parse_digits-decimal_loop (suc n) n [] (omega arith)

pub decimal_loop-All-IsDigit :
    (fuel n : ℕ) (text : List ℕ)
    → n < fuel
    → All IsDigit text
    → All IsDigit (decimal_loop fuel n text)
unfolding decimal_loop
decimal_loop-All-IsDigit zero n text h k = absurd (omega arith)
decimal_loop-All-IsDigit (suc fuel) n text h k = elim (Bool-cases (ltb n 10)) [
  | inl e ↦ rw e (numeral-IsDigit n (ground arith), k)
  | inr e ↦ rw e (
      decimal_loop-All-IsDigit fuel (n / 10) ((48 + n % 10) ∷ text) (ground arith)
        (numeral-IsDigit (n % 10) (omega arith), k))
]

pub decimal-All-IsDigit : (n : ℕ) → All IsDigit (decimal n)
unfolding decimal
decimal-All-IsDigit n = decimal_loop-All-IsDigit (suc n) n [] (omega arith) tt

decimal_loop-cons :
    (fuel n : ℕ) (text : List ℕ)
    → (c : ℕ) × (rest : List ℕ) × (decimal_loop (suc fuel) n text ≡ c ∷ rest)
unfolding decimal_loop
decimal_loop-cons zero n text = elim (Bool-cases (ltb n 10)) [
  | inl e ↦ (48 + n, text, rw e)
  | inr e ↦ (48 + n % 10, text, rw e)
]
decimal_loop-cons (suc fuel) n text = elim (Bool-cases (ltb n 10)) [
  | inl e ↦ (48 + n, text, rw e)
  | inr e ↦
      let (c, rest, q) = decimal_loop-cons fuel (n / 10) ((48 + n % 10) ∷ text) in (c, rest, rw e q)
]

-- A numeral is never empty.
pub decimal-cons : (n : ℕ) → (c : ℕ) × (rest : List ℕ) × (decimal n ≡ c ∷ rest)
unfolding decimal
decimal-cons n = decimal_loop-cons n n []
