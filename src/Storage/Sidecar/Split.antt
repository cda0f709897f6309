-- ===== src/Storage/Sidecar/Split.antt =====
-- How a text, and the hexadecimal digits of one, split into the lines of the sidecar.
use splitforge.Prelude.{
  ℕ, ◌/◌, ◌%◌, ◌<◌, ◌≡◌, refl, true, false, List, [], ◌∷◌, ◌++◌, some, leb, ◌==◌, arith, Bool-cases,
  inl, inr, All,
}
use splitforge.Storage.Record.{hex_lower, hex_char}
use splitforge.Storage.Sidecar.{split_at_byte}
use splitforge.Storage.Sidecar.Lines.{split_lines, add_byte}

abbrev pub IsOther10 : ℕ → Type 0
IsOther10 c = (c == 10) ≡ false

split_lines-cons :
    (c : ℕ) (ys : List ℕ) (lines : List (List ℕ)) (tail : List ℕ)
    → (c == 10) ≡ false
    → add_byte c (lines ++ (split_lines (tail ++ ys)).0, (split_lines (tail ++ ys)).1) ≡ (
      (add_byte c (lines, tail)).0 ++ (split_lines ((add_byte c (lines, tail)).1 ++ ys)).0,
      (split_lines ((add_byte c (lines, tail)).1 ++ ys)).1,
    )
unfolding split_lines
split_lines-cons c ys [] tail e = rw e
split_lines-cons c ys (line ∷ lines) tail e = refl

-- The lines of two texts, one behind the other: the end of the first goes on in the second.
pub split_lines-append :
    (xs ys : List ℕ)
    → split_lines (xs ++ ys) ≡ (
      (split_lines xs).0 ++ (split_lines ((split_lines xs).1 ++ ys)).0,
      (split_lines ((split_lines xs).1 ++ ys)).1,
    )
unfolding split_lines
split_lines-append [] ys = refl
split_lines-append (c ∷ xs) ys = elim (Bool-cases (c == 10)) [
  | inl e ↦ rw (e, split_lines-append xs ys)
  | inr e ↦
      let s = split_lines-cons c ys (split_lines xs).0 (split_lines xs).1 e in
      rw (e, split_lines-append xs ys) s
]

-- The end of a text has no line feed.
pub split_lines-All : (xs : List ℕ) → All IsOther10 (split_lines xs).1
unfolding split_lines
split_lines-All [] = tt
split_lines-All (c ∷ xs) = elim (Bool-cases (c == 10)) [
  | inl e ↦ rw e (split_lines-All xs)
  | inr e ↦ rw e (added e (split_lines xs) (split_lines-All xs))
]
  where
    added :
        (c == 10) ≡ false
        → (s : List (List ℕ) × List ℕ) → All IsOther10 s.1
        → All IsOther10 (add_byte c s).1
    added e ([], tail) h = (e, h)
    added e (line ∷ lines, tail) h = h

pub split_lines-line :
    (line rest : List ℕ)
    → All IsOther10 line
    → split_lines (line ++ 10 ∷ rest) ≡ (line ∷ (split_lines rest).0, (split_lines rest).1)
unfolding split_lines
split_lines-line [] rest h = refl
split_lines-line (c ∷ line) rest (e, h) = rw (e, split_lines-line line rest h)

pub split_at_byte-hex :
    (bytes text : List ℕ)
    → split_at_byte 32 (hex_lower bytes ++ 32 ∷ text) ≡ some (hex_lower bytes, text)
unfolding split_at_byte hex_lower
split_at_byte-hex [] text = refl
split_at_byte-hex (b ∷ bytes) text =
    let high : (hex_char (b / 16) == 32) ≡ false = ground arith in
    let low : (hex_char (b % 16) == 32) ≡ false = ground arith in
    rw (high, low, split_at_byte-hex bytes text)

pub hex_char-ascii : (n : ℕ) → n < 16 → leb (hex_char n) 127 ≡ true
hex_char-ascii n h = ground arith

pub hex_lower-All : (bytes : List ℕ) → All IsOther10 (hex_lower bytes)
unfolding hex_lower
hex_lower-All [] = tt
hex_lower-All (b ∷ bytes) = (ground arith, (ground arith, hex_lower-All bytes))
