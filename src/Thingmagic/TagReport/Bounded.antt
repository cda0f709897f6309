-- ===== src/Thingmagic/TagReport/Bounded.antt =====
-- crates/splitforge-thingmagic/src/tag_report.rs, `Cursor`: a walk over a payload that checks its
-- bounds. A step returns the cursor after it beside its value. The sum of a place in a payload
-- and the length of a field does not leave the machine's word, since a payload has 255 bytes at
-- most.
use splitforge.Prelude.{
  ℕ, ◌+◌, ◌-◌, ◌*◌, ◌/◌, ◌^◌, ◌&&◌, List, Option, none, some, length, take, drop, leb,
  if◌then◌else◌, bit_or, Run, done, panic, stuck, Result, ok, err, index,
}
use splitforge.Thingmagic.Frame.{be_u16}

pub data ReportError : Type 0 where
  not_a_read_response : ℕ → ReportError
  unsuccessful_status : ℕ → ReportError
  truncated : List ℕ → ℕ → ℕ → ReportError
  unknown_flags : ℕ → ℕ → ReportError
  unknown_layout : ℕ → ReportError
  unknown_response_type : ℕ → ReportError
  trailing_bytes : ℕ → ReportError

-- What may panic, or end in a report's error.
abbrev pub Attempt : Type 0 → Type 0
Attempt A = Run (Result A ReportError)

-- `?`
infixl 5 ◌>>=◌ ◌>>◌
abbrev pub ◌>>=◌ : {A B : Type 0} → Attempt A → (A → Attempt B) → Attempt B
done (ok a) >>= f = f a
done (err e) >>= f = done (err e)
panic >>= f = panic
stuck >>= f = stuck

abbrev pub ◌>>◌ : {B : Type 0} → Attempt (Unit {0}) → Attempt B → Attempt B
m >> k = m >>= λ _. k

abbrev pub give : {A : Type 0} → A → Attempt A
give a = done (ok a)

abbrev pub fail : {A : Type 0} → ReportError → Attempt A
fail e = done (err e)

abbrev pub at_index : List ℕ → ℕ → Attempt ℕ
at_index bytes i = elim (index bytes i) [ done b ↦ give b | panic ↦ panic | stuck ↦ stuck ]

-- `data.get(from..to)`
abbrev pub get_range : List ℕ → ℕ → ℕ → Option (List ℕ)
get_range xs from to =
    if leb from to && leb to (length xs) then some (take (to - from) (drop from xs)) else none

pub record Cursor : Type 0 where
  pub payload : List ℕ
  pub at : ℕ

abbrev pub new_cursor : List ℕ → ℕ → Cursor
new_cursor payload at = record { payload = payload; at = at }

abbrev taken_field : Option (List ℕ) → Cursor → ℕ → List ℕ → Attempt (List ℕ × Cursor)
taken_field none c wanted field = fail (truncated field wanted (length c.payload - c.at))
taken_field (some bytes) c wanted field = give (bytes, record c { at = c.at + wanted })

unfoldable pub take_field : Cursor → ℕ → List ℕ → Attempt (List ℕ × Cursor)
take_field c wanted field = taken_field (get_range c.payload c.at (c.at + wanted)) c wanted field

unfoldable pub u8 : List ℕ → Cursor → Attempt (ℕ × Cursor)
u8 field c = do (bytes, after) ← take_field c 1 field; b ← at_index bytes 0; give (b, after)

unfoldable pub u16 : List ℕ → Cursor → Attempt (ℕ × Cursor)
u16 field c = do
  (bytes, after) ← take_field c 2 field
  b0 ← at_index bytes 0
  b1 ← at_index bytes 1
  give (be_u16 b0 b1, after)

unfoldable pub be_u24 : ℕ → ℕ → ℕ → ℕ
be_u24 b0 b1 b2 = bit_or (bit_or (b0 * 2 ^ 16) (b1 * 2 ^ 8)) b2

unfoldable pub be_u32 : ℕ → ℕ → ℕ → ℕ → ℕ
be_u32 b0 b1 b2 b3 = bit_or (bit_or (bit_or (b0 * 2 ^ 24) (b1 * 2 ^ 16)) (b2 * 2 ^ 8)) b3

unfoldable pub u24 : List ℕ → Cursor → Attempt (ℕ × Cursor)
u24 field c = do
  (bytes, after) ← take_field c 3 field
  b0 ← at_index bytes 0
  b1 ← at_index bytes 1
  b2 ← at_index bytes 2
  give (be_u24 b0 b1 b2, after)

unfoldable pub u32 : List ℕ → Cursor → Attempt (ℕ × Cursor)
u32 field c = do
  (bytes, after) ← take_field c 4 field
  b0 ← at_index bytes 0
  b1 ← at_index bytes 1
  b2 ← at_index bytes 2
  b3 ← at_index bytes 3
  give (be_u32 b0 b1 b2 b3, after)

-- `bits.div_ceil(8)`
abbrev pub bytes_of_bits : ℕ → ℕ
bytes_of_bits bits = (bits + 7) / 8

unfoldable pub bit_counted : List ℕ → Cursor → Attempt (List ℕ × Cursor)
bit_counted field c = do (bits, after) ← u16 field c; take_field after (bytes_of_bits bits) field
