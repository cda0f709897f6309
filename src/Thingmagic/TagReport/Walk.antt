-- ===== src/Thingmagic/TagReport/Walk.antt =====
-- The steps of a walk of crates/splitforge-thingmagic/src/tag_report.rs: none of them panics, and each
-- one reads what was written for it.
use splitforge.Prelude.{
  ℕ, ◌+◌, ◌-◌, ◌*◌, ◌/◌, ◌%◌, ◌^◌, Bool, true, false, ◌&&◌, List, [], ◌∷◌, ◌++◌, Option, none, some,
  length, take, drop, leb, ◌≡◌, refl, ap, sym, ◌∙◌, arith, Bool-cases, inl, inr, ◌⊎◌, done, Result,
  ok, err, length-drop, length-take, length-append, take-append, drop-append, drop-drop, index,
  bit_or, subst,
}
use splitforge.Prelude.Bits.Masks.{bit_or_fields}
use splitforge.Thingmagic.Frame.{be_u16}
use splitforge.Thingmagic.Frame.RoundTrip.{be_u16_split}
use splitforge.Thingmagic.TagReport.Bounded.{
  ReportError, truncated, Attempt, ◌>>=◌, give, fail, Cursor, take_field, u8, u16, u24, u32,
  bit_counted, bytes_of_bits, new_cursor, be_u24, be_u32,
}
use splitforge.Thingmagic.TagReport.{when_set}

abbrev pub Finishes : {A : Type 0} → Attempt A → Type 0
Finishes {A} m = (r : Result A ReportError) × (m ≡ done r)

pub bind-Finishes :
    {A B : Type 0} (m : Attempt A) (f : A → Attempt B)
    → Finishes m
    → ((a : A) → Finishes (f a))
    → Finishes (m >>= f)
bind-Finishes m f (ok a, e) h = let (r, q) = h a in (r, ap (λ (x : Attempt _). x >>= f) e ∙ q)
bind-Finishes m f (err x, e) h = (err x, ap (λ (x : Attempt _). x >>= f) e)

-- A field that is taken has the length that was wanted.
take_field-cases :
    (c : Cursor) (wanted : ℕ) (field : List ℕ)
    → ((e : ReportError) × (take_field c wanted field ≡ fail e))
      ⊎ ((bytes : List ℕ) × (length bytes ≡ wanted)
          × (take_field c wanted field ≡ give (bytes, record c { at = c.at + wanted })))
unfolding take_field
take_field-cases c wanted field =
    elim (Bool-cases (leb c.at (c.at + wanted) && leb (c.at + wanted) (length c.payload))) [
      | inr short ↦ inl (truncated field wanted (length c.payload - c.at), rw short)
      | inl fits ↦ inr (
        take (c.at + wanted - c.at) (drop c.at c.payload),
        ground (
          arith,
          length-take (c.at + wanted - c.at) (drop c.at c.payload),
          length-drop c.at c.payload,
        ),
        rw fits,
      )
    ]

pub u8-Finishes : (field : List ℕ) (c : Cursor) → Finishes (u8 field c)
unfolding u8 index
u8-Finishes field c = elim (take_field-cases c 1 field) [
  | inl (e, q) ↦ (err e, rw q)
  | inr (b ∷ [], l, q) ↦ (ok (b, record c { at = c.at + 1 }), rw q)
  | inr (_, l, q) ↦ absurd (omega arith)
]

pub u16-Finishes : (field : List ℕ) (c : Cursor) → Finishes (u16 field c)
unfolding u16 index
u16-Finishes field c = elim (take_field-cases c 2 field) [
  | inl (e, q) ↦ (err e, rw q)
  | inr (b0 ∷ b1 ∷ [], l, q) ↦ (ok (be_u16 b0 b1, record c { at = c.at + 2 }), rw q)
  | inr (_, l, q) ↦ absurd (omega arith)
]

pub u24-Finishes : (field : List ℕ) (c : Cursor) → Finishes (u24 field c)
unfolding u24 index
u24-Finishes field c = elim (take_field-cases c 3 field) [
  | inl (e, q) ↦ (err e, rw q)
  | inr (b0 ∷ b1 ∷ b2 ∷ [], l, q) ↦ (ok (be_u24 b0 b1 b2, record c { at = c.at + 3 }), rw q)
  | inr (_, l, q) ↦ absurd (omega arith)
]

pub u32-Finishes : (field : List ℕ) (c : Cursor) → Finishes (u32 field c)
unfolding u32 index
u32-Finishes field c = elim (take_field-cases c 4 field) [
  | inl (e, q) ↦ (err e, rw q)
  | inr (b0 ∷ b1 ∷ b2 ∷ b3 ∷ [], l, q) ↦ (ok (be_u32 b0 b1 b2 b3, record c { at = c.at + 4 }), rw q)
  | inr (_, l, q) ↦ absurd (omega arith)
]

pub bit_counted-Finishes : (field : List ℕ) (c : Cursor) → Finishes (bit_counted field c)
unfolding bit_counted
bit_counted-Finishes field c = bind-Finishes (u16 field c) _ (u16-Finishes field c) λ (bits, after).
    elim (take_field-cases after (bytes_of_bits bits) field) [
      | inl (e, q) ↦ (err e, q)
      | inr (bytes, l, q) ↦ (_, q)
    ]

pub when_set-Finishes :
    {A : Type 0} (set : Bool) (read : Cursor → Attempt (A × Cursor)) (c : Cursor)
    → ((c : Cursor) → Finishes (read c))
    → Finishes (when_set set read c)
unfolding when_set
when_set-Finishes false read c h = (_, refl)
when_set-Finishes true read c h = bind-Finishes (read c) _ (h c) λ (a, after). (_, refl)

-- What is left of a payload from a cursor on.
abbrev pub Stands : Cursor → List ℕ → Type 0
Stands c rest = (drop c.at c.payload ≡ rest) × (c.at + length rest ≡ length c.payload)

abbrev pub moved : Cursor → ℕ → Cursor
moved c wanted = record c { at = c.at + wanted }

-- A step from a cursor that stands before some bytes reads a value, and stands after them.
abbrev pub Reads : {A : Type 0} → (Cursor → Attempt (A × Cursor)) → List ℕ → A → Type 0
Reads read bytes a =
    (c : Cursor) (rest : List ℕ)
    → Stands c (bytes ++ rest)
    → (read c ≡ give (a, moved c (length bytes))) × Stands (moved c (length bytes)) rest

pub take_field-Reads :
    (bytes field : List ℕ) → Reads (λ (c : Cursor). take_field c (length bytes) field) bytes bytes
unfolding take_field
take_field-Reads bytes field c rest (d, l) = (
  rw fits (rw (size, d, take-append)),
  (
    sym (drop-drop (length bytes) c.at (c.at + length bytes) c.payload refl)
        ∙ ap (drop (length bytes)) d
        ∙ drop-append bytes rest,
    omega (arith, length-append bytes rest),
  ),
)
  where
    fits : (leb c.at (c.at + length bytes) && leb (c.at + length bytes) (length c.payload)) ≡ true
    fits = ground (arith, length-append bytes rest)

    size : c.at + length bytes - c.at ≡ length bytes
    size = omega arith

pub u8-Reads : (field : List ℕ) (b : ℕ) → Reads (u8 field) (b ∷ []) b
unfolding u8 index
u8-Reads field b c rest h = let (q, s) = take_field-Reads (b ∷ []) field c rest h in (rw q, s)

pub u16-Reads : (field : List ℕ) (n : ℕ) → Reads (u16 field) (n / 256 ∷ n % 256 ∷ []) n
unfolding u16 index
u16-Reads field n c rest h =
    let (q, s) = take_field-Reads (n / 256 ∷ n % 256 ∷ []) field c rest h in
    (rw (q, be_u16_split n), s)

abbrev pub split_u24 : ℕ → List ℕ
split_u24 n = n / 65536 ∷ n / 256 % 256 ∷ n % 256 ∷ []

be_u24_split : (n : ℕ) → be_u24 (n / 65536) (n / 256 % 256) (n % 256) ≡ n
unfolding be_u24
be_u24_split n = omega (
  arith,
  ap (λ (t : ℕ). bit_or t (n % 256)) high,
  bit_or_fields 8 (n / 256) (n % 256) (omega arith),
)
  where
    high : bit_or (n / 65536 * 2 ^ 16) (n / 256 % 256 * 2 ^ 8) ≡ n / 256 * 2 ^ 8
    high = bit_or_fields 16 (n / 65536) (n / 256 % 256 * 2 ^ 8) (omega arith) ∙ omega arith

pub u24-Reads : (field : List ℕ) (n : ℕ) → Reads (u24 field) (split_u24 n) n
unfolding u24 index
u24-Reads field n c rest h =
    let (q, s) = take_field-Reads (split_u24 n) field c rest h in (rw (q, be_u24_split n), s)

abbrev pub split_u32 : ℕ → List ℕ
split_u32 n = n / 16777216 ∷ n / 65536 % 256 ∷ n / 256 % 256 ∷ n % 256 ∷ []

be_u32_split : (n : ℕ) → be_u32 (n / 16777216) (n / 65536 % 256) (n / 256 % 256) (n % 256) ≡ n
unfolding be_u32
be_u32_split n = omega (
  arith,
  ap (λ (t : ℕ). bit_or (bit_or t (n / 256 % 256 * 2 ^ 8)) (n % 256)) high,
  ap (λ (t : ℕ). bit_or t (n % 256)) middle,
  bit_or_fields 8 (n / 256) (n % 256) (omega arith),
)
  where
    high : bit_or (n / 16777216 * 2 ^ 24) (n / 65536 % 256 * 2 ^ 16) ≡ n / 65536 * 2 ^ 16
    high = bit_or_fields 24 (n / 16777216) (n / 65536 % 256 * 2 ^ 16) (omega arith) ∙ omega arith

    middle : bit_or (n / 65536 * 2 ^ 16) (n / 256 % 256 * 2 ^ 8) ≡ n / 256 * 2 ^ 8
    middle = bit_or_fields 16 (n / 65536) (n / 256 % 256 * 2 ^ 8) (omega arith) ∙ omega arith

pub u32-Reads : (field : List ℕ) (n : ℕ) → Reads (u32 field) (split_u32 n) n
unfolding u32 index
u32-Reads field n c rest h =
    let (q, s) = take_field-Reads (split_u32 n) field c rest h in (rw (q, be_u32_split n), s)

-- A field of bytes, each bit of the last one counted.
abbrev pub with_bits : List ℕ → List ℕ
with_bits bytes = length bytes * 8 / 256 ∷ length bytes * 8 % 256 ∷ bytes

pub bit_counted-Reads : (field bytes : List ℕ) → Reads (bit_counted field) (with_bits bytes) bytes
unfolding bit_counted
bit_counted-Reads field bytes c rest h =
    let (q, s) = u16-Reads field (length bytes * 8) c (bytes ++ rest) h in
    let (p, t) = take_field-Reads bytes field (moved c 2) rest s in
    let size : bytes_of_bits (length bytes * 8) ≡ length bytes = omega arith in
    let same : c.at + 2 + length bytes ≡ c.at + length (with_bits bytes) = omega arith in
    (
      ap
            (λ (m : Attempt (ℕ × Cursor)).
              m >>= λ (bits, after). take_field after (bytes_of_bits bits) field)
            q
          ∙ ap (λ (n : ℕ). take_field (moved c 2) n field) size
          ∙ p
          ∙ ap (λ (n : ℕ). give (bytes, new_cursor c.payload n)) same,
      subst (λ (n : ℕ). Stands (new_cursor c.payload n) rest) same t,
    )

-- The bytes of a field that may be missing.
abbrev pub optional : {A : Type 0} → (A → List ℕ) → Option A → List ℕ
optional write none = []
optional write (some a) = write a

abbrev pub is_some : {A : Type 0} → Option A → Bool
is_some none = false
is_some (some a) = true

pub when_set-Reads :
    {A : Type 0} (read : Cursor → Attempt (A × Cursor)) (write : A → List ℕ) (o : Option A)
    (set : Bool)
    → ((a : A) → Reads read (write a) a)
    → set ≡ is_some o
    → Reads (when_set set read) (optional write o) o
unfolding when_set
when_set-Reads read write none set h e c rest s =
    let same : c.at ≡ c.at + 0 = omega arith in
    (
      (rw e) ∙ ap (λ (n : ℕ). give (none, new_cursor c.payload n)) same,
      subst (λ (n : ℕ). Stands (new_cursor c.payload n) rest) same s,
    )
when_set-Reads read write (some a) set h e c rest s = let (q, t) = h a c rest s in (rw (e, q), t)

-- A walk goes on from a step that reads.
pub bind-Reads :
    {A B : Type 0} (read : Cursor → Attempt (A × Cursor)) (bytes : List ℕ) (a : A)
    (f : A × Cursor → Attempt B) (c : Cursor) (rest : List ℕ)
    → Reads read bytes a
    → Stands c (bytes ++ rest)
    → (read c >>= f) ≡ f (a, moved c (length bytes))
bind-Reads read bytes a f c rest h s = ap (λ (m : Attempt _). m >>= f) (h c rest s).0
