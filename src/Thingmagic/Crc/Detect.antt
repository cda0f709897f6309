-- ===== src/Thingmagic/Crc/Detect.antt =====
-- What the checksum of crates/splitforge-thingmagic/src/crc.rs detects: no step of it loses a bit
-- of the register or of the nibble that it folds in.
use native.Mathlib.Decide.{ℕ_discrete}
use splitforge.Prelude.{
  subst, ℕ, zero, suc, ◌+◌, ◌*◌, ◌/◌, ◌%◌, ◌^◌, ◌<◌, bit_and, bit_or, bit_xor, List, [], ◌∷◌, ◌++◌,
  ◌≡◌, ◌≢◌, refl, ap, sym, ◌∙◌, arith, All,
}
use splitforge.Prelude.Bits.{
  bit_xor-lt, bit_xor-cancel, bit_xor-mod_sixteen, bit_xor-div_4096, bit_xor_comm,
}
use splitforge.Prelude.Bits.Masks.{mask_nibble, bit_or_fields}
use splitforge.Thingmagic.Crc.{polynomial, init, table_loop, table, feed, crc16_loop, crc16}

abbrev pub IsByte : ℕ → Type 0
IsByte b = b < 256

table_loop-lt :
    (rounds index bit product : ℕ) → product < 2 ^ 16 → table_loop rounds index bit product < 2 ^ 16
unfolding table_loop
table_loop-lt zero index bit product h = h
table_loop-lt (suc rounds) index bit product h =
    table_loop-lt rounds index (bit + 1) _
      (ground (arith, bit_xor-lt 16 product (polynomial * 2 ^ bit % 2 ^ 16) h (omega arith)))

table-lt : (index : ℕ) → table index < 2 ^ 16
unfolding table
table-lt index = table_loop-lt 4 index 0 0 (omega arith)

-- The register shifted by a nibble, before the table is folded in.
shifted :
    (crc nibble : ℕ) → nibble < 16 → bit_or (crc * 2 ^ 4 % 2 ^ 16) nibble ≡ crc % 4096 * 16 + nibble
shifted crc nibble h =
    ap (λ (t : ℕ). bit_or t nibble) (omega arith)
    ∙ bit_or_fields 4 (crc % 4096) nibble (omega arith)

feed-eq :
    (crc nibble : ℕ)
    → nibble < 16
    → feed crc nibble ≡ bit_xor (crc % 4096 * 16 + nibble) (table (crc / 4096))
unfolding feed
feed-eq crc nibble h = ap (λ (t : ℕ). bit_xor t (table (crc / 4096))) (shifted crc nibble h)

pub feed-lt : (crc nibble : ℕ) → nibble < 16 → feed crc nibble < 2 ^ 16
feed-lt crc nibble h = rw (feed-eq crc nibble h) (bit_xor-lt 16 _ _ (omega arith) (table-lt _))

low_nibble : (byte : ℕ) → bit_and byte 0x0F < 16
low_nibble byte = omega (arith, mask_nibble byte)

pub crc16_loop-lt :
    (bytes : List ℕ) (crc : ℕ) → All IsByte bytes → crc < 2 ^ 16 → crc16_loop bytes crc < 2 ^ 16
unfolding crc16_loop
crc16_loop-lt [] crc hb h = h
crc16_loop-lt (byte ∷ bytes) crc (hb, hbs) h =
    crc16_loop-lt bytes _ hbs (feed-lt _ _ (low_nibble byte))

pub crc16-lt : (bytes : List ℕ) → All IsByte bytes → crc16 bytes < 2 ^ 16
unfolding crc16
crc16-lt bytes h = crc16_loop-lt bytes init h (omega arith)

-- The polynomial ends in the nibble 1, so an entry of the table ends in its own index.
abbrev RowsBelow : ℕ → Type 0
RowsBelow zero = Unit
RowsBelow (suc n) = (table n % 16 ≡ n) × RowsBelow n

row : (n i : ℕ) → RowsBelow n → i < n → table i % 16 ≡ i
row zero i rows h = absurd (omega arith)
row (suc n) i (last, rows) h = elim (ℕ_discrete i n) [
  | yes e ↦ subst (λ (k : ℕ). table k % 16 ≡ k) (sym e) last
  | no ne ↦ row n i rows (omega arith)
]

sixteen_rows : RowsBelow 16
unfolding table
sixteen_rows = (
  refl,
  (
    refl,
    (
      refl,
      (
        refl,
        (
          refl,
          (
            refl,
            (refl, (refl, (refl, (refl, (refl, (refl, (refl, (refl, (refl, (refl, tt)))))))))),
          ),
        ),
      ),
    ),
  ),
)

table-mod : (i : ℕ) → i < 16 → table i % 16 ≡ i
table-mod i h = row 16 i sixteen_rows h

feed-mod :
    (crc nibble : ℕ)
    → crc < 2 ^ 16
    → nibble < 16
    → feed crc nibble % 16 ≡ bit_xor nibble (crc / 4096)
feed-mod crc nibble hc h =
    rw (feed-eq crc nibble h, bit_xor-mod_sixteen, table-mod (crc / 4096) (omega arith))
      (ap (λ (t : ℕ). bit_xor t (crc / 4096)) (omega arith))

-- Two registers that one nibble takes to the same register are the same.
feed-injective_crc :
    (c d nibble : ℕ) → c < 2 ^ 16 → d < 2 ^ 16 → nibble < 16 → feed c nibble ≡ feed d nibble → c ≡ d
feed-injective_crc c d nibble hc hd h e = omega (arith, tops, lows)
  where
    tops : c / 4096 ≡ d / 4096
    tops = bit_xor-cancel 4 (c / 4096) (d / 4096) nibble (omega arith) (omega arith) (
        bit_xor_comm _ _
        ∙ sym (feed-mod c nibble hc h)
        ∙ ap (λ (t : ℕ). t % 16) e
        ∙ feed-mod d nibble hd h
        ∙ bit_xor_comm _ _)

    lows : c % 4096 * 16 + nibble ≡ d % 4096 * 16 + nibble
    lows = bit_xor-cancel 16 _ _ (table (c / 4096)) (omega arith) (omega arith) (
        sym (feed-eq c nibble h)
        ∙ e
        ∙ feed-eq d nibble h
        ∙ ap (λ (t : ℕ). bit_xor (d % 4096 * 16 + nibble) (table t)) (sym tops))

-- Two nibbles that take one register to the same register are the same.
feed-injective_nibble : (c n m : ℕ) → n < 16 → m < 16 → feed c n ≡ feed c m → n ≡ m
feed-injective_nibble c n m hn hm e = omega (
  arith,
  bit_xor-cancel 16 (c % 4096 * 16 + n) (c % 4096 * 16 + m) (table (c / 4096)) (omega arith)
      (omega arith) (sym (feed-eq c n hn) ∙ e ∙ feed-eq c m hm),
)

abbrev feed_byte : ℕ → ℕ → ℕ
feed_byte c byte = feed (feed c (byte / 2 ^ 4)) (bit_and byte 0x0F)

crc16_loop-injective :
    (bytes : List ℕ) (c d : ℕ)
    → All IsByte bytes
    → c < 2 ^ 16
    → d < 2 ^ 16
    → crc16_loop bytes c ≡ crc16_loop bytes d
    → c ≡ d
unfolding crc16_loop
crc16_loop-injective [] c d hb hc hd e = e
crc16_loop-injective (byte ∷ bytes) c d (hb, hbs) hc hd e =
    let low = low_nibble byte in
    let high : byte / 2 ^ 4 < 16 = omega arith in
    feed-injective_crc c d _ hc hd high (
      feed-injective_crc _ _ _ (feed-lt c _ high) (feed-lt d _ high) low
        (crc16_loop-injective bytes _ _ hbs (feed-lt _ _ low) (feed-lt _ _ low) e))

feed_byte-lt : (c byte : ℕ) → feed_byte c byte < 2 ^ 16
feed_byte-lt c byte = feed-lt _ _ (low_nibble byte)

-- The high nibble of a byte does not reach the nibble that the next step shifts out.
top_nibble :
    (c b : ℕ)
    → b < 256
    → feed c (b / 2 ^ 4) / 4096 ≡ bit_xor (c % 4096 / 256) (table (c / 4096) / 4096)
top_nibble c b h =
    ap (λ (t : ℕ). t / 4096) (feed-eq c (b / 2 ^ 4) (omega arith))
    ∙ bit_xor-div_4096 _ _
    ∙ ap (λ (t : ℕ). bit_xor t (table (c / 4096) / 4096)) (omega arith)

feed_byte-injective :
    (c x y : ℕ) → c < 2 ^ 16 → x < 256 → y < 256 → feed_byte c x ≡ feed_byte c y → x ≡ y
feed_byte-injective c x y hc hx hy e = omega (arith, lows, highs)
  where
    r : ℕ → ℕ
    r b = feed c (b / 2 ^ 4)

    r-lt : (b : ℕ) → b < 256 → r b < 2 ^ 16
    r-lt b h = feed-lt c _ (omega arith)

    ends : (b : ℕ) → b < 256 → feed_byte c b % 16 ≡ bit_xor (b % 16) (r b / 4096)
    ends b h =
        feed-mod (r b) _ (r-lt b h) (low_nibble b)
        ∙ ap (λ (t : ℕ). bit_xor t (r b / 4096)) (mask_nibble b)

    lows : x % 16 ≡ y % 16
    lows = bit_xor-cancel 4 (x % 16) (y % 16) (r x / 4096) (omega arith) (omega arith) (
        sym (ends x hx)
        ∙ ap (λ (t : ℕ). t % 16) e
        ∙ ends y hy
        ∙ ap (bit_xor (y % 16)) (top_nibble c y hy ∙ sym (top_nibble c x hx)))

    same : bit_and x 0x0F ≡ bit_and y 0x0F
    same = mask_nibble x ∙ lows ∙ sym (mask_nibble y)

    highs : x / 2 ^ 4 ≡ y / 2 ^ 4
    highs = feed-injective_nibble c _ _ (omega arith) (omega arith) (
        feed-injective_crc (r x) (r y) _ (r-lt x hx) (r-lt y hy) (low_nibble y)
          (ap (feed (r x)) (sym same) ∙ e))

crc16_loop-append :
    (pre post : List ℕ) (c : ℕ) → crc16_loop (pre ++ post) c ≡ crc16_loop post (crc16_loop pre c)
unfolding crc16_loop
crc16_loop-append [] post c = refl
crc16_loop-append (b ∷ pre) post c = crc16_loop-append pre post _

-- Two messages that differ in one byte, whatever stands before and behind it, have different
-- checksums.
pub crc16-ne_of_byte :
    (pre post : List ℕ) (x y : ℕ)
    → All IsByte pre
    → All IsByte post
    → x < 256
    → y < 256
    → x ≢ y
    → crc16 (pre ++ x ∷ post) ≢ crc16 (pre ++ y ∷ post)
unfolding crc16 crc16_loop
crc16-ne_of_byte pre post x y hpre hpost hx hy ne e = ne (
    feed_byte-injective c x y hc hx hy (
      crc16_loop-injective post (feed_byte c x) (feed_byte c y) hpost (feed_byte-lt c x)
        (feed_byte-lt c y)
        (sym (crc16_loop-append pre (x ∷ post) init) ∙ e ∙ crc16_loop-append pre (y ∷ post) init)))
  where
    c : ℕ
    c = crc16_loop pre init

    hc : c < 2 ^ 16
    hc = crc16_loop-lt pre init hpre (omega arith)
