-- ===== src/Thingmagic/Crc.antt =====
-- crates/splitforge-thingmagic/src/crc.rs: the checksum of the serial protocol. A `u16` is a number
-- below 2 ^ 16: a left shift drops the bits that leave the word.
pub mod Detect
use splitforge.Prelude.{
  ℕ, zero, suc, ◌+◌, ◌*◌, ◌/◌, ◌%◌, ◌^◌, bit_and, bit_or, bit_xor, List, [], ◌∷◌, ◌==◌,
  if◌then◌else◌,
}

abbrev pub polynomial : ℕ
polynomial = 0x1021

abbrev pub init : ℕ
init = 0xFFFF

-- The body of `table`'s loop, `rounds` times from the counter `bit` on.
unfoldable pub table_loop : ℕ → ℕ → ℕ → ℕ → ℕ
table_loop zero index bit product = product
table_loop (suc rounds) index bit product = table_loop rounds index (bit + 1) (
    if bit_and index (1 * 2 ^ bit % 2 ^ 16) == 0
    then product
    else bit_xor product (polynomial * 2 ^ bit % 2 ^ 16))

-- `while bit < 4` from `bit = 0`: four rounds.
unfoldable pub table : ℕ → ℕ
unfolding table_loop
table index = table_loop 4 index 0 0

unfoldable pub feed : ℕ → ℕ → ℕ
feed crc nibble = bit_xor (bit_or (crc * 2 ^ 4 % 2 ^ 16) nibble) (table (crc / 2 ^ 12))

-- The loop over the bytes that are left: the high nibble, then the low one.
unfoldable pub crc16_loop : List ℕ → ℕ → ℕ
crc16_loop [] crc = crc
crc16_loop (byte ∷ bytes) crc =
    crc16_loop bytes (feed (feed crc (byte / 2 ^ 4)) (bit_and byte 0x0F))

unfoldable pub crc16 : List ℕ → ℕ
crc16 bytes = crc16_loop bytes init

-- `CAPTURED_FRAME`, a whole response of a real module with the checksum that the module computed.
abbrev pub captured_frame : List ℕ
captured_frame =
    0xFF ∷ 0x28 ∷ 0x22 ∷ 0x00 ∷ 0x00 ∷ 0x10 ∷ 0x00 ∷ 0x1B ∷ 0x01 ∷ 0xFF ∷ 0x01 ∷ 0x01 ∷ 0xC4 ∷ 0x11
    ∷ 0x0E ∷ 0x16 ∷ 0x40 ∷ 0x00 ∷ 0x00 ∷ 0x01 ∷ 0x27 ∷ 0x00 ∷ 0x00 ∷ 0x05 ∷ 0x00 ∷ 0x00 ∷ 0x0F
    ∷ 0x00 ∷ 0x80 ∷ 0x30 ∷ 0x00 ∷ 0x00 ∷ 0x00 ∷ 0x00 ∷ 0x00 ∷ 0x00 ∷ 0x00 ∷ 0x00 ∷ 0x00 ∷ 0x00
    ∷ 0x00 ∷ 0x15 ∷ 0x45 ∷ 0xE9 ∷ 0x4A ∷ 0x56 ∷ 0x1D ∷ []
