-- ===== src/Thingmagic/Frame.antt =====
-- crates/splitforge-thingmagic/src/frame.rs: the wire framing. A byte slice is a list of numbers,
-- and a `&mut [u8]` that a function fills is passed in and returned.
pub mod Decode
pub mod RoundTrip
pub mod Settled
pub mod Encode
pub mod Samples
use splitforge.Prelude.{
  ℕ, zero, suc, ◌+◌, ◌-◌, ◌*◌, ◌/◌, ◌%◌, ◌^◌, bit_and, bit_or, List, [], ◌∷◌, ◌++◌, Option, none,
  some, Bool, not, length, get_elem?, take, drop, ltb, leb, ◌==◌, if◌then◌else◌, Run, done, panic,
  ◌>>=◌, index, slice,
}
use splitforge.Prelude.{Result, ok, err}
use splitforge.Thingmagic.Crc.{crc16}

abbrev pub soh : ℕ
soh = 0xFF

abbrev pub response_header_len : ℕ
response_header_len = 5

abbrev pub command_header_len : ℕ
command_header_len = 3

abbrev pub crc_len : ℕ
crc_len = 2

abbrev pub max_command_data_len : ℕ
max_command_data_len = 250

abbrev pub max_response_data_len : ℕ
max_response_data_len = 248

abbrev pub max_frame_len : ℕ
max_frame_len = response_header_len + max_response_data_len + crc_len

pub record Response : Type 0 where
  pub opcode : ℕ
  pub status : ℕ
  pub payload : List ℕ

unfoldable pub is_ok : Response → Bool
is_ok r = r.status == 0

pub data Decoded : Type 0 where
  frame : Response → ℕ → Decoded
  incomplete : ℕ → Decoded

pub data FrameError : Type 0 where
  not_synchronized : ℕ → FrameError
  bad_crc : ℕ → ℕ → FrameError
  data_too_long : ℕ → FrameError

pub data EncodeError : Type 0 where
  command_too_long : ℕ → EncodeError
  buffer_too_small : ℕ → ℕ → EncodeError

-- A frame has its checksum at its end, so the subtraction does not stop at 0.
abbrev pub crc_covered_range : ℕ → ℕ × ℕ
crc_covered_range frame_len = (1, frame_len - crc_len)

unfoldable pub be_u16 : ℕ → ℕ → ℕ
be_u16 high low = bit_or (high * 2 ^ 8) low

-- `decode` from the check of the checksum on, when the buffer holds `frame_len` bytes.
unfoldable pub decode_checked : List ℕ → ℕ → ℕ → Run (Result Decoded FrameError)
decode_checked input data_len frame_len = do
  covered ← slice input (crc_covered_range frame_len).0 (crc_covered_range frame_len).1
  let computed = crc16 covered
  high ← index input (frame_len - 2)
  low ← index input (frame_len - 1)
  let declared = be_u16 high low
  if not (declared == computed) then done (err (bad_crc declared computed)) else do
    opcode ← index input 2
    status_high ← index input 3
    status_low ← index input 4
    payload ← slice input response_header_len (response_header_len + data_len)
    done (
        ok (
          frame
            (record { opcode = opcode; status = be_u16 status_high status_low; payload = payload })
            frame_len))

-- `decode` once the length byte is known.
unfoldable pub decode_sized : List ℕ → ℕ → Run (Result Decoded FrameError)
decode_sized input data_len =
    if ltb max_response_data_len data_len
    then done (err (data_too_long data_len))
    else let frame_len = response_header_len + data_len + crc_len in
      if ltb (length input) frame_len
      then done (ok (incomplete frame_len))
      else decode_checked input data_len frame_len

unfoldable pub decode : List ℕ → Run (Result Decoded FrameError)
decode input = elim (get_elem? input 0) [
  | none ↦ done (ok (incomplete 2))
  | some first ↦
      if not (first == soh) then done (err (not_synchronized first)) else elim (get_elem? input 1) [
        | none ↦ done (ok (incomplete 2))
        | some data_len ↦ decode_sized input data_len
      ]
]

-- `position` of the first `SOH` in a list.
unfoldable pub position_soh : List ℕ → Option ℕ
position_soh [] = none
position_soh (byte ∷ bytes) =
    if byte == soh
    then some 0
    else elim (position_soh bytes) [ none ↦ none | some offset ↦ some (suc offset) ]

unfoldable pub resynchronize : List ℕ → Option ℕ
unfolding position_soh
resynchronize input = elim (position_soh (drop 1 input)) [
  | none ↦ none
  | some offset ↦ some (offset + 1)
]

-- `out[i] = byte`
unfoldable pub store : List ℕ → ℕ → ℕ → Run (List ℕ)
store [] i byte = panic
store (x ∷ out) zero byte = done (byte ∷ out)
store (x ∷ out) (suc i) byte = do written ← store out i byte; done (x ∷ written)

-- `out[at..at + data.len()].copy_from_slice(data)`
unfoldable pub copy_from_slice : List ℕ → ℕ → List ℕ → Run (List ℕ)
copy_from_slice out at [] = if leb at (length out) then done out else panic
copy_from_slice out at (byte ∷ bytes) = do
  written ← store out at byte
  copy_from_slice written (at + 1) bytes

-- The writes of `encode_command`, after its two checks. It gives back the whole buffer and the
-- length of the frame, where the source returns `&out[..frame_len]`.
unfoldable pub write_command : ℕ → List ℕ → List ℕ → ℕ → Run (List ℕ)
write_command opcode payload out frame_len = do
  out₀ ← store out 0 soh
  out₁ ← store out₀ 1 (length payload % 256)
  out₂ ← store out₁ 2 opcode
  out₃ ← copy_from_slice out₂ command_header_len payload
  covered ← slice out₃ (crc_covered_range frame_len).0 (crc_covered_range frame_len).1
  let crc = crc16 covered
  out₄ ← store out₃ (frame_len - 2) (crc / 2 ^ 8)
  store out₄ (frame_len - 1) (bit_and crc 0xFF)

unfoldable pub encode_command : ℕ → List ℕ → List ℕ → Run (Result (List ℕ × ℕ) EncodeError)
encode_command opcode payload out =
    if ltb max_command_data_len (length payload)
    then done (err (command_too_long (length payload)))
    else let frame_len = command_header_len + length payload + crc_len in
      if ltb (length out) frame_len
      then done (err (buffer_too_small frame_len (length out)))
      else do written ← write_command opcode payload out frame_len; done (ok (written, frame_len))
