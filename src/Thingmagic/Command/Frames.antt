-- ===== src/Thingmagic/Command/Frames.antt =====
-- The frames of the commands of crates/splitforge-thingmagic/src/command.rs.
use splitforge.Prelude.{
  ℕ, zero, suc, ◌+◌, ◌≤◌, List, [], ◌∷◌, ◌++◌, ◌≡◌, refl, ap, ◌∙◌, arith, length, drop, take, done,
  ok, ltb, false,
}
use splitforge.Thingmagic.Frame.{max_frame_len}
use splitforge.Thingmagic.Frame.Encode.{
  command_frame, command_result, encode_command-command_frame, length-command_frame,
}
use splitforge.Thingmagic.Command.{Command, new, fill, body_of, encode}
use splitforge.Thingmagic.Command.Codes.{OpCode, to_byte}

take-fill : (n : ℕ) (bytes : List ℕ) → length bytes ≤ n → take (length bytes) (fill n bytes) ≡ bytes
unfolding fill
take-fill n [] h = refl
take-fill zero (b ∷ bytes) h = absurd (omega arith)
take-fill (suc n) (b ∷ bytes) h = ap (◌∷◌ b) (take-fill n bytes (omega arith))

pub body_of-new :
    (opcode : OpCode) (bytes : List ℕ) → length bytes ≤ 16 → body_of (new opcode bytes) ≡ bytes
unfolding body_of
body_of-new opcode bytes h = take-fill 16 bytes h

-- The frame of a command.
abbrev pub frame_of : Command → List ℕ
frame_of c = command_frame (to_byte c.opcode) (body_of c)

-- A command whose body has sixteen bytes at most always encodes into a buffer for the largest frame:
-- its frame is written at the front, and its length is returned.
pub encode-frame_of :
    (c : Command) (out : List ℕ)
    → length (body_of c) ≤ 16
    → max_frame_len ≤ length out
    → encode c out
      ≡ done (ok (frame_of c ++ drop (3 + length (body_of c) + 2) out, 3 + length (body_of c) + 2))
unfolding encode
encode-frame_of c out h k =
    encode_command-command_frame (to_byte c.opcode) (body_of c) out
    ∙ ap done (fits (length (frame_of c)) (length-command_frame (to_byte c.opcode) (body_of c)))
  where
    short : ltb 250 (length (body_of c)) ≡ false
    short = ground arith

    room : ltb (length out) (3 + length (body_of c) + 2) ≡ false
    room = ground arith

    fits :
        (n : ℕ)
        → n ≡ 3 + length (body_of c) + 2
        → command_result (to_byte c.opcode) (body_of c) out n
          ≡ ok (frame_of c ++ drop (3 + length (body_of c) + 2) out, 3 + length (body_of c) + 2)
    fits n e = rw (e, short, room)
