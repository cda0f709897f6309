-- ===== src/Thingmagic/Frame/Samples.antt =====
-- Runs of crates/splitforge-thingmagic/src/frame.rs and crc.rs, and their theorems at these inputs.
use splitforge.Prelude.{
  ◌/◌, ◌%◌, [], ◌∷◌, ◌++◌, ◌≡◌, ◌≢◌, refl, arith, take, drop, done, some, index, slice,
}
use splitforge.Thingmagic.Crc.{captured_frame, crc16, crc16_loop, feed, table}
use splitforge.Thingmagic.Crc.Detect.{crc16-ne_of_byte}
use splitforge.Prelude.{Result, ok, err}
use splitforge.Thingmagic.Frame.{
  Decoded, FrameError, Response, frame, incomplete, bad_crc, data_too_long, not_synchronized,
  decode, decode_sized, decode_checked, be_u16, soh, resynchronize,
}
use splitforge.Thingmagic.Frame.Decode.{Reads, decode-Reads}
use splitforge.Thingmagic.Frame.RoundTrip.{IsResponse, encode_response, decode-encode_response}
use splitforge.Thingmagic.Frame.Settled.{decode_corrupted}

crc16_captured : crc16 (take 44 (drop 1 captured_frame)) ≡ 0x561D
unfolding crc16 crc16_loop feed table
crc16_captured = refl

abbrev captured : Response
captured = record { opcode = 0x22; status = 0; payload = take 40 (drop 5 captured_frame) }

-- The frame of a physical module decodes.
decode-captured : decode captured_frame ≡ done (ok (frame captured 47))
unfolding decode decode_sized decode_checked be_u16 index slice crc16 crc16_loop feed table
decode-captured = refl

decode_noise : decode (0x01 ∷ 0xFF ∷ []) ≡ done (err (not_synchronized 0x01))
unfolding decode
decode_noise = refl

decode_long : decode (0xFF ∷ 249 ∷ []) ≡ done (err (data_too_long 249))
unfolding decode decode_sized
decode_long = refl

resynchronize_sample : resynchronize (0xFF ∷ 0x01 ∷ 0xFF ∷ []) ≡ some 2
unfolding resynchronize
resynchronize_sample = refl

-- A response with an empty payload and a status of 0x0101.
abbrev plain : Response
plain = record { opcode = 0x03; status = 0x0101; payload = 7 ∷ [] }

plain-IsResponse : IsResponse plain
plain-IsResponse = omega arith

decode-encode_response_example :
    decode (encode_response plain ++ 0xFF ∷ []) ≡ done (ok (frame plain 8))
decode-encode_response_example = decode-encode_response plain (0xFF ∷ []) plain-IsResponse

decode_short : decode (0xFF ∷ 0x02 ∷ 0x03 ∷ []) ≡ done (ok (incomplete 9))
unfolding decode decode_sized
decode_short = refl

crc16-ne_of_byte_example : crc16 (1 ∷ 2 ∷ 3 ∷ []) ≢ crc16 (1 ∷ 9 ∷ 3 ∷ [])
crc16-ne_of_byte_example =
    crc16-ne_of_byte (1 ∷ []) (3 ∷ []) 2 9 (omega arith) (omega arith) (omega arith) (omega arith)
      (omega arith)

decode_corrupted_example :
    decode (
      soh ∷ 1 ∷ (3 ∷ 1 ∷ 8 ∷ 7 ∷ [])
      ++ crc16 (1 ∷ 3 ∷ 1 ∷ 1 ∷ 7 ∷ []) / 256 ∷ crc16 (1 ∷ 3 ∷ 1 ∷ 1 ∷ 7 ∷ []) % 256 ∷ [])
    ≡ done (err (bad_crc (crc16 (1 ∷ 3 ∷ 1 ∷ 1 ∷ 7 ∷ [])) (crc16 (1 ∷ 3 ∷ 1 ∷ 8 ∷ 7 ∷ []))))
decode_corrupted_example =
    decode_corrupted 1 (3 ∷ 1 ∷ []) (7 ∷ []) 1 8 [] (omega arith) refl (omega arith) (omega arith)
      (omega arith)

decode-Reads_example :
    (r : Result Decoded FrameError) × (decode captured_frame ≡ done r) × Reads captured_frame r
decode-Reads_example = decode-Reads captured_frame
