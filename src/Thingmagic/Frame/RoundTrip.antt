-- ===== src/Thingmagic/Frame/RoundTrip.antt =====
-- `decode` of crates/splitforge-thingmagic/src/frame.rs against what a module sends.
use splitforge.Prelude.{
  ℕ, ◌+◌, ◌*◌, ◌/◌, ◌%◌, ◌^◌, ◌≤◌, ◌<◌, List, [], ◌∷◌, ◌++◌, append_assoc, ◌≡◌, refl, ap, sym,
  subst, ◌∙◌, arith, length, length-append, drop, drop-append, All, All-append, done,
}
use splitforge.Prelude.Bits.Masks.{bit_or_fields}
use splitforge.Thingmagic.Crc.{crc16}
use splitforge.Thingmagic.Crc.Detect.{IsByte}
use splitforge.Prelude.{ok}
use splitforge.Thingmagic.Frame.{
  Response, frame, incomplete, soh, max_response_data_len, max_frame_len, be_u16, decode,
}
use splitforge.Thingmagic.Frame.Decode.{
  Reads, empty, lone, short, verified, whole, covered, decode_of_Reads, Reads-decode,
}

-- What a module can say: bytes, a 16-bit status and no more data than a response may carry.
pub record IsResponse (r : Response) : Type 0 where
  pub opcode_byte : IsByte r.opcode
  pub status_word : r.status < 2 ^ 16
  pub payload_bytes : All IsByte r.payload
  pub payload_fits : length r.payload ≤ max_response_data_len

abbrev pub response_body : Response → List ℕ
response_body r = covered (length r.payload) r.opcode (r.status / 256) (r.status % 256) r.payload

-- A response as the layout at the head of frame.rs draws it.
abbrev pub encode_response : Response → List ℕ
encode_response r =
    soh ∷ response_body r ++ crc16 (response_body r) / 256 ∷ crc16 (response_body r) % 256 ∷ []

pub be_u16_lem : (high low : ℕ) → low < 256 → be_u16 high low ≡ high * 256 + low
unfolding be_u16
be_u16_lem high low h = bit_or_fields 8 high low (omega arith)

pub be_u16_split : (word : ℕ) → be_u16 (word / 256) (word % 256) ≡ word
be_u16_split word = be_u16_lem _ _ (omega arith) ∙ omega arith

-- The bytes of a verified frame are those that a module sends for it.
encode_response-whole :
    (opcode high low : ℕ) (payload : List ℕ) (ch cl : ℕ) (rest : List ℕ)
    → high < 256
    → low < 256
    → cl < 256
    → be_u16 ch cl ≡ crc16 (covered (length payload) opcode high low payload)
    → encode_response (record { opcode = opcode; status = be_u16 high low; payload = payload })
        ++ rest
      ≡ whole (length payload) opcode high low payload ch cl rest
encode_response-whole opcode high low payload ch cl rest p q r e =
    rw (be_u16_lem high low q, tops, lows, ← e, be_u16_lem ch cl r, high_part, low_part)
      (append_assoc (soh ∷ covered (length payload) opcode high low payload) (ch ∷ cl ∷ []) rest)
  where
    tops : (high * 256 + low) / 256 ≡ high
    tops = omega arith

    lows : (high * 256 + low) % 256 ≡ low
    lows = omega arith

    high_part : (ch * 256 + cl) / 256 ≡ ch
    high_part = omega arith

    low_part : (ch * 256 + cl) % 256 ≡ cl
    low_part = omega arith

-- `decode` gives back the response that a module sent, and its length, whatever follows it in the
-- buffer.
pub decode-encode_response :
    (r : Response) (rest : List ℕ)
    → IsResponse r
    → decode (encode_response r ++ rest) ≡ done (ok (frame r (5 + length r.payload + 2)))
decode-encode_response r rest h =
    subst
      (λ (t : ℕ).
        decode (encode_response r ++ rest)
        ≡ done (
            ok (
              frame (record { opcode = r.opcode; status = t; payload = r.payload })
                (5 + length r.payload + 2))))
      (be_u16_split r.status)
      (decode_of_Reads (
        verified (length r.payload) r.opcode (r.status / 256) (r.status % 256) r.payload
          (crc16 (response_body r) / 256) (crc16 (response_body r) % 256) rest _
          (append_assoc (soh ∷ response_body r) _ rest) refl h.payload_fits (be_u16_split _)))

pub length-encode_response : (r : Response) → length (encode_response r) ≡ 5 + length r.payload + 2
length-encode_response r = omega (
  arith,
  length-append r.payload (crc16 (response_body r) / 256 ∷ crc16 (response_body r) % 256 ∷ []),
)

verified_response :
    {input : List ℕ} {r : Response} {n : ℕ}
    → All IsByte input
    → Reads input (ok (frame r n))
    → IsResponse r × (n ≡ length (encode_response r)) × (input ≡ encode_response r ++ drop n input)
verified_response h (verified len opcode high low payload ch cl rest input e k fits q) =
    let (_, (_, (opcode_ok, (high_ok, (low_ok, tail_ok))))) = subst (All IsByte) e h in
    let (payload_ok, (_, (cl_ok, _))) = All-append IsByte payload (ch ∷ cl ∷ rest) tail_ok in
    let sum : be_u16 ch cl ≡ crc16 (covered (length payload) opcode high low payload) =
      subst (λ (t : ℕ). be_u16 ch cl ≡ crc16 (covered t opcode high low payload)) k q in
    let sent : Response = record { opcode = opcode; status = be_u16 high low; payload = payload } in
    let size : 5 + len + 2 ≡ length (encode_response sent) =
      omega (arith, length-encode_response sent) in
    let bytes : input ≡ encode_response sent ++ rest =
      e
      ∙ ap (λ (t : ℕ). whole t opcode high low payload ch cl rest) k
      ∙ sym (encode_response-whole opcode high low payload ch cl rest high_ok low_ok cl_ok sum) in
    (
      record {
        opcode_byte = opcode_ok;
        status_word = omega (arith, be_u16_lem high low low_ok);
        payload_bytes = payload_ok;
        payload_fits = omega arith;
      },
      size,
      rw (size, bytes, drop-append),
    )

-- Only a response decodes: if a buffer of bytes decodes to a frame, then it begins with the bytes
-- that a module sends for that frame, and the length reported is theirs.
pub encode_response-decode :
    (input : List ℕ) (r : Response) (n : ℕ)
    → All IsByte input
    → decode input ≡ done (ok (frame r n))
    → IsResponse r × (n ≡ length (encode_response r)) × (input ≡ encode_response r ++ drop n input)
encode_response-decode input r n h e = verified_response h (Reads-decode input e)

incomplete-Reads :
    {input : List ℕ} {n : ℕ}
    → Reads input (ok (incomplete n))
    → (length input < n) × (n ≤ max_frame_len)
incomplete-Reads empty = omega arith
incomplete-Reads (lone first h) = omega arith
incomplete-Reads (short first len rest h k l) = omega arith

-- A buffer is called incomplete only if it is shorter than what is asked for, and no more is asked
-- for than the largest frame.
pub incomplete_bounds :
    (input : List ℕ) (n : ℕ)
    → decode input ≡ done (ok (incomplete n))
    → (length input < n) × (n ≤ max_frame_len)
incomplete_bounds input n e = incomplete-Reads (Reads-decode input e)
