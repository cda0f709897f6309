-- ===== src/Thingmagic/Frame/Settled.antt =====
-- What `decode` of crates/splitforge-thingmagic/src/frame.rs has once said stands: later bytes do
-- not change it, and a frame with a wrong byte is refused.
use splitforge.Prelude.{
  ℕ, ◌+◌, ◌/◌, ◌%◌, ◌≤◌, List, [], ◌∷◌, ◌++◌, append_assoc, ◌≡◌, ◌≢◌, refl, ap, sym, subst, ◌∙◌,
  arith, length, length-append, All, All-append, done,
}
use splitforge.Thingmagic.Crc.{crc16}
use splitforge.Thingmagic.Crc.Detect.{IsByte, crc16-ne_of_byte}
use splitforge.Prelude.{Result, ok, err}
use splitforge.Thingmagic.Frame.{
  Decoded, FrameError, frame, incomplete, bad_crc, soh, max_response_data_len, decode,
}
use splitforge.Thingmagic.Frame.Decode.{
  Reads, empty, lost, lone, oversized, short, corrupt, verified, whole, covered, decode_of_Reads,
  Reads-decode,
}
use splitforge.Thingmagic.Frame.RoundTrip.{be_u16_split}

-- A result that asks for no more bytes.
abbrev pub IsSettled : Result Decoded FrameError → Type 0
IsSettled (ok (frame r n)) = Unit
IsSettled (ok (incomplete n)) = ⊥
IsSettled (err e) = Unit

whole-append :
    (len opcode high low : ℕ) (payload : List ℕ) (ch cl : ℕ) (rest more input : List ℕ)
    → input ≡ whole len opcode high low payload ch cl rest
    → input ++ more ≡ whole len opcode high low payload ch cl (rest ++ more)
whole-append len opcode high low payload ch cl rest more input e =
    ap (λ (t : List ℕ). t ++ more) e
    ∙ append_assoc (soh ∷ covered len opcode high low payload) (ch ∷ cl ∷ rest) more

Reads-append :
    {input : List ℕ} {r : Result Decoded FrameError} (more : List ℕ)
    → Reads input r
    → IsSettled r
    → Reads (input ++ more) r
Reads-append more empty s = absurd s
Reads-append more (lost first rest h) s = lost first (rest ++ more) h
Reads-append more (lone first h) s = absurd s
Reads-append more (oversized first len rest h k) s = oversized first len (rest ++ more) h k
Reads-append more (short first len rest h k l) s = absurd s
Reads-append more (corrupt len opcode high low payload ch cl rest input e h k q) s =
    corrupt len opcode high low payload ch cl (rest ++ more) (input ++ more)
      (whole-append len opcode high low payload ch cl rest more input e) h k q
Reads-append more (verified len opcode high low payload ch cl rest input e h k q) s =
    verified len opcode high low payload ch cl (rest ++ more) (input ++ more)
      (whole-append len opcode high low payload ch cl rest more input e) h k q

-- Once `decode` reports a frame or an error, bytes that arrive behind the buffer do not change what
-- it reports.
pub decode-append :
    (input more : List ℕ) (r : Result Decoded FrameError)
    → decode input ≡ done r
    → IsSettled r
    → decode (input ++ more) ≡ done r
decode-append input more r e s = decode_of_Reads (Reads-append more (Reads-decode input e) s)

-- An opcode, a status and the data.
body_parts :
    (n : ℕ) (body : List ℕ)
    → n + 3 ≡ length body
    → (opcode : ℕ) × (high : ℕ) × (low : ℕ) × (payload : List ℕ) × (body
        ≡ opcode ∷ high ∷ low ∷ payload)
      × (n ≡ length payload)
body_parts n [] h = absurd (omega arith)
body_parts n (a ∷ []) h = absurd (omega arith)
body_parts n (a ∷ b ∷ []) h = absurd (omega arith)
body_parts n (a ∷ b ∷ c ∷ body) h = (a, b, c, body, refl, omega arith)

wrong_sum :
    (len : ℕ) (body : List ℕ) (sum : ℕ) (rest : List ℕ)
    → len ≤ max_response_data_len
    → len + 3 ≡ length body
    → sum ≢ crc16 (len ∷ body)
    → decode (soh ∷ len ∷ body ++ sum / 256 ∷ sum % 256 ∷ rest)
      ≡ done (err (bad_crc sum (crc16 (len ∷ body))))
wrong_sum len body sum rest fits n ne =
    let (opcode, high, low, payload, e, k) = body_parts len body n in
    rw e (
      subst
        (λ (t : ℕ).
          decode (whole len opcode high low payload (sum / 256) (sum % 256) rest)
          ≡ done (err (bad_crc t (crc16 (covered len opcode high low payload)))))
        (be_u16_split sum)
        (decode_of_Reads (
          corrupt len opcode high low payload (sum / 256) (sum % 256) rest _ refl k fits
            (λ q. ne (sym (be_u16_split sum) ∙ q ∙ ap (λ (t : List ℕ). crc16 (len ∷ t)) (sym e))))))

-- A response in which one byte of the opcode, the status or the data was changed on the line is
-- refused for its checksum, whatever follows it.
pub decode_corrupted :
    (len : ℕ) (pre post : List ℕ) (x y : ℕ) (rest : List ℕ)
    → len ≤ max_response_data_len
    → len + 3 ≡ length (pre ++ x ∷ post)
    → All IsByte (pre ++ x ∷ post)
    → IsByte y
    → x ≢ y
    → decode (
        soh ∷ len ∷ (pre ++ y ∷ post)
        ++ crc16 (len ∷ pre ++ x ∷ post) / 256 ∷ crc16 (len ∷ pre ++ x ∷ post) % 256 ∷ rest)
      ≡ done (err (bad_crc (crc16 (len ∷ pre ++ x ∷ post)) (crc16 (len ∷ pre ++ y ∷ post))))
decode_corrupted len pre post x y rest fits n bytes hy ne =
    let (hpre, (hx, hpost)) = All-append IsByte pre (x ∷ post) bytes in
    wrong_sum len (pre ++ y ∷ post) _ rest fits
      (omega (arith, length-append pre (x ∷ post), length-append pre (y ∷ post)))
      (crc16-ne_of_byte (len ∷ pre) post x y (omega arith, hpre) hpost hx hy ne)
