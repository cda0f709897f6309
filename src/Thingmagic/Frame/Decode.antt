-- ===== src/Thingmagic/Frame/Decode.antt =====
-- How `decode` of crates/splitforge-thingmagic/src/frame.rs reads a buffer of any shape.
use splitforge.Prelude.{
  ℕ, zero, suc, ◌+◌, ◌-◌, ◌≤◌, ◌<◌, List, [], ◌∷◌, ◌++◌, ◌≡◌, ◌≢◌, refl, ap, sym, subst, ◌∙◌, arith,
  not, length, length-append, ◌==◌, if◌then◌else◌, if-map, done, index-append, index-append_suc,
  slice-append,
}
use native.Mathlib.Decide.{ℕ_discrete, dec_lt}
use splitforge.Thingmagic.Crc.{crc16}
use splitforge.Prelude.{Result, ok, err}
use splitforge.Thingmagic.Frame.{
  Response, Decoded, FrameError, frame, incomplete, bad_crc, not_synchronized, data_too_long,
  max_response_data_len, soh, be_u16, decode_checked, decode_sized, decode,
}

-- The bytes that the checksum of a response covers.
abbrev pub covered : ℕ → ℕ → ℕ → ℕ → List ℕ → List ℕ
covered len opcode high low payload = len ∷ opcode ∷ high ∷ low ∷ payload

abbrev pub verdict : ℕ → Response → ℕ → ℕ → Result Decoded FrameError
verdict frame_len r declared computed =
    if not (declared == computed) then err (bad_crc declared computed) else ok (frame r frame_len)

module _ (len opcode high low : ℕ) (payload : List ℕ) (ch cl : ℕ) (rest : List ℕ) where
  abbrev pub whole : List ℕ
  whole = soh ∷ len ∷ opcode ∷ high ∷ low ∷ payload ++ ch ∷ cl ∷ rest

  pub decode_checked-whole :
      (n : ℕ)
      → n ≡ length payload
      → decode_checked whole n (5 + n + 2)
        ≡ done (
            verdict
              (5 + n + 2)
              (record { opcode = opcode; status = be_u16 high low; payload = payload })
              (be_u16 ch cl)
              (crc16 (covered len opcode high low payload)))
  unfolding decode_checked
  decode_checked-whole n h =
      rw
        (
          slice-append (soh ∷ []) (covered len opcode high low payload) (ch ∷ cl ∷ rest) 1
              (5 + n + 2 - 2) refl (omega arith),
          index-append (soh ∷ covered len opcode high low payload) ch (cl ∷ rest) (5 + n + 2 - 2)
              (omega arith),
          index-append_suc (soh ∷ covered len opcode high low payload) ch cl rest (5 + n + 2 - 1)
              (omega arith),
          index-append (soh ∷ len ∷ []) opcode (high ∷ low ∷ payload ++ ch ∷ cl ∷ rest) 2 refl,
          index-append (soh ∷ len ∷ opcode ∷ []) high (low ∷ payload ++ ch ∷ cl ∷ rest) 3 refl,
          index-append (soh ∷ len ∷ opcode ∷ high ∷ []) low (payload ++ ch ∷ cl ∷ rest) 4 refl,
          slice-append (soh ∷ len ∷ opcode ∷ high ∷ low ∷ []) payload (ch ∷ cl ∷ rest) 5 (5 + n)
              refl (omega arith),
        )
        (if-map done _ _ (not (be_u16 ch cl == crc16 (covered len opcode high low payload))))

-- The wire format, as a relation between a buffer and what there is to say of it.
pub data Reads : List ℕ → Result Decoded FrameError → Type 0 where
  empty : Reads [] (ok (incomplete 2))
  lost :
      (first : ℕ) (rest : List ℕ)
      → first ≢ soh
      → Reads (first ∷ rest) (err (not_synchronized first))
  lone : (first : ℕ) → first ≡ soh → Reads (first ∷ []) (ok (incomplete 2))
  oversized :
      (first len : ℕ) (rest : List ℕ)
      → first ≡ soh
      → max_response_data_len < len
      → Reads (first ∷ len ∷ rest) (err (data_too_long len))
  short :
      (first len : ℕ) (rest : List ℕ)
      → first ≡ soh
      → len ≤ max_response_data_len
      → length rest < len + 5
      → Reads (first ∷ len ∷ rest) (ok (incomplete (5 + len + 2)))
  corrupt :
      (len opcode high low : ℕ) (payload : List ℕ) (ch cl : ℕ) (rest input : List ℕ)
      → input ≡ whole len opcode high low payload ch cl rest
      → len ≡ length payload
      → len ≤ max_response_data_len
      → be_u16 ch cl ≢ crc16 (covered len opcode high low payload)
      → Reads input (err (bad_crc (be_u16 ch cl) (crc16 (covered len opcode high low payload))))
  verified :
      (len opcode high low : ℕ) (payload : List ℕ) (ch cl : ℕ) (rest input : List ℕ)
      → input ≡ whole len opcode high low payload ch cl rest
      → len ≡ length payload
      → len ≤ max_response_data_len
      → be_u16 ch cl ≡ crc16 (covered len opcode high low payload)
      → Reads input (
          ok (
            frame
              (record { opcode = opcode; status = be_u16 high low; payload = payload })
              (5 + len + 2)))

decode_sized-whole :
    (len opcode high low : ℕ) (payload : List ℕ) (ch cl : ℕ) (rest : List ℕ)
    → len ≡ length payload
    → len ≤ max_response_data_len
    → decode (whole len opcode high low payload ch cl rest)
      ≡ decode_checked (whole len opcode high low payload ch cl rest) len (5 + len + 2)
unfolding decode decode_sized
decode_sized-whole len opcode high low payload ch cl rest h k =
    ground (arith, length-append payload (ch ∷ cl ∷ rest))

-- Whatever the wire format says of a buffer, `decode` says.
pub decode_of_Reads :
    {input : List ℕ} {r : Result Decoded FrameError} → Reads input r → decode input ≡ done r
unfolding decode decode_sized
decode_of_Reads empty = refl
decode_of_Reads (lost first rest h) = ground arith
decode_of_Reads (lone first h) = ground arith
decode_of_Reads (oversized first len rest h k) = ground arith
decode_of_Reads (short first len rest h k l) = ground arith
decode_of_Reads (corrupt len opcode high low payload ch cl rest input e h k ne) = rw e (
    decode_sized-whole len opcode high low payload ch cl rest h k
    ∙ decode_checked-whole len opcode high low payload ch cl rest len h
    ∙ ground arith)
decode_of_Reads (verified len opcode high low payload ch cl rest input e h k q) = rw e (
    decode_sized-whole len opcode high low payload ch cl rest h k
    ∙ decode_checked-whole len opcode high low payload ch cl rest len h
    ∙ ground arith)

-- The part of a buffer behind its two first bytes holds a frame that declares `len` bytes.
pub split_pair :
    (n : ℕ) (xs : List ℕ)
    → n + 2 ≤ length xs
    → (payload : List ℕ) × (ch : ℕ) × (cl : ℕ) × (rest : List ℕ) × (xs ≡ payload ++ ch ∷ cl ∷ rest)
      × (n ≡ length payload)
split_pair zero [] h = absurd (omega arith)
split_pair zero (x ∷ []) h = absurd (omega arith)
split_pair zero (x ∷ y ∷ xs) h = ([], x, y, xs, refl, refl)
split_pair (suc n) [] h = absurd (omega arith)
split_pair (suc n) (x ∷ xs) h =
    let (payload, ch, cl, rest, e, k) = split_pair n xs (omega arith) in
    (x ∷ payload, ch, cl, rest, ap (◌∷◌ x) e, omega arith)

-- The six parts of a buffer that is long enough for the length it declares.
Reads-whole :
    (len opcode high low : ℕ) (tail : List ℕ)
    → len ≤ max_response_data_len
    → len + 2 ≤ length tail
    → (r : Result Decoded FrameError) × Reads (soh ∷ len ∷ opcode ∷ high ∷ low ∷ tail) r
Reads-whole len opcode high low tail h k =
    let (payload, ch, cl, rest, e, n) = split_pair len tail k in
    let e' : (soh ∷ len ∷ opcode ∷ high ∷ low ∷ tail)
        ≡ whole len opcode high low payload ch cl rest =
      ap (λ (t : List ℕ). soh ∷ len ∷ opcode ∷ high ∷ low ∷ t) e in
    elim (ℕ_discrete (be_u16 ch cl) (crc16 (covered len opcode high low payload))) [
      | yes q ↦ (_, verified len opcode high low payload ch cl rest _ e' n h q)
      | no q ↦ (_, corrupt len opcode high low payload ch cl rest _ e' n h q)
    ]

Reads-sized :
    (len : ℕ) (rest : List ℕ) → (r : Result Decoded FrameError) × Reads (soh ∷ len ∷ rest) r
Reads-sized len rest = elim (dec_lt max_response_data_len len) [
  | yes long ↦ (_, oversized soh len rest refl long)
  | no legal ↦ elim (dec_lt (length rest) (len + 5)) [
    | yes few ↦ (_, short soh len rest refl (omega arith) few)
    | no enough ↦ parts rest (omega arith) (omega arith)
  ]
]
  where
    parts :
        (body : List ℕ)
        → len ≤ max_response_data_len
        → len + 5 ≤ length body
        → (r : Result Decoded FrameError) × Reads (soh ∷ len ∷ body) r
    parts [] h k = absurd (omega arith)
    parts (a ∷ []) h k = absurd (omega arith)
    parts (a ∷ b ∷ []) h k = absurd (omega arith)
    parts (a ∷ b ∷ c ∷ tail) h k = Reads-whole len a b c tail h (omega arith)

-- The wire format says something of every buffer.
pub Reads-total : (input : List ℕ) → (r : Result Decoded FrameError) × Reads input r
Reads-total [] = (_, empty)
Reads-total (first ∷ rest) = elim (ℕ_discrete first soh) [
  | yes e ↦ rw e (synchronized rest)
  | no ne ↦ (_, lost first rest ne)
]
  where
    synchronized : (rest : List ℕ) → (r : Result Decoded FrameError) × Reads (soh ∷ rest) r
    synchronized [] = (_, lone soh refl)
    synchronized (len ∷ rest) = Reads-sized len rest

-- `decode` never panics and never runs on: on every buffer it returns one result, and that is what
-- the wire format says of the buffer.
pub decode-Reads :
    (input : List ℕ) → (r : Result Decoded FrameError) × (decode input ≡ done r) × Reads input r
decode-Reads input = let (r, h) = Reads-total input in (r, decode_of_Reads h, h)

done-injective : {A : Type 0} {a b : A} → done a ≡ done b → a ≡ b
done-injective e = cc

-- What `decode` returns is what the wire format says.
pub Reads-decode :
    (input : List ℕ) {r : Result Decoded FrameError} → decode input ≡ done r → Reads input r
Reads-decode input e =
    let (r, d, h) = decode-Reads input in subst (Reads input) (done-injective (sym d ∙ e)) h
