-- ===== src/Thingmagic/TagReport/RoundTrip.antt =====
-- Tag reports as a module writes them, which crates/splitforge-thingmagic/src/tag_report.rs reads.
use splitforge.Prelude.{
  ℕ, suc, ◌+◌, ◌-◌, ◌*◌, ◌/◌, ◌%◌, ◌<◌, ◌==◌, true, false, List, [], ◌∷◌, ◌++◌, Option, none, some,
  length, bit_and, bit_xor, ◌≡◌, refl, ◌∙◌, arith, done, ok, and_then,
}
use splitforge.Prelude.Text.{codes}
use splitforge.Thingmagic.Frame.{Response, is_ok}
use splitforge.Thingmagic.TagReport.Bounded.{
  give, fail, Cursor, new_cursor, u8, u16, u24, u32, bit_counted, trailing_bytes,
}
use splitforge.Thingmagic.TagReport.{
  has, walk_fields, Metadata, as_i8?, logical_antenna, decodable, read_tag, walk_tag, finish_read,
  classify, tag, StreamDecoder, decode_report, one_more, chip_id, timestamp_of,
}
use splitforge.Thingmagic.TagReport.Flags.{has-digits, bit_and_above}
use splitforge.Thingmagic.TagReport.Walk.{
  Stands, u8-Reads, u16-Reads, u24-Reads, u32-Reads, split_u24, split_u32, with_bits,
  bit_counted-Reads, optional, is_some, when_set-Reads,
}
use splitforge.Thingmagic.Command.Codes.{to_byte}
use splitforge.Reader.{ReaderMessage}

-- The fields that a tag report may have, as they stand in it, and the record of the tag.
pub record Report : Type 0 where
  pub read_count : Option ℕ
  pub rssi : Option ℕ
  pub antenna : Option ℕ
  pub frequency : Option ℕ
  pub timestamp : Option ℕ
  pub phase : Option ℕ
  pub protocol : Option ℕ
  pub embedded : Option (List ℕ)
  pub gpio : Option ℕ
  pub epc : List ℕ

abbrev digit : {A : Type 0} → Option A → ℕ
digit none = 0
digit (some a) = 1

-- The flags word: a digit for each field.
abbrev pub flags_of : Report → ℕ
flags_of r =
    digit r.read_count
    + digit r.rssi * 2
    + digit r.antenna * 4
    + digit r.frequency * 8
    + digit r.timestamp * 16
    + digit r.phase * 32
    + digit r.protocol * 64
    + digit r.embedded * 128
    + digit r.gpio * 256

abbrev byte : ℕ → List ℕ
byte b = b ∷ []

abbrev word : ℕ → List ℕ
word n = n / 256 ∷ n % 256 ∷ []

-- The fields in their order, before what comes after them.
abbrev pub fields_then : Report → List ℕ → List ℕ
fields_then r rest =
    optional byte r.read_count
    ++ (optional byte r.rssi
        ++ (optional byte r.antenna
            ++ (optional split_u24 r.frequency
                ++ (optional split_u32 r.timestamp
                    ++ (optional word r.phase
                        ++ (optional byte r.protocol
                            ++ (optional with_bits r.embedded
                                ++ (optional byte r.gpio ++ rest))))))))

abbrev pub metadata_of : Report → Metadata
metadata_of r = record {
  rssi_dbm = as_i8? r.rssi;
  antenna = and_then r.antenna logical_antenna;
  timestamp_ms = r.timestamp;
  protocol = r.protocol;
}

digit-lt : {A : Type 0} (o : Option A) → digit o < 2
digit-lt none = omega arith
digit-lt (some a) = omega arith

digit-is_some : {A : Type 0} (o : Option A) (n : ℕ) → n ≡ digit o → (n == 1) ≡ is_some o
digit-is_some none n h = rw h
digit-is_some (some a) n h = rw h

-- Nine digits are those of their sum.
digits_sum :
    (a b c d e f g h i : ℕ)
    → a < 2
    → b < 2
    → c < 2
    → d < 2
    → e < 2
    → f < 2
    → g < 2
    → h < 2
    → i < 2
    → (s : ℕ) → s ≡ a + b * 2 + c * 4 + d * 8 + e * 16 + f * 32 + g * 64 + h * 128 + i * 256
    → (s % 2 ≡ a)
      × (s / 2 % 2 ≡ b)
      × (s / 4 % 2 ≡ c)
      × (s / 8 % 2 ≡ d)
      × (s / 16 % 2 ≡ e)
      × (s / 32 % 2 ≡ f)
      × (s / 64 % 2 ≡ g)
      × (s / 128 % 2 ≡ h)
      × (s / 256 % 2 ≡ i)
      × (s < 512)
digits_sum a b c d e f g h i p q r u v w x y z s k = (
  omega arith,
  omega arith,
  omega arith,
  omega arith,
  omega arith,
  omega arith,
  omega arith,
  omega arith,
  omega arith,
  omega arith,
)

-- The flags of a report are those of the fields that it has.
flags_of-has :
    (r : Report)
    → (has (flags_of r) 1 ≡ is_some r.read_count)
      × (has (flags_of r) 2 ≡ is_some r.rssi)
      × (has (flags_of r) 4 ≡ is_some r.antenna)
      × (has (flags_of r) 8 ≡ is_some r.frequency)
      × (has (flags_of r) 16 ≡ is_some r.timestamp)
      × (has (flags_of r) 32 ≡ is_some r.phase)
      × (has (flags_of r) 64 ≡ is_some r.protocol)
      × (has (flags_of r) 128 ≡ is_some r.embedded)
      × (has (flags_of r) 256 ≡ is_some r.gpio)
      × (flags_of r < 512)
flags_of-has r =
    let (a, b, c, d, e, f, g, h, i) = has-digits (flags_of r) in
    let (p, q, s, t, u, v, w, x, y, z) =
      digits_sum (digit r.read_count) (digit r.rssi) (digit r.antenna) (digit r.frequency)
        (digit r.timestamp) (digit r.phase) (digit r.protocol) (digit r.embedded) (digit r.gpio)
        (digit-lt r.read_count) (digit-lt r.rssi) (digit-lt r.antenna) (digit-lt r.frequency)
        (digit-lt r.timestamp) (digit-lt r.phase) (digit-lt r.protocol) (digit-lt r.embedded)
        (digit-lt r.gpio) (flags_of r) refl in
    (
      a ∙ digit-is_some r.read_count _ p,
      b ∙ digit-is_some r.rssi _ q,
      c ∙ digit-is_some r.antenna _ s,
      d ∙ digit-is_some r.frequency _ t,
      e ∙ digit-is_some r.timestamp _ u,
      f ∙ digit-is_some r.phase _ v,
      g ∙ digit-is_some r.protocol _ w,
      h ∙ digit-is_some r.embedded _ x,
      i ∙ digit-is_some r.gpio _ y,
      z,
    )

walk_fields-Report :
    (r : Report) (c : Cursor) (rest : List ℕ)
    → Stands c (fields_then r rest)
    → (n : ℕ) × (walk_fields (flags_of r) c ≡ give (metadata_of r, new_cursor c.payload n))
      × Stands (new_cursor c.payload n) rest
unfolding walk_fields
walk_fields-Report r c rest s =
    let (e1, e2, e3, e4, e5, e6, e7, e8, e9, small) = flags_of-has r in
    let (q1, s1) =
      when_set-Reads (u8 (codes "the read count")) byte r.read_count _ (u8-Reads _) e1 c _ s in
    let (q2, s2) = when_set-Reads (u8 (codes "the RSSI")) byte r.rssi _ (u8-Reads _) e2 _ _ s1 in
    let (q3, s3) =
      when_set-Reads (u8 (codes "the antenna byte")) byte r.antenna _ (u8-Reads _) e3 _ _ s2 in
    let (q4, s4) =
      when_set-Reads (u24 (codes "the frequency")) split_u24 r.frequency _ (u24-Reads _) e4 _ _
        s3 in
    let (q5, s5) =
      when_set-Reads (u32 (codes "the timestamp")) split_u32 r.timestamp _ (u32-Reads _) e5 _ _
        s4 in
    let (q6, s6) =
      when_set-Reads (u16 (codes "the phase")) word r.phase _ (u16-Reads _) e6 _ _ s5 in
    let (q7, s7) =
      when_set-Reads (u8 (codes "the protocol")) byte r.protocol _ (u8-Reads _) e7 _ _ s6 in
    let (q8, s8) =
      when_set-Reads (bit_counted (codes "the embedded data")) with_bits r.embedded _
        (bit_counted-Reads _) e8 _ _ s7 in
    let (q9, s9) =
      when_set-Reads (u8 (codes "the GPIO status")) byte r.gpio _ (u8-Reads _) e9 _ _ s8 in
    (_, rw (q1, q2, q3, q4, q5, q6, q7, q8, q9), s9)

-- A report in a payload, with more bytes after it: three bytes of which the first is the option byte,
-- the flags, the response type and the fields.
abbrev pub payload_of : ℕ → ℕ → ℕ → Report → List ℕ → List ℕ
payload_of option a b r more =
    option
    ∷ a
    ∷ b
    ∷ flags_of r / 256
    ∷ flags_of r % 256
    ∷ 0x01
    ∷ fields_then r (with_bits r.epc ++ more)

-- What a report says of a read.
abbrev pub message_of : {I : Type 0} → List ℕ → List ℕ → Report → ReaderMessage I
message_of reader_id payload r = record {
  source = reader_id;
  antenna = and_then r.antenna logical_antenna;
  chip = chip_id r.epc r.protocol;
  timestamp = timestamp_of r.timestamp;
  rssi_dbm = as_i8? r.rssi;
  raw_payload = payload;
}

walk_tag-Report :
    {I : Type 0} (reader_id : List ℕ) (option a b : ℕ) (r : Report) (more : List ℕ)
    → (n : ℕ) × (walk_tag {I = I} reader_id (payload_of option a b r more) (flags_of r)
        ≡ finish_read reader_id
            (payload_of option a b r more)
            (metadata_of r)
            r.epc
            (new_cursor (payload_of option a b r more) n))
      × Stands (new_cursor (payload_of option a b r more) n) more
unfolding walk_tag
walk_tag-Report reader_id option a b r more =
    let payload = payload_of option a b r more in
    let (n, q, s) =
      walk_fields-Report r (new_cursor payload 6) (with_bits r.epc ++ more) (refl, omega arith) in
    let (p, t) = bit_counted-Reads (codes "the EPC") r.epc (new_cursor payload n) more s in
    (_, rw (q, p), t)

read_tag-Report :
    {I : Type 0} (reader_id : List ℕ) (option a b : ℕ) (r : Report) (more : List ℕ)
    → read_tag {I = I} reader_id (payload_of option a b r more)
      ≡ walk_tag reader_id (payload_of option a b r more) (flags_of r)
unfolding read_tag
read_tag-Report reader_id option a b r more =
    let (e1, e2, e3, e4, e5, e6, e7, e8, e9, small) = flags_of-has r in
    let payload = payload_of option a b r more in
    let (q, s) =
      u16-Reads (codes "the metadata flags") (flags_of r) (new_cursor payload 3) _
        (refl, omega arith) in
    let known : bit_and (flags_of r) (bit_xor decodable 0xFFFF) ≡ 0 =
      bit_and_above 9 127 (flags_of r) small in
    rw (q, known)

-- A report is read whole, and is the read that its fields say.
pub read_tag-message_of :
    {I : Type 0} (reader_id : List ℕ) (option a b : ℕ) (r : Report)
    → read_tag {I = I} reader_id (payload_of option a b r [])
      ≡ give (message_of reader_id (payload_of option a b r []) r)
unfolding finish_read
read_tag-message_of reader_id option a b r =
    let (n, q, (d, l)) = walk_tag-Report reader_id option a b r [] in
    let none_left : length (payload_of option a b r []) - n ≡ 0 = omega arith in
    read_tag-Report reader_id option a b r [] ∙ q ∙ rw none_left

-- Bytes after a report are an error that counts them.
pub read_tag-trailing :
    {I : Type 0} (reader_id : List ℕ) (option a b : ℕ) (r : Report) (extra : ℕ) (more : List ℕ)
    → read_tag {I = I} reader_id (payload_of option a b r (extra ∷ more))
      ≡ fail (trailing_bytes (suc (length more)))
unfolding finish_read
read_tag-trailing reader_id option a b r extra more =
    let (n, q, (d, l)) = walk_tag-Report reader_id option a b r (extra ∷ more) in
    let left : length (payload_of option a b r (extra ∷ more)) - n ≡ suc (length more) =
      omega arith in
    let some_left : (suc (length more) == 0) ≡ false = ground arith in
    read_tag-Report reader_id option a b r (extra ∷ more) ∙ q ∙ rw (left, some_left)

-- The frame that carries a report.
abbrev pub report_frame : List ℕ → Response
report_frame payload = record { opcode = 0x22; status = 0; payload = payload }

classify-Report :
    (option a b : ℕ) (r : Report) (more : List ℕ)
    → bit_and option 0x10 ≡ 0x10
    → classify (report_frame (payload_of option a b r more)) ≡ ok tag
unfolding classify is_ok to_byte
classify-Report option a b r more h = rw h

-- A successful 0x22 frame with a report, its option byte with 0x10 set, adds the read that the
-- report says, and is counted as a read.
pub decode_report-message_of :
    {I : Type 0} (d : StreamDecoder) (option a b : ℕ) (r : Report) (out : List (ReaderMessage I))
    → bit_and option 0x10 ≡ 0x10
    → decode_report d (report_frame (payload_of option a b r [])) out
      ≡ done (
        record d { frames = one_more d.frames; reads = one_more d.reads },
        out ++ message_of d.reader_id (payload_of option a b r []) r ∷ [],
      )
unfolding decode_report
decode_report-message_of d option a b r out h =
    rw (classify-Report option a b r [] h, read_tag-message_of d.reader_id option a b r)

-- A successful 0x22 frame with more bytes than its report, its option byte with 0x10 set, adds no
-- read, and is counted as an error.
pub decode_report-trailing :
    {I : Type 0} (d : StreamDecoder) (option a b : ℕ) (r : Report) (extra : ℕ) (more : List ℕ)
    (out : List (ReaderMessage I))
    → bit_and option 0x10 ≡ 0x10
    → decode_report d (report_frame (payload_of option a b r (extra ∷ more))) out
      ≡ done (
        record d { frames = one_more d.frames; errors = one_more d.errors; reported = true },
        out,
      )
unfolding decode_report
decode_report-trailing d option a b r extra more out h = rw (
  classify-Report option a b r (extra ∷ more) h,
  read_tag-trailing d.reader_id option a b r extra more,
)
