-- ===== src/Thingmagic/TagReport.antt =====
-- crates/splitforge-thingmagic/src/tag_report.rs: a streaming response turned into a read, and the
-- decoder's counts, which are `u64`s that stop at the largest one.
pub mod Bounded
pub mod Flags
pub mod Walk
pub mod RoundTrip
pub mod Ledger
pub mod Samples
use splitforge.Prelude.{
  ℕ, ◌+◌, ◌-◌, ◌*◌, ◌/◌, ◌%◌, ◌^◌, Bool, true, false, not, ◌&&◌, List, [], ◌∷◌, ◌++◌, Option, none,
  some, length, take, drop, get_elem?, ltb, leb, ◌==◌, if◌then◌else◌, bit_and, bit_or, bit_xor, min,
  Run, done, panic, stuck, Result, ok, err, and_then, index,
}
use splitforge.Prelude.Int.{ℤ, pos, negsuc}
use splitforge.Prelude.Text.{codes}
use splitforge.Thingmagic.Frame.{Response, is_ok}
use splitforge.Thingmagic.Command.Codes.{to_byte, read_tag_id_multiple}
use splitforge.Thingmagic.TagReport.Bounded.{
  ReportError, not_a_read_response, unsuccessful_status, truncated, unknown_flags, unknown_layout,
  unknown_response_type, trailing_bytes, Attempt, ◌>>=◌, ◌>>◌, give, fail, Cursor, new_cursor, u8,
  u16, u24, u32, bit_counted,
}
use splitforge.Reader.{ReaderTimestamp, uptime, absent, ReaderMessage}

abbrev pub decodable : ℕ
decodable = 0x01FF

abbrev pub no_tags_found : ℕ
no_tags_found = 0x0400

pub data StreamResponse : Type 0 where
  tag status end_of_stream end_of_cycle : StreamResponse

abbrev pub is_empty : List ℕ → Bool
is_empty [] = true
is_empty (b ∷ bytes) = false

abbrev kind_of : ℕ → Result StreamResponse ReportError
kind_of kind =
    if kind == 0x00
    then ok end_of_stream
    else if kind == 0x01
    then ok tag
    else if kind == 0x02
    then ok status
    else err (unknown_response_type kind)

-- `classify`, of what stands at the place of the response type
abbrev classify_kind : Option ℕ → ℕ → Result StreamResponse ReportError
classify_kind none available = err (truncated (codes "the response-type byte") 1 available)
classify_kind (some kind) available = kind_of kind

-- `classify`, of what stands at the place of the option byte
abbrev classify_option : Option ℕ → List ℕ → Result StreamResponse ReportError
classify_option none payload = err (truncated (codes "the option byte") 1 (length payload))
classify_option (some option) payload =
    if not (bit_and option 0x10 == 0x10)
    then err (unknown_layout option)
    else classify_kind (get_elem? payload 5) (length payload)

unfoldable pub classify : Response → Result StreamResponse ReportError
classify r =
    if not (r.opcode == to_byte read_tag_id_multiple)
    then err (not_a_read_response r.opcode)
    else if r.status == no_tags_found && is_empty r.payload
    then ok end_of_cycle
    else if not (is_ok r)
    then err (unsuccessful_status r.status)
    else classify_option (get_elem? r.payload 0) r.payload

pub record Metadata : Type 0 where
  pub rssi_dbm : Option ℤ
  pub antenna : Option ℕ
  pub timestamp_ms : Option ℕ
  pub protocol : Option ℕ

-- `as i8`, of a `u8`
abbrev pub as_i8 : ℕ → ℤ
as_i8 b = if ltb b 128 then pos b else negsuc (255 - b)

unfoldable pub logical_antenna : ℕ → Option ℕ
logical_antenna byte =
    let tx = bit_and (byte / 2 ^ 4) 0x0F in
    let rx = bit_and byte 0x0F in if tx == rx then some (if rx == 0 then 16 else rx) else none

abbrev pub hex_digit : ℕ → ℕ
hex_digit n = if ltb n 10 then 48 + n else 55 + n

-- `{byte:02X}`
unfoldable pub hex : List ℕ → List ℕ
hex [] = []
hex (byte ∷ bytes) = hex_digit (byte / 16) ∷ hex_digit (byte % 16) ∷ hex bytes

abbrev is_gen2 : Option ℕ → Bool
is_gen2 none = false
is_gen2 (some protocol) = protocol == 5

-- A record of four bytes or more is sliced where its bounds are: the slice cannot panic.
unfoldable pub chip_id : List ℕ → Option ℕ → List ℕ
chip_id bytes protocol =
    if is_gen2 protocol && leb 4 (length bytes)
    then hex (take (length bytes - 4) (drop 2 bytes))
    else hex bytes

abbrev pub timestamp_of : {I : Type 0} → Option ℕ → ReaderTimestamp I
timestamp_of none = absent
timestamp_of (some ms) = uptime (ms * 1000)

-- `flags & flag != 0`
unfoldable pub has : ℕ → ℕ → Bool
has flags flag = not (bit_and flags flag == 0)

-- A field that is read if its flag is set.
unfoldable pub when_set :
    {A : Type 0} → Bool → (Cursor → Attempt (A × Cursor)) → Cursor → Attempt (Option A × Cursor)
when_set false read c = give (none, c)
when_set true read c = do (a, after) ← read c; give (some a, after)

abbrev pub as_i8? : Option ℕ → Option ℤ
as_i8? none = none
as_i8? (some b) = some (as_i8 b)

-- `read_tag`, the fields in the order of their flags
unfoldable pub walk_fields : ℕ → Cursor → Attempt (Metadata × Cursor)
walk_fields flags c = do
  (read_count, c1) ← when_set (has flags 0x0001) (u8 (codes "the read count")) c
  (rssi, c2) ← when_set (has flags 0x0002) (u8 (codes "the RSSI")) c1
  (antenna, c3) ← when_set (has flags 0x0004) (u8 (codes "the antenna byte")) c2
  (frequency, c4) ← when_set (has flags 0x0008) (u24 (codes "the frequency")) c3
  (timestamp, c5) ← when_set (has flags 0x0010) (u32 (codes "the timestamp")) c4
  (phase, c6) ← when_set (has flags 0x0020) (u16 (codes "the phase")) c5
  (protocol, c7) ← when_set (has flags 0x0040) (u8 (codes "the protocol")) c6
  (embedded, c8) ← when_set (has flags 0x0080) (bit_counted (codes "the embedded data")) c7
  (gpio, c9) ← when_set (has flags 0x0100) (u8 (codes "the GPIO status")) c8
  give (
    record {
      rssi_dbm = as_i8? rssi;
      antenna = and_then antenna logical_antenna;
      timestamp_ms = timestamp;
      protocol = protocol;
    },
    c9,
  )

-- `read_tag`, once the fields and the EPC's record are read
unfoldable pub finish_read :
    {I : Type 0} → List ℕ → List ℕ → Metadata → List ℕ → Cursor → Attempt (ReaderMessage I)
finish_read reader_id payload meta epc c =
    let leftover = length payload - c.at in
    if not (leftover == 0)
    then fail (trailing_bytes leftover)
    else give (record {
      source = reader_id;
      antenna = meta.antenna;
      chip = chip_id epc meta.protocol;
      timestamp = timestamp_of meta.timestamp_ms;
      rssi_dbm = meta.rssi_dbm;
      raw_payload = payload;
    })

unfoldable pub walk_tag : {I : Type 0} → List ℕ → List ℕ → ℕ → Attempt (ReaderMessage I)
walk_tag reader_id payload flags = do
  (meta, c) ← walk_fields flags (new_cursor payload 6)
  (epc, after) ← bit_counted (codes "the EPC") c
  finish_read reader_id payload meta epc after

unfoldable pub read_tag : {I : Type 0} → List ℕ → List ℕ → Attempt (ReaderMessage I)
read_tag reader_id payload = do
  (flags, c) ← u16 (codes "the metadata flags") (new_cursor payload 3)
  let unknown = bit_and flags (bit_xor decodable 0xFFFF)
  let read = walk_tag reader_id payload flags
  if not (unknown == 0) then fail (unknown_flags flags unknown) else read

pub record StreamDecoder : Type 0 where
  pub reader_id : List ℕ
  pub frames : ℕ
  pub reads : ℕ
  pub errors : ℕ
  pub cycles : ℕ
  pub heard : ℕ
  pub reported : Bool

abbrev pub new_decoder : List ℕ → StreamDecoder
new_decoder reader_id = record {
  reader_id = reader_id;
  frames = 0;
  reads = 0;
  errors = 0;
  cycles = 0;
  heard = 0;
  reported = false;
}

-- `saturating_add(1)`
abbrev pub one_more : ℕ → ℕ
one_more n = min (n + 1) 18_446_744_073_709_551_615

-- `decode`, of what a frame is found to be: the counts, and the read that it carries
abbrev pub outcome_of :
    {I : Type 0}
    → StreamDecoder
    → Result StreamResponse ReportError
    → List ℕ
    → StreamDecoder × Attempt (Option (ReaderMessage I))
outcome_of d (err e) payload = (d, fail e)
outcome_of d (ok status) payload = (record d { heard = one_more d.heard }, give none)
outcome_of d (ok end_of_stream) payload = (record d { heard = one_more d.heard }, give none)
outcome_of d (ok end_of_cycle) payload =
    (record d { cycles = one_more d.cycles; heard = one_more d.heard }, give none)
outcome_of d (ok tag) payload = (d, do message ← read_tag d.reader_id payload; give (some message))

-- `decode`, its last part
abbrev pub record_outcome :
    {I : Type 0}
    → StreamDecoder
    → Attempt (Option (ReaderMessage I))
    → List (ReaderMessage I)
    → Run (StreamDecoder × List (ReaderMessage I))
record_outcome d (done (ok (some message))) out =
    done (record d { reads = one_more d.reads }, out ++ message ∷ [])
record_outcome d (done (ok none)) out = done (d, out)
record_outcome d (done (err e)) out =
    done (record d { errors = one_more d.errors; reported = true }, out)
record_outcome d panic out = panic
record_outcome d stuck out = stuck

unfoldable pub decode_report :
    {I : Type 0}
    → StreamDecoder
    → Response
    → List (ReaderMessage I)
    → Run (StreamDecoder × List (ReaderMessage I))
decode_report d r out =
    let counted = record d { frames = one_more d.frames } in
    let (after, outcome) = outcome_of counted (classify r) r.payload in
    record_outcome after outcome out
