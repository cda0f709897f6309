-- ===== src/Storage/Sidecar.antt =====
-- crates/splitforge-storage/src/sidecar.rs: the text file beside the database, a line for each read.
-- The file is the list of its bytes. A write or its sync may fail behind any of them.
pub mod Lines
pub mod Split
pub mod Written
pub mod Append
pub mod Torn
use splitforge.Prelude.{
  ℕ, zero, suc, ◌+◌, ◌-◌, ◌/◌, Bool, true, false, not, ◌&&◌, ◌||◌, List, [], ◌∷◌, ◌++◌, Option,
  none, some, leb, ltb, ◌==◌, if◌then◌else◌, Result, ok, err, length, take, drop, Run, done, stuck,
  and_then,
}
use splitforge.Prelude.Fallible.{◌>>=◌, ok_or}
use splitforge.Prelude.Text.{codes, ◌=ₜ◌}
use splitforge.Domain.Event.{RawRead}
use splitforge.Storage.Record.{
  LineError, not_utf8, not_tagged, no_separator, digest_mismatch, undecodable, disk_failed,
  SidecarRead, SidecarApi, SidecarRecord, record_of, into_read, hex_lower,
}

abbrev pub line_tag : List ℕ
line_tag = codes "SFJ1"

-- `format!("{LINE_TAG} ")`
abbrev pub line_start : List ℕ
line_start = codes "SFJ1 "

abbrev pub max_checked_line : ℕ
max_checked_line = 65_536

-- `strip_prefix`, of a text or of bytes
unfoldable pub strip_prefix : List ℕ → List ℕ → Option (List ℕ)
strip_prefix [] text = some text
strip_prefix (p ∷ prefix) [] = none
strip_prefix (p ∷ prefix) (c ∷ text) =
    let rest = strip_prefix prefix text in if p == c then rest else none

unfoldable pub starts_with : List ℕ → List ℕ → Bool
starts_with [] text = true
starts_with (p ∷ prefix) [] = false
starts_with (p ∷ prefix) (c ∷ text) = p == c && starts_with prefix text

abbrev prepend : {B : Type 0} → ℕ → Option (List ℕ × B) → Option (List ℕ × B)
prepend c none = none
prepend c (some (before, after)) = some (c ∷ before, after)

-- `split_once`, of one byte
unfoldable pub split_at_byte : ℕ → List ℕ → Option (List ℕ × List ℕ)
split_at_byte b [] = none
split_at_byte b (c ∷ text) =
    let rest = split_at_byte b text in if c == b then some ([], text) else prepend c rest

pub record Tip : Type 0 where
  pub end : ℕ
  pub digest : List ℕ

pub record ScanTally : Type 0 where
  pub records : ℕ
  pub corrupt_lines : ℕ
  pub torn_tail_bytes : ℕ
  pub torn_writes : ℕ
  pub last_verified : Option Tip

-- `ScanTally::default()`
abbrev pub no_tally : ScanTally
no_tally = record {
  records = 0;
  corrupt_lines = 0;
  torn_tail_bytes = 0;
  torn_writes = 0;
  last_verified = none;
}

pub record Sidecar : Type 0 where
  pub file : List ℕ
  pub tip : Option Tip

-- How a write of a buffer and its sync end: both are done, or one fails, by when as many bytes of the
-- buffer are in the file.
pub data Disk : Type 0 where
  synced : Disk
  cut : ℕ → Disk

abbrev pub is_zero : ℕ → Bool
is_zero b = b == 0

unfoldable pub skip_zeros : List ℕ → List ℕ
skip_zeros [] = []
skip_zeros (b ∷ bytes) = let rest = skip_zeros bytes in if is_zero b then rest else b ∷ bytes

abbrev is_nil : List ℕ → Bool
is_nil [] = true
is_nil (b ∷ bytes) = false

unfoldable pub is_torn_write : List ℕ → List ℕ → Bool
is_torn_write fragment start =
    let filled = skip_zeros fragment in
    is_nil filled || starts_with start filled || starts_with filled start

-- `Line`, of reads of instants `I`
pub data Line (I : Type 0) : Type 0 where
  record_line : SidecarRead I → Line I
  after_torn_write after_damage : SidecarRead I → ℕ → Line I
  corrupt_line : Line I

-- `strip_suffix(b"\n")`
unfoldable pub strip_newline : List ℕ → Option (List ℕ)
strip_newline [] = none
strip_newline (c ∷ []) = if c == 10 then some [] else none
strip_newline (c ∷ d ∷ text) = elim (strip_newline (d ∷ text)) [
  | none ↦ none
  | some rest ↦ some (c ∷ rest)
]

-- What is behind the last line feed
unfoldable pub after_newline : List ℕ → Option (List ℕ)
after_newline [] = none
after_newline (c ∷ text) = elim (after_newline text) [
  | some rest ↦ some rest
  | none ↦ if c == 10 then some text else none
]

-- `windows(needle.len()).any(..)`
unfoldable pub has_window : List ℕ → List ℕ → Bool
has_window needle [] = starts_with needle []
has_window needle (c ∷ text) = starts_with needle (c ∷ text) || has_window needle text

-- The end of `ends_with_line`, of the bytes of the window and of whether it is the whole file so far
unfoldable pub window_ends : List ℕ → Bool → List ℕ → Bool
window_ends window is_whole needle = elim (strip_newline window) [
  | none ↦ false
  | some line ↦ elim (after_newline line) [
    | some last ↦ has_window needle last
    | none ↦ is_whole && has_window needle line
  ]
]

unfoldable pub ends_with_line : Sidecar → Tip → Bool
ends_with_line sidecar tip =
    let start = tip.end - max_checked_line in
    if tip.end == 0 || ltb (length sidecar.file) tip.end
    then false
    else window_ends (take (tip.end - start) (drop start sidecar.file)) (start == 0)
        (line_start ++ tip.digest ++ 32 ∷ [])

-- `read_until` and `strip_suffix` of a line feed: the line and the bytes behind it
unfoldable pub next_line : List ℕ → Option (List ℕ × List ℕ)
next_line bytes = split_at_byte 10 bytes

module _ (Api : SidecarApi) where
  unfoldable pub parse_json : List ℕ → List ℕ → Result (SidecarRead Api.Instant) LineError
  parse_json digest json =
      if not (hex_lower (Api.sha256 json) =ₜ digest)
      then err digest_mismatch
      else ok_or undecodable (Api.from_json json) >>= into_read Api

  unfoldable pub parse_line : List ℕ → Result (SidecarRead Api.Instant) LineError
  parse_line line =
      if not (Api.is_utf8 line)
      then err not_utf8
      else elim (and_then (strip_prefix line_tag line) (strip_prefix (32 ∷ []))) [
        | none ↦ err not_tagged
        | some rest ↦ elim (split_at_byte 32 rest) [
          | none ↦ err no_separator
          | some parts ↦ parse_json parts.0 parts.1
        ]
      ]

  -- The places from `at` on where a line starts, and the first whose remainder verifies
  unfoldable pub find_line : ℕ → List ℕ → Option (ℕ × SidecarRead Api.Instant)
  find_line at [] = none
  find_line at (c ∷ text) =
      let later = find_line (suc at) text in
      if starts_with line_start (c ∷ text)
      then elim (parse_line (c ∷ text)) [ ok found ↦ some (at, found) | err e ↦ later ]
      else later

  unfoldable pub read_line : List ℕ → Line Api.Instant
  read_line line = elim (parse_line line) [
    | ok found ↦ record_line found
    | err e ↦ elim (find_line 1 (drop 1 line)) [
      | none ↦ corrupt_line
      | some (at, found) ↦
          if is_torn_write (take at line) line_start
          then after_torn_write found at
          else after_damage found at
    ]
  ]

  -- `line.get(from..from + 64)` and its text
  unfoldable pub digest_at : List ℕ → ℕ → Option (List ℕ)
  digest_at line at =
      let digest = take 64 (drop (at + 5) line) in
      if leb (at + 5 + 64) (length line) && Api.is_utf8 digest then some digest else none

  -- What a line adds to the tally
  abbrev count_verified : List ℕ → ℕ → ℕ → ScanTally → ScanTally
  count_verified complete at position tally = record tally {
    records = tally.records + 1;
    last_verified = elim (digest_at complete at) [
      | none ↦ tally.last_verified
      | some digest ↦ some (record { end = position; digest = digest })
    ];
  }

  abbrev pub tally_of : Line Api.Instant → List ℕ → ℕ → ScanTally → ScanTally
  tally_of (record_line found) complete position tally = count_verified complete 0 position tally
  tally_of (after_torn_write found at) complete position tally =
      count_verified complete at position (record tally { torn_writes = tally.torn_writes + 1 })
  tally_of (after_damage found at) complete position tally =
      count_verified complete at position (record tally { corrupt_lines = tally.corrupt_lines + 1 })
  tally_of corrupt_line complete position tally = record tally {
    corrupt_lines = tally.corrupt_lines + 1;
  }

  abbrev pub found_in : Line Api.Instant → List (SidecarRead Api.Instant)
  found_in (record_line found) = found ∷ []
  found_in (after_torn_write found at) = found ∷ []
  found_in (after_damage found at) = found ∷ []
  found_in corrupt_line = []

  module _ {S E : Type 0} (each : S → SidecarRead Api.Instant → Result S E) where
    abbrev pub hand_over : S → List (SidecarRead Api.Instant) → Result S E
    hand_over s [] = ok s
    hand_over s (found ∷ rest) = each s found >>= λ t. hand_over t rest

    -- The body of the loop of `scan_from`, of a line that is complete
    unfoldable pub scan_line : List ℕ → ℕ → ScanTally × S → Result (ScanTally × S) E
    scan_line [] position (tally, s) = ok (tally, s)
    scan_line (c ∷ complete) position (tally, s) =
        let line = read_line (c ∷ complete) in
        hand_over s (found_in line) >>= λ t. ok (tally_of line (c ∷ complete) position tally, t)

    unfoldable pub scan_lines : ℕ → List ℕ → ℕ → ScanTally × S → Run (Result (ScanTally × S) E)
    scan_lines zero bytes position state = stuck
    scan_lines (suc fuel) [] position state = done (ok state)
    scan_lines (suc fuel) (b ∷ bytes) position (tally, s) = elim (next_line (b ∷ bytes)) [
      | none ↦ done (ok (record tally { torn_tail_bytes = suc (length bytes) }, s))
      | some (complete, rest) ↦
          let after = position + suc (length complete) in
          elim (scan_line complete after (tally, s)) [
            | err e ↦ done (err e)
            | ok state ↦ scan_lines fuel rest after state
          ]
    ]

    -- Each round but the last takes a byte at least, so one round more than there are bytes is enough.
    unfoldable pub scan_from : Sidecar → ℕ → S → Run (Result (ScanTally × S) E)
    scan_from sidecar offset s =
        let bytes = drop offset sidecar.file in
        scan_lines (suc (length bytes)) bytes offset (no_tally, s)

  -- The buffer of `append_records`, and the digest of its last line
  unfoldable pub encode_line :
      RawRead Api.Instant × Api.Instant → Result (List ℕ × List ℕ) LineError
  encode_line (read, recorded_at) = record_of Api read recorded_at >>= λ r.
      let json = Api.to_json r in
      let digest = hex_lower (Api.sha256 json) in ok (line_start ++ digest ++ 32 ∷ json, digest)

  unfoldable pub encode_lines :
      List (RawRead Api.Instant × Api.Instant) → List ℕ → Result (List ℕ × List ℕ) LineError
  encode_lines [] last_digest = ok ([], last_digest)
  encode_lines (r ∷ records) last_digest = do
    line ← encode_line r
    rest ← encode_lines records line.1
    ok (line.0 ++ 10 ∷ rest.0, rest.1)

  abbrev pub write_buffer : Sidecar → List ℕ × List ℕ → Disk → Sidecar × Result (Unit {0}) LineError
  write_buffer sidecar (buffer, digest) synced =
      let file = sidecar.file ++ buffer in
      (record { file = file; tip = some (record { end = length file; digest = digest }) }, ok tt)
  write_buffer sidecar (buffer, digest) (cut k) =
      (record sidecar { file = sidecar.file ++ take k buffer }, err disk_failed)

  unfoldable pub append_records :
      Sidecar
      → List (RawRead Api.Instant × Api.Instant)
      → Disk
      → Sidecar × Result (Unit {0}) LineError
  append_records sidecar [] disk = (sidecar, ok tt)
  append_records sidecar (r ∷ records) disk = elim (encode_lines (r ∷ records) []) [
    | err e ↦ (sidecar, err e)
    | ok encoded ↦ write_buffer sidecar encoded disk
  ]
