-- ===== src/Storage/Samples.antt =====
-- Examples for the sidecar and the journal: a row that the sidecar lacks, a line that the database
-- lacks, and a batch that is lost half way.
use splitforge.Prelude.{
  ℕ, ◌≡◌, refl, List, [], ◌∷◌, ◌++◌, none, some, Result, ok, err, map, done, arith, ◌+◌,
  if◌then◌else◌, ◌==◌,
}
use splitforge.Prelude.Int.{ℤ, pos}
use splitforge.Domain.Event.{RawRead, gps_locked, device_receipt, no_reader_timestamp}
use splitforge.Storage.Record.{SidecarRead, SidecarRecord, record_of, into_read, storable}
use splitforge.Storage.Record.RoundTrip.{in_micros, record_of-into_read}
use splitforge.Storage.Sidecar.{
  after_torn_write, scan_from, hand_over, no_tally, Sidecar, synced, cut, encode_line,
  append_records, read_line,
}
use splitforge.Storage.Sidecar.Lines.{split_lines, recovered, tally_bytes, scan_from-recovered}
use splitforge.Storage.Sidecar.Append.{
  kept, IsWritable, append_records-recovered, append_records-kept,
}
use splitforge.Storage.Sidecar.Torn.{fragment, read_line-fragment}
use splitforge.Prelude.Fallible.{◌>>=◌}
use splitforge.Storage.Plain.{plain_api}

abbrev pub lap_read : ℕ → RawRead ℤ
lap_read id = record {
  id = id;
  source = 82 ∷ [];
  antenna = some 1;
  chip = 67 ∷ 72 ∷ [];
  reader_timestamp = some (pos 1_500);
  reader_uptime_us = none;
  received_at = pos 2_999;
  received_at_monotonic_ns = some 7;
  rssi_dbm = none;
  device_clock_state = gps_locked;
  timestamp_source = device_receipt no_reader_timestamp;
  clock_offset_ms = none;
  raw_payload = 255 ∷ 3 ∷ [];
}

abbrev pub two : List (RawRead ℤ × ℤ)
two = (lap_read 2, pos 4_000) ∷ (lap_read 3, pos 4_000) ∷ []

pub lap-IsWritable : (id : ℕ) → IsWritable plain_api (lap_read id, pos 4_000)
unfolding storable
lap-IsWritable id = (refl, refl, (omega arith, (omega arith, tt)))

record_of-into_read_example :
    (r : SidecarRecord) × (record_of plain_api (lap_read 5) (pos 4_000) ≡ ok r)
    × (into_read plain_api r
        ≡ ok (record { read = in_micros plain_api (lap_read 5); recorded_at = pos 4_000 }))
record_of-into_read_example =
    record_of-into_read plain_api (lap_read 5) (pos 4_000) (lap-IsWritable 5).0 refl
      (omega arith, (omega arith, tt))

abbrev empty : Sidecar
empty = record { file = []; tip = none }

-- A sidecar with the lines of two reads
abbrev pub of_two : Sidecar
of_two = (append_records plain_api empty two synced).0

append_records-recovered_example :
    (let after = append_records plain_api empty two synced in
      (after.1 ≡ ok tt)
      × (recovered plain_api after.0.file ≡ recovered plain_api [] ++ map (kept plain_api) two)
      × ((split_lines after.0.file).1 ≡ []))
unfolding split_lines
append_records-recovered_example =
    append_records-recovered plain_api empty (lap_read 2, pos 4_000) ((lap_read 3, pos 4_000) ∷ [])
      (lap-IsWritable 2, (lap-IsWritable 3, tt)) (λ line digest e. tt)

pub of_two-recovered :
    (recovered plain_api of_two.file ≡ map (kept plain_api) two)
    × ((split_lines of_two.file).1 ≡ [])
unfolding split_lines
of_two-recovered =
    let (result, found, shut) =
      append_records-recovered plain_api empty (lap_read 2, pos 4_000)
        ((lap_read 3, pos 4_000) ∷ []) (lap-IsWritable 2, (lap-IsWritable 3, tt))
        (λ line digest e. tt) in
    (found, shut)

append_records-kept_example :
    (more : List (SidecarRead ℤ)) × (recovered plain_api
        (append_records plain_api of_two two (cut 7)).0.file
      ≡ recovered plain_api of_two.file ++ more)
append_records-kept_example = append_records-kept plain_api of_two two (cut 7)

read_line-fragment_example :
    (line : List ℕ) × (digest : List ℕ) × (encode_line plain_api (lap_read 2, pos 4_000)
      ≡ ok (line, digest))
    × (read_line plain_api (fragment 3 4 ++ line)
        ≡ after_torn_write (kept plain_api (lap_read 2, pos 4_000)) 7)
read_line-fragment_example =
    read_line-fragment plain_api 3 4 (lap_read 2, pos 4_000) (omega arith) (omega arith)
      (lap-IsWritable 2)

abbrev count_reads : ℕ → SidecarRead ℤ → Result ℕ ℕ
count_reads n found = if found.read.id == 9 then err n else ok (n + 1)

scan_from-recovered_example :
    scan_from plain_api count_reads of_two 0 5
    ≡ done (
        hand_over plain_api count_reads 5 (recovered plain_api of_two.file) >>= λ t.
        ok (tally_bytes plain_api 0 no_tally of_two.file, t))
scan_from-recovered_example = scan_from-recovered plain_api count_reads of_two 0 5
