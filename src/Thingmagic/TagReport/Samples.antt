-- ===== src/Thingmagic/TagReport/Samples.antt =====
-- Runs of crates/splitforge-thingmagic/src/tag_report.rs, and its theorems at these inputs.
use splitforge.Prelude.{
  ℕ, true, List, [], ◌∷◌, none, some, take, drop, ◌≡◌, refl, arith, done, index,
}
use splitforge.Prelude.Int.{negsuc}
use splitforge.Prelude.Text.{codes}
use splitforge.Thingmagic.Crc.{captured_frame}
use splitforge.Thingmagic.Frame.{Response, be_u16}
use splitforge.Thingmagic.TagReport.Bounded.{
  give, take_field, u8, u16, u24, u32, bit_counted, be_u24, be_u32,
}
use splitforge.Thingmagic.TagReport.{
  read_tag, walk_tag, walk_fields, when_set, has, finish_read, chip_id, hex, logical_antenna,
  StreamDecoder, new_decoder, decode_report,
}
use splitforge.Thingmagic.TagReport.RoundTrip.{
  Report, payload_of, message_of, report_frame, decode_report-message_of, decode_report-trailing,
}
use splitforge.Thingmagic.TagReport.Ledger.{decode_all, decode_all-Counts, Counts}
use splitforge.Reader.{uptime}

abbrev captured_payload : List ℕ
captured_payload = take 40 (drop 5 captured_frame)

-- The report of a physical module is read as the module meant it.
read_tag_captured :
    read_tag {I = ℕ} [] captured_payload
    ≡ give (record {
      source = [];
      antenna = some 1;
      chip = codes "000000000000000000001545";
      timestamp = uptime 295000;
      rssi_dbm = some (negsuc 59);
      raw_payload = captured_payload;
    })
unfolding read_tag walk_tag walk_fields when_set has finish_read chip_id hex logical_antenna
    take_field u8 u16 u24 u32 bit_counted be_u24 be_u32 be_u16 index
read_tag_captured = refl

abbrev sample : Report
sample = record {
  read_count = some 1;
  rssi = some 0xC4;
  antenna = some 0x11;
  frequency = none;
  timestamp = some 295;
  phase = none;
  protocol = some 5;
  embedded = some (1 ∷ 2 ∷ []);
  gpio = none;
  epc = 0x30 ∷ 0 ∷ 0xAB ∷ 0xCD ∷ 0x11 ∷ 0x22 ∷ [];
}

abbrev mat : StreamDecoder
mat = new_decoder (codes "mat")

decode_report-message_of_example :
    decode_report {I = ℕ} mat (report_frame (payload_of 0x10 0 0 sample [])) []
    ≡ done (
      record mat { frames = 1; reads = 1 },
      message_of (codes "mat") (payload_of 0x10 0 0 sample []) sample ∷ [],
    )
decode_report-message_of_example = decode_report-message_of mat 0x10 0 0 sample [] refl

decode_report-trailing_example :
    decode_report {I = ℕ} mat (report_frame (payload_of 0x10 0 0 sample (0 ∷ []))) []
    ≡ done (record mat { frames = 1; errors = 1; reported = true }, [])
decode_report-trailing_example = decode_report-trailing mat 0x10 0 0 sample 0 [] [] refl

abbrev session : List Response
session =
    report_frame (payload_of 0x10 0 0 sample [])
    ∷ record { opcode = 0x22; status = 0x0400; payload = [] }
    ∷ record { opcode = 0x29; status = 0; payload = [] }
    ∷ report_frame (0x10 ∷ [])
    ∷ []

decode_all-Counts_example : Counts {I = ℕ} 4 mat [] (decode_all mat session [])
decode_all-Counts_example = decode_all-Counts mat session [] (omega arith) (refl, omega arith)
