-- ===== src/Thingmagic/Reassembly/Samples.antt =====
-- Runs of crates/splitforge-thingmagic/src/reassembly.rs, and its theorems at these inputs.
use splitforge.Prelude.{ℕ, List, [], ◌∷◌, ◌++◌, ◌≡◌, refl, arith, done, slice_from, ◌<◌}
use splitforge.Thingmagic.Crc.{captured_frame}
use splitforge.Thingmagic.Frame.{Response, decode, decode_sized, resynchronize, max_frame_len}
use splitforge.Thingmagic.Reassembly.{
  Reassembler, new, no_stats, stride, scan_loop, scan, feed, pending,
}
use splitforge.Thingmagic.Reassembly.Ledger.{IsBalanced, feed-IsBalanced}
use splitforge.Thingmagic.Reassembly.Chunks.{SameStream, feed-append}
use splitforge.Thingmagic.Reassembly.Delivery.{Line, IsLine, line_bytes, responses, feed-line_bytes}

abbrev first_half : List ℕ
first_half = 0x01 ∷ 0x02 ∷ 0xFF ∷ 0x00 ∷ 0x03 ∷ []

-- Noise in front of a header is dropped, and the header is held.
feed_header :
    feed first_half new
    ≡ done (
      record {
        buffer = 0xFF ∷ 0x00 ∷ 0x03 ∷ [];
        stats = record no_stats { not_synchronized = 1; discarded_bytes = 2 };
      },
      [],
    )
unfolding feed scan scan_loop stride resynchronize decode decode_sized slice_from
feed_header = refl

feed-IsBalanced_example :
    (after : Reassembler) × (out : List Response) × (feed first_half new ≡ done (after, out))
    × IsBalanced 5 new after out
    × (pending after < max_frame_len)
feed-IsBalanced_example = feed-IsBalanced first_half new

feed-append_example :
    (mid after whole : Reassembler) × (out₁ out₂ : List Response) × (feed first_half new
      ≡ done (mid, out₁))
    × (feed captured_frame mid ≡ done (after, out₂))
    × (feed (first_half ++ captured_frame) new ≡ done (whole, out₁ ++ out₂))
    × SameStream after whole
feed-append_example = feed-append first_half captured_frame new

abbrev line : Line
line =
    (1 ∷ 2 ∷ [], record { opcode = 3; status = 0; payload = 9 ∷ [] })
    ∷ ([], record { opcode = 4; status = 0x0101; payload = [] })
    ∷ []

line-IsLine : IsLine line
line-IsLine = omega arith

feed-line_bytes_example :
    (after : Reassembler) × (feed (line_bytes line) new ≡ done (after, responses line))
    × (after.buffer ≡ [])
    × (after.stats.frames ≡ 2)
    × (after.stats.discarded_bytes ≡ 2)
feed-line_bytes_example = feed-line_bytes line line-IsLine
