-- ===== src/Thingmagic/Reassembly/Ledger.antt =====
-- What `feed` and `flush` of crates/splitforge-thingmagic/src/reassembly.rs keep count of: every
-- byte that came in was handed over in a frame, thrown away and counted, or is still held.
use splitforge.Prelude.{
  ℕ, ◌+◌, ◌<◌, List, [], ◌∷◌, ◌++◌, ◌≡◌, refl, ap, ◌∙◌, arith, length, length-append, done,
}
use splitforge.Prelude.{Result, ok, err}
use splitforge.Thingmagic.Frame.{Response, Decoded, FrameError, frame, incomplete, max_frame_len}
use splitforge.Thingmagic.Frame.Decode.{Reads, verified, Reads-decode}
use splitforge.Thingmagic.Frame.RoundTrip.{incomplete_bounds}
use splitforge.Thingmagic.Reassembly.{
  Stats, no_stats, Incomplete, wait, give_up, Reassembler, unsynchronized, corrupt, oversized,
  unfinished, held, turn, feed, flush, pending,
}
use splitforge.Thingmagic.Reassembly.Scan.{
  Event, got, dropped, Scans, finish, hold, take, skip, count_event, count_events, delivered, span,
  turn-taken, Scans_total, Scans-span, scan-Scans,
}

-- The bytes of a frame on the wire.
abbrev pub frame_bytes : List Response → ℕ
frame_bytes [] = 0
frame_bytes (r ∷ rs) = 5 + length r.payload + 2 + frame_bytes rs

-- What a call to `scan` changed, against the reassembler it was called on with `inflow` new bytes.
pub record IsBalanced (inflow : ℕ) (before after : Reassembler) (out : List Response) : Type 0 where
  pub frames_counted : after.stats.frames ≡ before.stats.frames + length out
  pub bytes_counted :
      after.stats.discarded_bytes + frame_bytes out + pending after
      ≡ before.stats.discarded_bytes + pending before + inflow

Reads-size :
    {input : List ℕ} {r : Response} {n : ℕ}
    → Reads input (ok (frame r n))
    → n ≡ 5 + length r.payload + 2
Reads-size (verified len opcode high low payload ch cl rest input e h k q) = omega arith

frames-count :
    {mode : Incomplete} {xs : List ℕ} {events : List Event} {left : List ℕ}
    → Scans mode xs events left
    → (s : Stats)
    → ((count_events events s).frames ≡ s.frames + length (delivered events))
      × ((count_events events s).discarded_bytes + frame_bytes (delivered events)
          ≡ s.discarded_bytes + span events)
frames-count finish s = omega arith
frames-count (hold byte bytes d e t) s = omega arith
frames-count {mode} (take byte bytes d r n events left e t sc) s = omega (
  arith,
  frames-count sc (count_event (got r n) s),
  Reads-size (Reads-decode _ (e ∙ ap done (turn-taken mode d t))),
)
frames-count (skip byte bytes d unsynchronized events left e t sc) s =
    omega (arith, frames-count sc (count_event (dropped unsynchronized _) s))
frames-count (skip byte bytes d corrupt events left e t sc) s =
    omega (arith, frames-count sc (count_event (dropped corrupt _) s))
frames-count (skip byte bytes d oversized events left e t sc) s =
    omega (arith, frames-count sc (count_event (dropped oversized _) s))
frames-count (skip byte bytes d unfinished events left e t sc) s =
    omega (arith, frames-count sc (count_event (dropped unfinished _) s))

turn-held : (d : Result Decoded FrameError) → turn wait d ≡ held → (n : ℕ) × (d ≡ ok (incomplete n))
turn-held (ok (incomplete n)) e = (n, refl)
turn-held (ok (frame r n)) e = cc
turn-held (err (FrameError.not_synchronized found)) e = cc
turn-held (err (FrameError.bad_crc declared computed)) e = cc
turn-held (err (FrameError.data_too_long declared)) e = cc

give_up-held : (d : Result Decoded FrameError) → turn give_up d ≡ held → ⊥
give_up-held (ok (incomplete n)) e = cc
give_up-held (ok (frame r n)) e = cc
give_up-held (err (FrameError.not_synchronized found)) e = cc
give_up-held (err (FrameError.bad_crc declared computed)) e = cc
give_up-held (err (FrameError.data_too_long declared)) e = cc

left-bound :
    {xs : List ℕ} {events : List Event} {left : List ℕ}
    → Scans wait xs events left
    → length left < max_frame_len
left-bound finish = omega arith
left-bound (hold byte bytes d e t) =
    let (n, q) = turn-held d t in omega (arith, incomplete_bounds (byte ∷ bytes) n (e ∙ ap done q))
left-bound (take byte bytes d r n events left e t s) = left-bound s
left-bound (skip byte bytes d f events left e t s) = left-bound s

left_empty :
    {xs : List ℕ} {events : List Event} {left : List ℕ} → Scans give_up xs events left → left ≡ []
left_empty finish = refl
left_empty (hold byte bytes d e t) = absurd (give_up-held d t)
left_empty (take byte bytes d r n events left e t s) = left_empty s
left_empty (skip byte bytes d f events left e t s) = left_empty s

-- `feed` always returns. Every byte fed, and every byte that was held, is afterwards in a frame that
-- was handed over, in `discarded_bytes` or still held; each frame handed over is counted once; and
-- fewer bytes are held than the largest frame has.
pub feed-IsBalanced :
    (bytes : List ℕ) (r : Reassembler)
    → (after : Reassembler) × (out : List Response) × (feed bytes r ≡ done (after, out))
      × IsBalanced (length bytes) r after out
      × (pending after < max_frame_len)
unfolding feed
feed-IsBalanced bytes r =
    let fed : Reassembler = record r { buffer = r.buffer ++ bytes } in
    let (events, left, s) = Scans_total wait fed.buffer in
    (
      _,
      _,
      scan-Scans fed s,
      record {
        frames_counted = omega (arith, frames-count s no_stats);
        bytes_counted =
            omega (arith, frames-count s no_stats, Scans-span s, length-append r.buffer bytes);
      },
      left-bound s,
    )

-- `flush` always returns, with the same account of the bytes, and leaves nothing held.
pub flush-IsBalanced :
    (r : Reassembler)
    → (after : Reassembler) × (out : List Response) × (flush r ≡ done (after, out))
      × IsBalanced 0 r after out
      × (after.buffer ≡ [])
unfolding flush
flush-IsBalanced r =
    let (events, left, s) = Scans_total give_up r.buffer in
    (
      _,
      _,
      scan-Scans r s,
      record {
        frames_counted = omega (arith, frames-count s no_stats);
        bytes_counted = omega (arith, frames-count s no_stats, Scans-span s);
      },
      left_empty s,
    )
