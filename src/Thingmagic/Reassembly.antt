-- ===== src/Thingmagic/Reassembly.antt =====
-- crates/splitforge-thingmagic/src/reassembly.rs: the buffer that turns reads of any size back into
-- frames. The callback `on_frame` is modelled by the list of the responses it is called with, in
-- order. The counters are numbers without a bound: no `u64` of them is reached.
pub mod Scan
pub mod Ledger
pub mod Chunks
pub mod Delivery
pub mod Samples
use splitforge.Prelude.{
  ℕ, zero, suc, ◌+◌, List, [], ◌∷◌, ◌++◌, Option, none, some, length, Run, done, stuck, ◌>>=◌,
  slice_from,
}
use splitforge.Prelude.{Result, ok, err}
use splitforge.Thingmagic.Frame.{
  Response, Decoded, FrameError, frame, incomplete, decode, resynchronize,
}

pub record Stats : Type 0 where
  pub frames : ℕ
  pub not_synchronized : ℕ
  pub bad_crc : ℕ
  pub data_too_long : ℕ
  pub abandoned : ℕ
  pub discarded_bytes : ℕ

-- `Stats::default()`
abbrev pub no_stats : Stats
no_stats = record {
  frames = 0;
  not_synchronized = 0;
  bad_crc = 0;
  data_too_long = 0;
  abandoned = 0;
  discarded_bytes = 0;
}

unfoldable pub error_count : Stats → ℕ
error_count s = s.not_synchronized + s.bad_crc + s.data_too_long + s.abandoned

-- The six `+=` at the end of `scan`.
abbrev pub add_stats : Stats → Stats → Stats
add_stats s t = record {
  frames = s.frames + t.frames;
  not_synchronized = s.not_synchronized + t.not_synchronized;
  bad_crc = s.bad_crc + t.bad_crc;
  data_too_long = s.data_too_long + t.data_too_long;
  abandoned = s.abandoned + t.abandoned;
  discarded_bytes = s.discarded_bytes + t.discarded_bytes;
}

pub data Incomplete : Type 0 where
  wait give_up : Incomplete

pub record Reassembler : Type 0 where
  pub buffer : List ℕ
  pub stats : Stats

abbrev pub new : Reassembler
new = record { buffer = []; stats = no_stats }

abbrev pub pending : Reassembler → ℕ
pending r = length r.buffer

-- The counter that a byte run which is no frame goes to.
pub data Fault : Type 0 where
  unsynchronized corrupt oversized unfinished : Fault

abbrev pub count_fault : Fault → Stats → Stats
count_fault unsynchronized s = record s { not_synchronized = s.not_synchronized + 1 }
count_fault corrupt s = record s { bad_crc = s.bad_crc + 1 }
count_fault oversized s = record s { data_too_long = s.data_too_long + 1 }
count_fault unfinished s = record s { abandoned = s.abandoned + 1 }

-- The arms of the `match` in `scan`: hand a frame over, break, or fall through to the skip.
pub data Turn : Type 0 where
  taken : Response → ℕ → Turn
  held : Turn
  lost : Fault → Turn

abbrev pub turn : Incomplete → Result Decoded FrameError → Turn
turn mode (ok (frame response consumed)) = taken response consumed
turn wait (ok (incomplete n)) = held
turn give_up (ok (incomplete n)) = lost unfinished
turn mode (err (FrameError.not_synchronized found)) = lost unsynchronized
turn mode (err (FrameError.bad_crc declared computed)) = lost corrupt
turn mode (err (FrameError.data_too_long declared)) = lost oversized

-- `frame::resynchronize(remaining).unwrap_or(remaining.len())`
unfoldable pub stride : List ℕ → ℕ
stride remaining = elim (resynchronize remaining) [ none ↦ length remaining | some offset ↦ offset ]

-- The loop of `scan`. The counters and the responses so far are its accumulators.
unfoldable pub scan_loop :
    ℕ → List ℕ → Incomplete → ℕ → Stats → List Response → Run (ℕ × Stats × List Response)
scan_loop zero buffer mode cursor stats out = stuck
scan_loop (suc fuel) buffer mode cursor stats out = do
  remaining ← slice_from buffer cursor
  elim remaining [
    | [] ↦ done (cursor, stats, out)
    | byte ∷ bytes ↦ do
      decoded ← decode (byte ∷ bytes)
      elim (turn mode decoded) [
        | taken response consumed ↦
            scan_loop fuel buffer mode (cursor + consumed)
              (record stats { frames = stats.frames + 1 }) (out ++ response ∷ [])
        | held ↦ done (cursor, stats, out)
        | lost fault ↦
            let skip = stride (byte ∷ bytes) in
            let counted = count_fault fault stats in
            scan_loop fuel buffer mode (cursor + skip)
              (record counted { discarded_bytes = counted.discarded_bytes + skip }) out
      ]
  ]

-- Each round but the last takes a byte at least, so one round more than there are bytes is enough.
unfoldable pub scan : Incomplete → Reassembler → Run (Reassembler × List Response)
scan mode r = do
  (cursor, stats, out) ← scan_loop (suc (length r.buffer)) r.buffer mode 0 no_stats []
  rest ← slice_from r.buffer cursor
  done (record { buffer = rest; stats = add_stats r.stats stats }, out)

unfoldable pub feed : List ℕ → Reassembler → Run (Reassembler × List Response)
feed bytes r = scan wait (record r { buffer = r.buffer ++ bytes })

unfoldable pub flush : Reassembler → Run (Reassembler × List Response)
flush r = scan give_up r

abbrev pub reset : Reassembler → Reassembler
reset r = record r { buffer = [] }
