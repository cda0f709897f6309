-- ===== src/Thingmagic/Reassembly/Scan.antt =====
-- The loop of `scan` in crates/splitforge-thingmagic/src/reassembly.rs as a derivation: one step for
-- each frame handed over and each run of bytes thrown away.
use splitforge.Prelude.{
  ℕ, zero, suc, ◌+◌, ◌≤◌, ◌<◌, List, [], ◌∷◌, ◌++◌, some, append_assoc, append-nil, ◌≡◌, refl, ap,
  sym, ◌∙◌, arith, length, length-append, Option-cases, inl, inr, ◌⊎◌, drop, length-drop, drop-drop,
  done, ◌>>=◌, slice_from_lem,
}
use native.Mathlib.Nat.{add-zero, add_assoc}
use splitforge.Prelude.{Result, ok, err}
use splitforge.Thingmagic.Frame.{
  Response, Decoded, FrameError, frame, incomplete, decode, resynchronize, position_soh,
}
use splitforge.Thingmagic.Frame.Decode.{Reads, verified, Reads-decode, decode-Reads}
use splitforge.Thingmagic.Reassembly.{
  Stats, no_stats, add_stats, Incomplete, wait, give_up, Reassembler, Fault, count_fault, Turn,
  taken, held, lost, turn, stride, scan_loop, scan,
}

pub data Event : Type 0 where
  got : Response → ℕ → Event
  dropped : Fault → ℕ → Event

-- `Scans mode xs events left`: reading `xs` gives `events` and leaves `left` for later.
pub data Scans (mode : Incomplete) : List ℕ → List Event → List ℕ → Type 0 where
  finish : Scans mode [] [] []
  hold :
      (byte : ℕ) (bytes : List ℕ) (d : Result Decoded FrameError)
      → decode (byte ∷ bytes) ≡ done d
      → turn mode d ≡ held
      → Scans mode (byte ∷ bytes) [] (byte ∷ bytes)
  take :
      (byte : ℕ) (bytes : List ℕ) (d : Result Decoded FrameError) (r : Response) (n : ℕ)
      (events : List Event) (left : List ℕ)
      → decode (byte ∷ bytes) ≡ done d
      → turn mode d ≡ taken r n
      → Scans mode (drop n (byte ∷ bytes)) events left
      → Scans mode (byte ∷ bytes) (got r n ∷ events) left
  skip :
      (byte : ℕ) (bytes : List ℕ) (d : Result Decoded FrameError) (fault : Fault)
      (events : List Event) (left : List ℕ)
      → decode (byte ∷ bytes) ≡ done d
      → turn mode d ≡ lost fault
      → Scans mode (drop (stride (byte ∷ bytes)) (byte ∷ bytes)) events left
      → Scans mode (byte ∷ bytes) (dropped fault (stride (byte ∷ bytes)) ∷ events) left

abbrev pub count_event : Event → Stats → Stats
count_event (got r n) s = record s { frames = s.frames + 1 }
count_event (dropped fault n) s =
    let counted = count_fault fault s in
    record counted { discarded_bytes = counted.discarded_bytes + n }

abbrev pub count_events : List Event → Stats → Stats
count_events [] s = s
count_events (e ∷ events) s = count_events events (count_event e s)

abbrev pub delivered : List Event → List Response
delivered [] = []
delivered (got r n ∷ events) = r ∷ delivered events
delivered (dropped fault n ∷ events) = delivered events

-- The bytes that the events took.
abbrev pub span : List Event → ℕ
span [] = 0
span (got r n ∷ events) = n + span events
span (dropped fault n ∷ events) = n + span events

-- A skip takes a byte at least and stays within the buffer.
position_soh-lt : (xs : List ℕ) (k : ℕ) → position_soh xs ≡ some k → k < length xs
unfolding position_soh
position_soh-lt [] k e = cc
position_soh-lt (x ∷ xs) k e = elim (Option-cases (position_soh xs)) [
  | inl nothing ↦ ground arith
  | inr (j, found) ↦ ground (arith, position_soh-lt xs j found)
]

pub stride_bounds :
    (byte : ℕ) (bytes : List ℕ)
    → (0 < stride (byte ∷ bytes)) × (stride (byte ∷ bytes) ≤ length (byte ∷ bytes))
unfolding stride resynchronize
stride_bounds byte bytes = elim (Option-cases (position_soh bytes)) [
  | inl nothing ↦ ground arith
  | inr (j, found) ↦ ground (arith, position_soh-lt bytes j found)
]

pub turn-taken :
    (mode : Incomplete) (d : Result Decoded FrameError) {r : Response} {n : ℕ}
    → turn mode d ≡ taken r n
    → d ≡ ok (frame r n)
turn-taken mode (ok (frame r n)) e = cc
turn-taken wait (ok (incomplete n)) e = cc
turn-taken give_up (ok (incomplete n)) e = cc
turn-taken mode (err (FrameError.not_synchronized found)) e = cc
turn-taken mode (err (FrameError.bad_crc declared computed)) e = cc
turn-taken mode (err (FrameError.data_too_long declared)) e = cc

frame_size :
    {input : List ℕ} {r : Response} {n : ℕ}
    → Reads input (ok (frame r n))
    → (0 < n) × (n ≤ length input)
frame_size (verified len opcode high low payload ch cl rest input e h k q) =
    (omega arith, rw e (omega (arith, length-append payload (ch ∷ cl ∷ rest))))

-- A frame that is taken has a byte at least and stands whole in the buffer.
pub taken_bounds :
    (mode : Incomplete) (xs : List ℕ) (d : Result Decoded FrameError) (r : Response) (n : ℕ)
    → decode xs ≡ done d
    → turn mode d ≡ taken r n
    → (0 < n) × (n ≤ length xs)
taken_bounds mode xs d r n e t = frame_size (Reads-decode xs (e ∙ ap done (turn-taken mode d t)))

Turn-cases :
    (t : Turn)
    → ((r : Response) × (n : ℕ) × (t ≡ taken r n)) ⊎ ((t ≡ held) ⊎ ((f : Fault) × (t ≡ lost f)))
Turn-cases (taken r n) = inl (r, n, refl)
Turn-cases held = inr (inl refl)
Turn-cases (lost f) = inr (inr (f, refl))

abbrev Scanned : Incomplete → List ℕ → Type 0
Scanned mode xs = (events : List Event) × (left : List ℕ) × Scans mode xs events left

scans_below : (k : ℕ) (mode : Incomplete) (xs : List ℕ) → length xs ≤ k → Scanned mode xs
scans_below k mode [] h = ([], [], finish)
scans_below zero mode (byte ∷ bytes) h = absurd (omega arith)
scans_below (suc k) mode (byte ∷ bytes) h =
    let (d, e, _) = decode-Reads (byte ∷ bytes) in
    let shrink : (n : ℕ) → 0 < n → length (drop n (byte ∷ bytes)) ≤ k =
      λ n p. omega (arith, length-drop n (byte ∷ bytes)) in
    elim (Turn-cases (turn mode d)) [
      | inl (r, n, t) ↦
          let (events, left, s) =
            scans_below k mode (drop n (byte ∷ bytes))
              (shrink n (taken_bounds mode _ d r n e t).0) in
          (got r n ∷ events, left, take byte bytes d r n events left e t s)
      | inr (inl t) ↦ ([], byte ∷ bytes, hold byte bytes d e t)
      | inr (inr (f, t)) ↦
          let (events, left, s) =
            scans_below k mode (drop (stride (byte ∷ bytes)) (byte ∷ bytes))
              (shrink _ (stride_bounds byte bytes).0) in
          (dropped f (stride (byte ∷ bytes)) ∷ events, left, skip byte bytes d f events left e t s)
    ]

-- Every buffer can be scanned to an end.
pub Scans_total : (mode : Incomplete) (xs : List ℕ) → Scanned mode xs
Scans_total mode xs = scans_below (length xs) mode xs (omega arith)

pub Scans-span :
    {mode : Incomplete} {xs : List ℕ} {events : List Event} {left : List ℕ}
    → Scans mode xs events left
    → (span events + length left ≡ length xs) × (left ≡ drop (span events) xs)
Scans-span finish = (refl, refl)
Scans-span (hold byte bytes d e t) = (omega arith, refl)
Scans-span {mode} (take byte bytes d r n events left e t s) =
    let (size, rest) = Scans-span s in
    let (_, fits) = taken_bounds mode (byte ∷ bytes) d r n e t in
    (
      omega (arith, length-drop n (byte ∷ bytes)),
      rest ∙ drop-drop (span events) n _ (byte ∷ bytes) refl,
    )
Scans-span (skip byte bytes d f events left e t s) =
    let (size, rest) = Scans-span s in
    let (_, fits) = stride_bounds byte bytes in
    (
      omega (arith, length-drop (stride (byte ∷ bytes)) (byte ∷ bytes)),
      rest ∙ drop-drop (span events) _ _ (byte ∷ bytes) refl,
    )

-- One turn further on in the buffer.
advance :
    (buffer : List ℕ) (cursor n : ℕ) (xs : List ℕ)
    → cursor ≤ length buffer
    → drop cursor buffer ≡ xs
    → n ≤ length xs
    → cursor + n ≤ length buffer
advance buffer cursor n xs k e h = omega (arith, length-drop cursor buffer, ap length e)

drop_on :
    (buffer : List ℕ) (cursor n : ℕ) (xs : List ℕ)
    → drop cursor buffer ≡ xs
    → drop (cursor + n) buffer ≡ drop n xs
drop_on buffer cursor n xs e = sym (drop-drop n cursor _ buffer refl) ∙ ap (drop n) e

-- The loop runs down the derivation: given more rounds than there are bytes left it never panics
-- and never runs out of rounds, and its accumulators take in the events.
pub scan_loop-Scans :
    {mode : Incomplete} (fuel : ℕ) {xs : List ℕ} {events : List Event} {left : List ℕ}
    → Scans mode xs events left
    → (buffer : List ℕ) (cursor : ℕ) (stats : Stats) (out : List Response) → length xs < fuel
    → cursor ≤ length buffer
    → drop cursor buffer ≡ xs
    → scan_loop fuel buffer mode cursor stats out
      ≡ done (cursor + span events, count_events events stats, out ++ delivered events)
unfolding scan_loop
scan_loop-Scans zero s buffer cursor stats out h k e = absurd (omega arith)
scan_loop-Scans (suc fuel) finish buffer cursor stats out h k e =
    rw (slice_from_lem buffer cursor k, e) (cc (append-nil out, add-zero cursor))
scan_loop-Scans (suc fuel) (hold byte bytes d e t) buffer cursor stats out h k q =
    rw (slice_from_lem buffer cursor k, q, e, ◌>>=◌, t) (cc (append-nil out, add-zero cursor))
scan_loop-Scans {mode} (suc fuel) (take byte bytes d r n events left e t s) buffer cursor stats out
      h k q =
    let (pos, fits) = taken_bounds mode (byte ∷ bytes) d r n e t in
    rw (slice_from_lem buffer cursor k, q, e, ◌>>=◌, t)
      (scan_loop-Scans fuel s buffer (cursor + n) _ (out ++ r ∷ [])
          (omega (arith, length-drop n (byte ∷ bytes)))
          (advance buffer cursor n (byte ∷ bytes) k q fits)
          (drop_on buffer cursor n (byte ∷ bytes) q)
        ∙ cc (add_assoc cursor n (span events), append_assoc out (r ∷ []) (delivered events)))
scan_loop-Scans (suc fuel) (skip byte bytes d f events left e t s) buffer cursor stats out h k q =
    let (pos, fits) = stride_bounds byte bytes in
    let n : ℕ = stride (byte ∷ bytes) in
    rw (slice_from_lem buffer cursor k, q, e, ◌>>=◌, t)
      (scan_loop-Scans fuel s buffer (cursor + n) _ out
          (omega (arith, length-drop n (byte ∷ bytes)))
          (advance buffer cursor n (byte ∷ bytes) k q fits)
          (drop_on buffer cursor n (byte ∷ bytes) q)
        ∙ cc (add_assoc cursor n (span events)))

-- `scan` never panics and always returns: it hands over the frames of the derivation, keeps what is
-- left of it, and adds its events to the counters.
pub scan-Scans :
    {mode : Incomplete} (r : Reassembler) {events : List Event} {left : List ℕ}
    → Scans mode r.buffer events left
    → scan mode r
      ≡ done (
        record { buffer = left; stats = add_stats r.stats (count_events events no_stats) },
        delivered events,
      )
unfolding scan
scan-Scans r {events} s =
    let (size, rest) = Scans-span s in
    rw
      (
        scan_loop-Scans (suc (length r.buffer)) s r.buffer 0 no_stats [] (omega arith) (omega arith)
            refl,
        ◌>>=◌,
        slice_from_lem r.buffer (0 + span events) (omega arith),
      )
      (rw (rest, no_offset))
  where
    no_offset : 0 + span events ≡ span events
    no_offset = omega arith
