-- ===== src/Thingmagic/Reassembly/Delivery.antt =====
-- `feed` of crates/splitforge-thingmagic/src/reassembly.rs hands over what a module sent.
use splitforge.Prelude.{
  ℕ, ◌+◌, List, [], ◌∷◌, ◌++◌, some, ◌≡◌, ◌≢◌, refl, ap, sym, ◌∙◌, arith, length, drop, drop-append,
  done, All,
}
use splitforge.Thingmagic.Frame.{Response, soh, position_soh, resynchronize}
use splitforge.Thingmagic.Frame.Decode.{Reads, decode_of_Reads}
use splitforge.Thingmagic.Frame.RoundTrip.{
  IsResponse, encode_response, decode-encode_response, length-encode_response,
}
use splitforge.Thingmagic.Reassembly.{
  add_stats, no_stats, wait, Reassembler, new, unsynchronized, stride, feed,
}
use splitforge.Thingmagic.Reassembly.Scan.{
  Event, got, dropped, Scans, finish, take, skip, count_events, delivered, scan-Scans,
}
use splitforge.Thingmagic.Reassembly.Chunks.Account.{dropped_bytes, counts}

-- What stands on the line: runs of noise that hold no frame start, each with a response behind it.
abbrev pub Line : Type 0
Line = List (List ℕ × Response)

abbrev pub IsLine : Line → Type 0
IsLine = All (λ p. All (λ byte. byte ≢ soh) p.0 × IsResponse p.1)

abbrev pub line_bytes : Line → List ℕ
line_bytes [] = []
line_bytes ((noise, r) ∷ line) = noise ++ (encode_response r ++ line_bytes line)

abbrev pub responses : Line → List Response
responses [] = []
responses ((noise, r) ∷ line) = r ∷ responses line

abbrev pub noise_bytes : Line → ℕ
noise_bytes [] = 0
noise_bytes ((noise, r) ∷ line) = length noise + noise_bytes line

position_soh_noise :
    (noise rest : List ℕ)
    → All (λ byte. byte ≢ soh) noise
    → position_soh (noise ++ soh ∷ rest) ≡ some (length noise)
unfolding position_soh
position_soh_noise [] rest h = refl
position_soh_noise (b ∷ noise) rest (ne, h) = ground (arith, position_soh_noise noise rest h)

stride_noise :
    (byte : ℕ) (noise rest : List ℕ)
    → All (λ b. b ≢ soh) noise
    → stride (byte ∷ (noise ++ soh ∷ rest)) ≡ length (byte ∷ noise)
unfolding stride resynchronize
stride_noise byte noise rest h = ground (arith, position_soh_noise noise rest h)

abbrev Arrives : List ℕ → List Response → ℕ → Type 0
Arrives xs rs noise =
    (events : List Event) × Scans wait xs events []
    × (delivered events ≡ rs)
    × (dropped_bytes events ≡ noise)

frame-Arrives :
    (r : Response) (rest : List ℕ) (rs : List Response) (noise : ℕ)
    → IsResponse r
    → Arrives rest rs noise
    → Arrives (encode_response r ++ rest) (r ∷ rs) noise
frame-Arrives r rest rs noise h (events, s, d, n) =
    let size : ℕ = 5 + length r.payload + 2 in
    let gone : drop size (encode_response r ++ rest) ≡ rest =
      ap (λ (k : ℕ). drop k (encode_response r ++ rest)) (sym (length-encode_response r))
      ∙ drop-append (encode_response r) rest in
    (
      got r size ∷ events,
      take _ _ _ r size events [] (decode-encode_response r rest h) refl (rw gone s),
      ap (◌∷◌ r) d,
      n,
    )

noise-Arrives :
    (noise rest : List ℕ) (rs : List Response) (n : ℕ)
    → All (λ b. b ≢ soh) noise
    → Arrives (soh ∷ rest) rs n
    → Arrives (noise ++ soh ∷ rest) rs (length noise + n)
noise-Arrives [] rest rs n h (events, s, d, k) = (events, s, d, omega arith)
noise-Arrives (b ∷ noise) rest rs n (ne, h) (events, s, d, k) =
    let step = stride_noise b noise rest h in
    (
      dropped unsynchronized _ ∷ events,
      skip b (noise ++ soh ∷ rest) _ unsynchronized events [] (decode_of_Reads (Reads.lost b _ ne))
          refl (rw (step, drop-append (b ∷ noise) (soh ∷ rest)) s),
      d,
      omega arith,
    )

line-Arrives :
    (line : Line) → IsLine line → Arrives (line_bytes line) (responses line) (noise_bytes line)
line-Arrives [] h = ([], finish, refl, refl)
line-Arrives ((noise, r) ∷ line) ((quiet, fits), h) =
    noise-Arrives noise _ (r ∷ responses line) (noise_bytes line) quiet (
      frame-Arrives r (line_bytes line) (responses line) (noise_bytes line) fits
        (line-Arrives line h))

-- A line that carries responses with noise between them, none of it a frame start, is taken apart
-- exactly: every response is handed over, once and in order, nothing is held back, and the bytes
-- discarded are those of the noise.
pub feed-line_bytes :
    (line : Line)
    → IsLine line
    → (after : Reassembler) × (feed (line_bytes line) new ≡ done (after, responses line))
      × (after.buffer ≡ [])
      × (after.stats.frames ≡ length (responses line))
      × (after.stats.discarded_bytes ≡ noise_bytes line)
unfolding feed
feed-line_bytes line h =
    let (events, s, d, n) = line-Arrives line h in
    let fed : Reassembler = record new { buffer = [] ++ line_bytes line } in
    let after : Reassembler = record {
      buffer = [];
      stats = add_stats no_stats (count_events events no_stats);
    } in
    (
      after,
      scan-Scans fed s ∙ ap (λ (rs : List Response). done (after, rs)) d,
      refl,
      omega (arith, counts events no_stats, ap length d),
      omega (arith, counts events no_stats, n),
    )
