-- ===== src/Thingmagic/Reassembly/Chunks.antt =====
-- How a stream is cut into reads makes no difference to what `feed` of
-- crates/splitforge-thingmagic/src/reassembly.rs hands over.
pub mod Account
mod Resume
use splitforge.Prelude.{
  drop-drop, ℕ, zero, suc, ◌+◌, ◌≤◌, ◌<◌, List, [], ◌∷◌, ◌++◌, Option, none, some, append_assoc,
  ◌≡◌, ◌≢◌, refl, ap, sym, subst, ◌∙◌, arith, length, length-append, drop, drop-append, drop_all,
  drop-append_short, done, Option-cases, inl, inr,
}
use native.Mathlib.Decide.{ℕ_discrete}
use splitforge.Prelude.{Result, ok, err}
use splitforge.Thingmagic.Frame.{
  Response, Decoded, FrameError, frame, incomplete, decode, resynchronize, position_soh, soh,
}
use splitforge.Thingmagic.Frame.Decode.{Reads, decode_of_Reads}
use splitforge.Thingmagic.Frame.Settled.{IsSettled, decode-append}
use splitforge.Thingmagic.Reassembly.{
  scan, Turn, Stats, no_stats, add_stats, Incomplete, wait, Reassembler, Fault, unsynchronized,
  corrupt, oversized, unfinished, taken, held, lost, turn, stride, feed,
}
use splitforge.Thingmagic.Reassembly.Scan.{
  Event, got, dropped, Scans, finish, hold, take, skip, count_event, count_events, delivered,
  Scans_total, stride_bounds, taken_bounds, scan-Scans,
}
use splitforge.Thingmagic.Reassembly.Chunks.Account.{
  corrupt_count, oversized_count, dropped_bytes, Agrees, Agrees-refl, Agrees-cons, counts,
  delivered-append, counts-append,
}
use splitforge.Thingmagic.Reassembly.Chunks.Resume.{
  lead, position_soh-append_some, lead-append_none, stride-lead, Resumes, done-injective,
  turn_of_noise, lead_synchronized, lead_noise, Resumed, resume_here, resume, turn-IsSettled,
  scans_nil, stride-append_some, stride-append_none, stride_whole, drop_past, Agrees-resumed,
}

abbrev Joined : List ℕ → List Event → List ℕ → Type 0
Joined xs events left = (events' : List Event) × Scans wait xs events' left × Agrees events events'

-- Scanning a front, and then what it left behind together with the rest, agrees with scanning the
-- whole.
join :
    {xs : List ℕ} {one : List Event} {mid : List ℕ}
    → Scans wait xs one mid
    → (ys : List ℕ) {two : List Event} {left : List ℕ} → Scans wait (mid ++ ys) two left
    → Joined (xs ++ ys) (one ++ two) left
join finish ys {two} s = (two, s, Agrees-refl two)
join (hold byte bytes d e t) ys {two} s = (two, s, Agrees-refl two)
join (take byte bytes d r n events mid e t front) ys s =
    let (_, fits) = taken_bounds wait (byte ∷ bytes) d r n e t in
    let (events', s', a) = join front ys s in
    (
      got r n ∷ events',
      take byte (bytes ++ ys) d r n events' _
          (decode-append (byte ∷ bytes) ys d e (turn-IsSettled d (λ q. cc))) t
          (rw (drop-append_short n (byte ∷ bytes) ys fits) s'),
      Agrees-cons (got r n) a,
    )
join (skip byte bytes d f events mid e t front) ys {two} {left} s =
    let whole : decode (byte ∷ (bytes ++ ys)) ≡ done d =
      decode-append (byte ∷ bytes) ys d e (turn-IsSettled d (λ q. cc)) in
    elim (Option-cases (position_soh bytes)) [
      | inr (k, found) ↦
          let same = stride-append_some byte bytes ys k found in
          let (events', s', a) = join front ys s in
          (
            dropped f _ ∷ events',
            skip byte (bytes ++ ys) d f events' _ whole t (
                rw
                  (
                    same,
                    drop-append_short (stride (byte ∷ bytes)) (byte ∷ bytes) ys
                        (stride_bounds byte bytes).1,
                  )
                  s'),
            rw same (Agrees-cons (dropped f (stride (byte ∷ bytes))) a),
          )
      | inl nothing ↦
          let all = stride_whole byte bytes nothing in
          let longer = stride-append_none byte bytes ys nothing in
          let emptied : drop (stride (byte ∷ bytes)) (byte ∷ bytes) ≡ [] =
            drop_all _ (byte ∷ bytes) (omega arith) in
          let (p, q) =
            scans_nil (subst (λ (xs : List ℕ). Scans wait xs events mid) emptied front) in
          let (two', s', r) =
            resume (subst (λ (xs : List ℕ). Scans wait (xs ++ ys) two left) q s) in
          (
            dropped f _ ∷ two',
            skip byte (bytes ++ ys) d f two' _ whole t
                (rw (drop_past (byte ∷ bytes) ys _ (lead ys) longer) s'),
            rw p (Agrees-resumed f _ _ (lead ys) (omega arith) r),
          )
    ]

-- Two reassemblers that hold the same bytes and have counted the same, but for `not_synchronized`.
pub record SameStream (one two : Reassembler) : Type 0 where
  pub buffers : one.buffer ≡ two.buffer
  pub frames : one.stats.frames ≡ two.stats.frames
  pub bad_crc : one.stats.bad_crc ≡ two.stats.bad_crc
  pub data_too_long : one.stats.data_too_long ≡ two.stats.data_too_long
  pub discarded_bytes : one.stats.discarded_bytes ≡ two.stats.discarded_bytes

-- What a scan of `events` that leaves `left` makes of a reassembler.
abbrev leaves : Reassembler → List Event → List ℕ → Reassembler
leaves r events left = record {
  buffer = left;
  stats = add_stats r.stats (count_events events no_stats);
}

SameStream-of_Agrees :
    (r : Reassembler) (one two three : List Event) (mid left : List ℕ)
    → Agrees (one ++ two) three
    → SameStream (leaves (leaves r one mid) two left) (leaves r three left)
SameStream-of_Agrees r one two three mid left agree = record {
  buffers = refl;
  frames = omega (
    arith,
    counts one no_stats,
    counts two no_stats,
    counts three no_stats,
    ap length (sym agree.responses ∙ delivered-append one two),
    length-append (delivered one) (delivered two),
  );
  bad_crc = omega (
    arith,
    counts one no_stats,
    counts two no_stats,
    counts three no_stats,
    agree.corruptions,
    counts-append one two,
  );
  data_too_long = omega (
    arith,
    counts one no_stats,
    counts two no_stats,
    counts three no_stats,
    agree.oversizes,
    counts-append one two,
  );
  discarded_bytes = omega (
    arith,
    counts one no_stats,
    counts two no_stats,
    counts three no_stats,
    agree.bytes,
    counts-append one two,
  );
}

-- Feeding a stream in two reads hands over the same frames, in the same order, as feeding it in one,
-- and leaves the same bytes held and the same counts of frames, of bad checksums, of illegal lengths
-- and of discarded bytes.
pub feed-append :
    (a b : List ℕ) (r : Reassembler)
    → (mid after whole : Reassembler) × (out₁ out₂ : List Response) × (feed a r ≡ done (mid, out₁))
      × (feed b mid ≡ done (after, out₂))
      × (feed (a ++ b) r ≡ done (whole, out₁ ++ out₂))
      × SameStream after whole
unfolding feed
feed-append a b r =
    let fed : Reassembler = record r { buffer = r.buffer ++ a } in
    let (one, mid, s₁) = Scans_total wait fed.buffer in
    let held_back : Reassembler = leaves r one mid in
    let (two, left, s₂) = Scans_total wait (mid ++ b) in
    let (three, s₃, agree) = join s₁ b s₂ in
    let joined : Reassembler = record r { buffer = r.buffer ++ (a ++ b) } in
    let s₄ : Scans wait joined.buffer three left =
      subst (λ (xs : List ℕ). Scans wait xs three left) (append_assoc r.buffer a b) s₃ in
    let out : delivered three ≡ delivered one ++ delivered two =
      sym agree.responses ∙ delivered-append one two in
    (
      held_back,
      leaves held_back two left,
      leaves r three left,
      delivered one,
      delivered two,
      scan-Scans fed s₁,
      scan-Scans (record held_back { buffer = mid ++ b }) s₂,
      subst (λ (rs : List Response). scan wait joined ≡ done (leaves r three left, rs)) out
          (scan-Scans joined s₄),
      SameStream-of_Agrees r one two three mid left agree,
    )
