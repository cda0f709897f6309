-- ===== src/Thingmagic/Reassembly/Chunks/Resume.antt =====
-- Noise that is cut in two: the scan of crates/splitforge-thingmagic/src/reassembly.rs resumes at the
-- first byte that may start a frame.
use splitforge.Prelude.{
  drop-drop, ℕ, suc, ◌+◌, List, [], ◌∷◌, ◌++◌, none, some, ◌≡◌, ◌≢◌, refl, ap, sym, ◌∙◌, arith,
  length, drop, drop-append, done, Option-cases, inl, inr,
}
use native.Mathlib.Decide.{ℕ_discrete}
use splitforge.Prelude.{Result, ok, err}
use splitforge.Thingmagic.Frame.{
  Decoded, FrameError, frame, incomplete, decode, resynchronize, position_soh, soh,
}
use splitforge.Thingmagic.Frame.Decode.{Reads, decode_of_Reads}
use splitforge.Thingmagic.Frame.Settled.{IsSettled}
use splitforge.Thingmagic.Reassembly.{
  Turn, wait, Fault, unsynchronized, corrupt, oversized, unfinished, taken, held, lost, turn,
  stride,
}
use splitforge.Thingmagic.Reassembly.Scan.{
  Event, dropped, Scans, finish, hold, take, skip, delivered,
}
use splitforge.Thingmagic.Reassembly.Chunks.Account.{
  corrupt_count, oversized_count, dropped_bytes, Agrees,
}

-- The bytes in front of the first frame start.
pub lead : List ℕ → ℕ
lead xs = elim (position_soh xs) [ none ↦ length xs | some k ↦ k ]

pub position_soh-append_some :
    (xs ys : List ℕ) (k : ℕ) → position_soh xs ≡ some k → position_soh (xs ++ ys) ≡ some k
unfolding position_soh
position_soh-append_some [] ys k e = cc
position_soh-append_some (x ∷ xs) ys k e = elim (Option-cases (position_soh xs)) [
  | inl nothing ↦ ground arith
  | inr (j, found) ↦ ground (arith, position_soh-append_some xs ys j found)
]

pub lead-append_none :
    (xs ys : List ℕ) → position_soh xs ≡ none → lead (xs ++ ys) ≡ length xs + lead ys
unfolding position_soh lead
lead-append_none [] ys e = omega arith
lead-append_none (x ∷ xs) ys e = ground (arith, lead-append_none xs ys)

pub stride-lead : (byte : ℕ) (bytes : List ℕ) → stride (byte ∷ bytes) ≡ suc (lead bytes)
unfolding stride resynchronize lead
stride-lead byte bytes = ground arith

-- Two accounts of one stream, the second from the first frame start on, `n` bytes in.
pub record Resumes (n : ℕ) (one two : List Event) : Type 0 where
  pub responses : delivered one ≡ delivered two
  pub corruptions : corrupt_count one ≡ corrupt_count two
  pub oversizes : oversized_count one ≡ oversized_count two
  pub bytes : dropped_bytes one ≡ n + dropped_bytes two

pub done-injective : {A : Type 0} {a b : A} → done a ≡ done b → a ≡ b
done-injective e = cc

pub turn_of_noise :
    (byte : ℕ) (bytes : List ℕ) (d : Result Decoded FrameError) (t : Turn)
    → byte ≢ soh
    → decode (byte ∷ bytes) ≡ done d
    → turn wait d ≡ t
    → t ≡ lost unsynchronized
turn_of_noise byte bytes d t ne e q =
    sym q ∙ ap (turn wait) (done-injective (sym e ∙ decode_of_Reads (Reads.lost byte bytes ne)))

pub lead_synchronized : (byte : ℕ) (bytes : List ℕ) → byte ≡ soh → lead (byte ∷ bytes) ≡ 0
unfolding lead position_soh
lead_synchronized byte bytes e = ground arith

pub lead_noise :
    (byte : ℕ) (bytes : List ℕ) → byte ≢ soh → lead (byte ∷ bytes) ≡ stride (byte ∷ bytes)
lead_noise byte bytes ne = unfold lead position_soh in ground (arith, stride-lead byte bytes)

abbrev pub Resumed : List ℕ → List Event → List ℕ → Type 0
Resumed xs events left =
    (events' : List Event) × Scans wait (drop (lead xs) xs) events' left
    × Resumes (lead xs) events events'

pub resume_here :
    (xs : List ℕ) (events : List Event) (left : List ℕ)
    → Scans wait xs events left
    → lead xs ≡ 0
    → Resumed xs events left
resume_here xs events left s e = (
  events,
  rw e s,
  record { responses = refl; corruptions = refl; oversizes = refl; bytes = omega arith },
)

pub resume :
    {xs : List ℕ} {events : List Event} {left : List ℕ}
    → Scans wait xs events left
    → Resumed xs events left
resume finish = resume_here [] [] [] finish (unfold lead position_soh in refl)
resume (hold byte bytes d e t) = elim (ℕ_discrete byte soh) [
  | yes q ↦ resume_here _ _ _ (hold byte bytes d e t) (lead_synchronized byte bytes q)
  | no ne ↦ absurd (cc (turn_of_noise byte bytes d held ne e t))
]
resume (take byte bytes d r n events left e t s) = elim (ℕ_discrete byte soh) [
  | yes q ↦
      resume_here _ _ _ (take byte bytes d r n events left e t s) (lead_synchronized byte bytes q)
  | no ne ↦ absurd (cc (turn_of_noise byte bytes d (taken r n) ne e t))
]
resume (skip byte bytes d f events left e t s) = elim (ℕ_discrete byte soh) [
  | yes q ↦
      resume_here _ _ _ (skip byte bytes d f events left e t s) (lead_synchronized byte bytes q)
  | no ne ↦
      rw (lead_noise byte bytes ne)
        (events, s, resumes f (turn_of_noise byte bytes d (lost f) ne e t))
]
  where
    resumes :
        (g : Fault)
        → lost g ≡ lost unsynchronized
        → Resumes (stride (byte ∷ bytes)) (dropped g (stride (byte ∷ bytes)) ∷ events) events
    resumes unsynchronized q = record {
      responses = refl;
      corruptions = refl;
      oversizes = refl;
      bytes = refl;
    }
    resumes corrupt q = cc
    resumes oversized q = cc
    resumes unfinished q = cc

pub turn-IsSettled : (d : Result Decoded FrameError) → turn wait d ≢ held → IsSettled d
turn-IsSettled (ok (frame r n)) h = tt
turn-IsSettled (ok (incomplete n)) h = absurd (h refl)
turn-IsSettled (err e) h = tt

pub scans_nil :
    {events : List Event} {left : List ℕ} → Scans wait [] events left → (events ≡ []) × (left ≡ [])
scans_nil finish = (refl, refl)

-- A fault that ends inside the front, and one that goes on into what follows it.
pub stride-append_some :
    (byte : ℕ) (bytes ys : List ℕ) (k : ℕ)
    → position_soh bytes ≡ some k
    → stride (byte ∷ (bytes ++ ys)) ≡ stride (byte ∷ bytes)
unfolding lead
stride-append_some byte bytes ys k e = ground (
  arith,
  stride-lead byte bytes,
  stride-lead byte (bytes ++ ys),
  position_soh-append_some bytes ys k e,
)

pub stride-append_none :
    (byte : ℕ) (bytes ys : List ℕ)
    → position_soh bytes ≡ none
    → stride (byte ∷ (bytes ++ ys)) ≡ length (byte ∷ bytes) + lead ys
stride-append_none byte bytes ys e =
    omega (arith, stride-lead byte (bytes ++ ys), lead-append_none bytes ys e)

pub stride_whole :
    (byte : ℕ) (bytes : List ℕ)
    → position_soh bytes ≡ none
    → stride (byte ∷ bytes) ≡ length (byte ∷ bytes)
unfolding lead
stride_whole byte bytes e = ground (arith, stride-lead byte bytes)

pub drop_past : (xs ys : List ℕ) (n k : ℕ) → n ≡ length xs + k → drop n (xs ++ ys) ≡ drop k ys
drop_past xs ys n k e =
    sym (drop-drop k (length xs) n (xs ++ ys) e) ∙ ap (drop k) (drop-append xs ys)

pub Agrees-resumed :
    (f : Fault) {one two : List Event} (m n k : ℕ)
    → n ≡ m + k
    → Resumes k one two
    → Agrees (dropped f m ∷ one) (dropped f n ∷ two)
Agrees-resumed unsynchronized m n k e r = record {
  responses = r.responses;
  corruptions = r.corruptions;
  oversizes = r.oversizes;
  bytes = omega (arith, r.bytes);
}
Agrees-resumed corrupt m n k e r = record {
  responses = r.responses;
  corruptions = ap suc r.corruptions;
  oversizes = r.oversizes;
  bytes = omega (arith, r.bytes);
}
Agrees-resumed oversized m n k e r = record {
  responses = r.responses;
  corruptions = r.corruptions;
  oversizes = ap suc r.oversizes;
  bytes = omega (arith, r.bytes);
}
Agrees-resumed unfinished m n k e r = record {
  responses = r.responses;
  corruptions = r.corruptions;
  oversizes = r.oversizes;
  bytes = omega (arith, r.bytes);
}
