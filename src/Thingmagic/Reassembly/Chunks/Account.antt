-- ===== src/Thingmagic/Reassembly/Chunks/Account.antt =====
-- What an account of a scan in crates/splitforge-thingmagic/src/reassembly.rs counts, and when two
-- accounts agree.
use splitforge.Prelude.{ℕ, suc, ◌+◌, List, [], ◌∷◌, ◌++◌, ◌≡◌, refl, ap, arith, length}
use splitforge.Thingmagic.Reassembly.{Stats, unsynchronized, corrupt, oversized, unfinished}
use splitforge.Thingmagic.Reassembly.Scan.{
  Event, got, dropped, count_event, count_events, delivered,
}

abbrev pub corrupt_count : List Event → ℕ
corrupt_count [] = 0
corrupt_count (got r n ∷ events) = corrupt_count events
corrupt_count (dropped corrupt n ∷ events) = suc (corrupt_count events)
corrupt_count (dropped f n ∷ events) = corrupt_count events

abbrev pub oversized_count : List Event → ℕ
oversized_count [] = 0
oversized_count (got r n ∷ events) = oversized_count events
oversized_count (dropped oversized n ∷ events) = suc (oversized_count events)
oversized_count (dropped f n ∷ events) = oversized_count events

abbrev pub dropped_bytes : List Event → ℕ
dropped_bytes [] = 0
dropped_bytes (got r n ∷ events) = dropped_bytes events
dropped_bytes (dropped f n ∷ events) = n + dropped_bytes events

-- Two accounts that differ at most in how often the start of a frame was missed.
pub record Agrees (one two : List Event) : Type 0 where
  pub responses : delivered one ≡ delivered two
  pub corruptions : corrupt_count one ≡ corrupt_count two
  pub oversizes : oversized_count one ≡ oversized_count two
  pub bytes : dropped_bytes one ≡ dropped_bytes two

pub Agrees-refl : (events : List Event) → Agrees events events
Agrees-refl events = record { responses = refl; corruptions = refl; oversizes = refl; bytes = refl }

pub Agrees-cons : (e : Event) {one two : List Event} → Agrees one two → Agrees (e ∷ one) (e ∷ two)
Agrees-cons (got r n) a = record {
  responses = ap (◌∷◌ r) a.responses;
  corruptions = a.corruptions;
  oversizes = a.oversizes;
  bytes = a.bytes;
}
Agrees-cons (dropped unsynchronized n) a = record {
  responses = a.responses;
  corruptions = a.corruptions;
  oversizes = a.oversizes;
  bytes = ap (◌+◌ n) a.bytes;
}
Agrees-cons (dropped corrupt n) a = record {
  responses = a.responses;
  corruptions = ap suc a.corruptions;
  oversizes = a.oversizes;
  bytes = ap (◌+◌ n) a.bytes;
}
Agrees-cons (dropped oversized n) a = record {
  responses = a.responses;
  corruptions = a.corruptions;
  oversizes = ap suc a.oversizes;
  bytes = ap (◌+◌ n) a.bytes;
}
Agrees-cons (dropped unfinished n) a = record {
  responses = a.responses;
  corruptions = a.corruptions;
  oversizes = a.oversizes;
  bytes = ap (◌+◌ n) a.bytes;
}

pub counts :
    (events : List Event) (s : Stats)
    → ((count_events events s).frames ≡ s.frames + length (delivered events))
      × ((count_events events s).bad_crc ≡ s.bad_crc + corrupt_count events)
      × ((count_events events s).data_too_long ≡ s.data_too_long + oversized_count events)
      × ((count_events events s).discarded_bytes ≡ s.discarded_bytes + dropped_bytes events)
counts [] s = omega arith
counts (got r n ∷ events) s = omega (arith, counts events (count_event (got r n) s))
counts (dropped unsynchronized n ∷ events) s =
    omega (arith, counts events (count_event (dropped unsynchronized n) s))
counts (dropped corrupt n ∷ events) s =
    omega (arith, counts events (count_event (dropped corrupt n) s))
counts (dropped oversized n ∷ events) s =
    omega (arith, counts events (count_event (dropped oversized n) s))
counts (dropped unfinished n ∷ events) s =
    omega (arith, counts events (count_event (dropped unfinished n) s))

pub delivered-append :
    (one two : List Event) → delivered (one ++ two) ≡ delivered one ++ delivered two
delivered-append [] two = refl
delivered-append (got r n ∷ one) two = ap (◌∷◌ r) (delivered-append one two)
delivered-append (dropped f n ∷ one) two = delivered-append one two

pub counts-append :
    (one two : List Event)
    → (corrupt_count (one ++ two) ≡ corrupt_count one + corrupt_count two)
      × (oversized_count (one ++ two) ≡ oversized_count one + oversized_count two)
      × (dropped_bytes (one ++ two) ≡ dropped_bytes one + dropped_bytes two)
counts-append [] two = omega arith
counts-append (got r n ∷ one) two = omega (arith, counts-append one two)
counts-append (dropped unsynchronized n ∷ one) two = omega (arith, counts-append one two)
counts-append (dropped corrupt n ∷ one) two = omega (arith, counts-append one two)
counts-append (dropped oversized n ∷ one) two = omega (arith, counts-append one two)
counts-append (dropped unfinished n ∷ one) two = omega (arith, counts-append one two)
