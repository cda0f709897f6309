-- ===== src/Domain/Time.antt =====
-- What the program uses of the `time` crate, which is not part of it. `OffsetDateTime`s are compared
-- as instants, whatever their offset, and a difference counts whole milliseconds towards zero.
use splitforge.Prelude.{ℕ, suc, ◌/◌, ◌≡◌, Bool, leb, if◌then◌else◌, ◌*◌}
use splitforge.Prelude.Int.{ℤ, pos, negsuc, ltb_ℤ, sub_ℕ, ◌-ℤ◌}

-- Nanoseconds to whole milliseconds, towards zero.
abbrev pub truncated_millis : ℤ → ℤ
truncated_millis (pos n) = pos (n / 1_000_000)
truncated_millis (negsuc n) = sub_ℕ 0 (suc n / 1_000_000)

pub record TimeApi : Type 1 where
  pub Instant : Type 0
  -- `unix_timestamp_nanos`
  pub nanos : Instant → ℤ
  -- `<`
  pub lt : Instant → Instant → Bool
  pub lt_nanos : (a b : Instant) → lt a b ≡ ltb_ℤ (nanos a) (nanos b)
  -- `(to - from).whole_milliseconds()`
  pub millis_between : Instant → Instant → ℤ
  pub millis_between_nanos :
      (from to : Instant) → millis_between from to ≡ truncated_millis (nanos to -ℤ nanos from)
  -- `to - from > Duration::milliseconds(ms)`
  pub longer_than : Instant → Instant → ℕ → Bool
  pub longer_than_nanos :
      (from to : Instant)
      → (ms : ℕ) → longer_than from to ms ≡ ltb_ℤ (pos (ms * 1_000_000)) (nanos to -ℤ nanos from)

abbrev pub i64_max : ℕ
i64_max = 9_223_372_036_854_775_807

-- `i64::try_from(n).unwrap_or(i64::MAX)`, of an `i128`
abbrev pub i64_or_max : ℤ → ℤ
i64_or_max (pos n) = if leb n i64_max then pos n else pos i64_max
i64_or_max (negsuc n) = if leb n i64_max then negsuc n else pos i64_max
