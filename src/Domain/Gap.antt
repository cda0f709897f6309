-- ===== src/Domain/Gap.antt =====
-- crates/splitforge-domain/src/gap.rs: stretches in which a reader was not producing. The tokens of a
-- gap are texts of code points.
pub mod Tokens
pub mod Watch
pub mod Samples
use splitforge.Prelude.{
  ℕ, zero, suc, Bool, true, false, not, ◌&&◌, ◌||◌, List, Option, none, some, leb, ◌==◌,
  if◌then◌else◌, ◌^◌, ltb,
}
use splitforge.Prelude.Int.{ℤ, pos, negsuc}
use splitforge.Prelude.Text.{codes, ◌=ₜ◌}
use splitforge.Domain.Time.{TimeApi}

abbrev pub default_silence_threshold_ms : ℕ
default_silence_threshold_ms = 120_000

abbrev pub default_heartbeat_threshold_ms : ℕ
default_heartbeat_threshold_ms = 0

pub data GapDetection : Type 0 where
  confirmed suspected : GapDetection

unfoldable pub detection_token : GapDetection → List ℕ
detection_token confirmed = codes "confirmed"
detection_token suspected = codes "suspected"

unfoldable pub parse_detection : List ℕ → Option GapDetection
parse_detection token =
    if token =ₜ codes "confirmed"
    then some confirmed
    else if token =ₜ codes "suspected"
    then some suspected
    else none

abbrev pub is_confirmed : GapDetection → Bool
is_confirmed confirmed = true
is_confirmed suspected = false

pub data GapEdge : Type 0 where
  opened_edge closed_edge : GapEdge

unfoldable pub edge_token : GapEdge → List ℕ
edge_token opened_edge = codes "opened"
edge_token closed_edge = codes "closed"

unfoldable pub parse_edge : List ℕ → Option GapEdge
parse_edge token =
    if token =ₜ codes "opened"
    then some opened_edge
    else if token =ₜ codes "closed"
    then some closed_edge
    else none

pub data SilenceVerdict : Type 0 where
  idle_silence open_silence close_silence : SilenceVerdict

unfoldable pub assess_silence : ℕ → Bool → ℕ → SilenceVerdict
assess_silence threshold_ms race_running silent_for_ms =
    if threshold_ms == 0 || not race_running
    then idle_silence
    else if leb threshold_ms silent_for_ms
    then open_silence
    else close_silence

pub data HeartbeatVerdict : Type 0 where
  idle_heartbeat open_heartbeat close_heartbeat : HeartbeatVerdict

unfoldable pub assess_heartbeat : ℕ → Bool → ℕ → Bool → HeartbeatVerdict
assess_heartbeat threshold_ms heard quiet_for_ms gap_open =
    if threshold_ms == 0 || not heard
    then if gap_open then close_heartbeat else idle_heartbeat
    else if leb threshold_ms quiet_for_ms
    then open_heartbeat
    else if gap_open
    then close_heartbeat
    else idle_heartbeat

pub record ReaderGap (I : Type 0) : Type 0 where
  pub opened_seq : ℕ
  pub closed_seq : Option ℕ
  pub reader_id : List ℕ
  pub detection : GapDetection
  pub started_at : I
  pub ended_at : Option I
  pub started_monotonic_ms : ℕ
  pub ended_monotonic_ms : Option ℕ
  pub detail : Option (List ℕ)

abbrev pub is_open : {I : Type 0} → ReaderGap I → Bool
is_open g = elim g.closed_seq [ none ↦ true | some seq ↦ false ]

-- `u64::try_from(n).unwrap_or(0)`
abbrev pub u64_or_zero : ℤ → ℕ
u64_or_zero (pos n) = if ltb n (2 ^ 64) then n else 0
u64_or_zero (negsuc n) = 0

module _ (T : TimeApi) where
  unfoldable pub duration_ms : ReaderGap T.Instant → Option ℕ
  duration_ms g = elim g.ended_at [
    | none ↦ none
    | some ended ↦ some (u64_or_zero (T.millis_between g.started_at ended))
  ]
