-- ===== src/Domain/Outcome.antt =====
-- crates/splitforge-domain/src/result.rs: the statuses, declarations and lines of a results sheet. An
-- `i64` is an integer, and a `u32` a number.
use splitforge.Prelude.{ℕ, Bool, true, false, List, Option}
use splitforge.Prelude.Int.{ℤ}
use splitforge.Domain.Policy.{TimingPolicy, default_policy}

-- In the order of the variants, which is the order of a comparison.
pub data ResultStatus : Type 0 where
  finished dns dnf dq : ResultStatus

unfoldable pub is_placed : ResultStatus → Bool
is_placed finished = true
is_placed dns = false
is_placed dnf = false
is_placed dq = false

-- The number of a variant, by which `Ord` and `Eq` are derived.
abbrev pub status_rank : ResultStatus → ℕ
status_rank finished = 0
status_rank dns = 1
status_rank dnf = 2
status_rank dq = 3

pub data StartMode : Type 0 where
  gun chip : StartMode

pub record StatusDeclaration (I : Type 0) : Type 0 where
  pub id : ℕ
  pub seq : ℕ
  pub race : ℕ
  pub participant : ℕ
  pub status : ResultStatus
  pub reason : List ℕ
  pub actor : List ℕ
  pub declared_at : I

pub record ScoringPolicy (I : Type 0) : Type 0 where
  pub start_mode : StartMode
  pub timing : TimingPolicy
  pub gun_time : Option I

-- `ScoringPolicy::gun`
abbrev pub gun_policy : {I : Type 0} → Option I → ScoringPolicy I
gun_policy gun_time = record { start_mode = gun; timing = default_policy; gun_time = gun_time }

pub data ResultFlag : Type 0 where
  no_start_read_under_chip_time no_gun_time finish_before_start : ResultFlag
  declared_finished_without_finish_read : ResultFlag
  start_read_before_gun finish_read_before_gun : ResultFlag
  manual_start manual_finish manual_start_over_chip manual_finish_over_chip : ResultFlag
  untrusted_device_clock clock_step_during_result : ResultFlag

pub data StatusSource : Type 0 where
  derived declared : StatusSource

pub record ResultEntry (I : Type 0) : Type 0 where
  pub participant : ℕ
  pub bib : List ℕ
  pub name : List ℕ
  pub status : ResultStatus
  pub status_source : StatusSource
  pub status_reason : Option (List ℕ)
  pub start_at : Option I
  pub finish_at : Option I
  pub gun_time_ms : Option ℤ
  pub chip_time_ms : Option ℤ
  pub scoring_time_ms : Option ℤ
  pub place : Option ℕ
  pub flags : List ResultFlag
  pub timing_events : List ℕ
