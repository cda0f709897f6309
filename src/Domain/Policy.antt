-- ===== src/Domain/Policy.antt =====
-- crates/splitforge-domain/src/policy.rs: the rules that turn reads into crossings.
use splitforge.Prelude.{ℕ, List, [], Option, none, some, ltb}
use splitforge.Prelude.Int.{ℤ}
use splitforge.Prelude.Map.{get, update}

pub data TimestampTrust : Type 0 where
  trusted untrusted auto : TimestampTrust

pub data SelectionRule : Type 0 where
  first : SelectionRule
  first_above_rssi : ℤ → SelectionRule
  peak_rssi : SelectionRule

pub record CheckpointPolicy : Type 0 where
  pub min_interval_ms : Option ℕ
  pub selection_rule : Option SelectionRule

pub record TimingPolicy : Type 0 where
  pub min_interval_ms : ℕ
  pub selection_rule : SelectionRule
  pub min_lap_ms : Option ℕ
  pub per_checkpoint : List (ℕ × CheckpointPolicy)

abbrev pub default_min_interval_ms : ℕ
default_min_interval_ms = 3_000

-- `TimingPolicy::default()`
abbrev pub default_policy : TimingPolicy
default_policy = record {
  min_interval_ms = default_min_interval_ms;
  selection_rule = first;
  min_lap_ms = none;
  per_checkpoint = [];
}

-- `.and_then(field).unwrap_or(fallback)` on a checkpoint's overrides.
abbrev override : {A : Type 0} → Option CheckpointPolicy → (CheckpointPolicy → Option A) → A → A
override none field fallback = fallback
override (some policy) field fallback = elim (field policy) [ none ↦ fallback | some a ↦ a ]

unfoldable pub min_interval_ms_for : TimingPolicy → ℕ → ℕ
min_interval_ms_for p checkpoint =
    override (get ltb checkpoint p.per_checkpoint) (λ o. o.min_interval_ms) p.min_interval_ms

unfoldable pub selection_rule_for : TimingPolicy → ℕ → SelectionRule
selection_rule_for p checkpoint =
    override (get ltb checkpoint p.per_checkpoint) (λ o. o.selection_rule) p.selection_rule

unfoldable pub with_checkpoint : TimingPolicy → ℕ → CheckpointPolicy → TimingPolicy
with_checkpoint p checkpoint policy = record p {
  per_checkpoint = update ltb checkpoint (λ _. policy) p.per_checkpoint;
}
