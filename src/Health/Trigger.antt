-- ===== src/Health/Trigger.antt =====
-- internal/health/trigger.go: the triggers and the status that aggregates their results. The map
-- `Results` is the list of its entries; Go leaves the order of a map open, so nothing may rest on
-- the order.
pub mod Agreement
use chainplane.Prelude.{String, Bool, true, false, List, [], ◌∷◌, if◌then◌else◌}
use chainplane.Health.Chain.{BlockchainType}

pub data TriggerName : Type 0 where
  sync_lag error_rate latency crash_loop disk_usage : TriggerName

abbrev pub all_triggers : List TriggerName
all_triggers = sync_lag ∷ error_rate ∷ latency ∷ crash_loop ∷ disk_usage ∷ []

pub record TriggerResult : Type 0 where
  pub fired : Bool
  pub value : String
  pub threshold : String

pub record HealthStatus : Type 0 where
  pub pod_name : String
  pub blockchain : BlockchainType
  pub results : List (TriggerName × TriggerResult)

abbrev pub none_fired : List (TriggerName × TriggerResult) → Bool
none_fired [] = true
none_fired ((_, r) ∷ rs) = if r.fired then false else none_fired rs

-- HealthStatus.Healthy
unfoldable pub is_healthy : HealthStatus → Bool
is_healthy s = none_fired s.results

abbrev fired_names : List (TriggerName × TriggerResult) → List TriggerName
fired_names [] = []
fired_names ((n, r) ∷ rs) = let rest = fired_names rs in if r.fired then n ∷ rest else rest

-- HealthStatus.TriggeredNames
unfoldable pub triggered_names : HealthStatus → List TriggerName
triggered_names s = fired_names s.results

-- noDataResult
unfoldable pub no_data_result : String → TriggerResult
no_data_result threshold = record { fired = false; value = "0"; threshold = threshold }
