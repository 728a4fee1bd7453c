-- ===== src/Health/Evaluator.antt =====
-- internal/health/evaluator.go: the evaluation of the triggers. The metric backend is the interface
-- MetricQuerier, asked at a time; an answer is a value, an error, or a panic, which safeEval
-- recovers from. Logging is left out.
pub mod Firing
use Prim.Native.String.{◌++◌}
use chainplane.Prelude.{
  str_eq, ℕ, ◌+◌, ◌-◌, ◌*◌, String, Bool, true, false, Option, none, some, List, [], ◌∷◌,
  if◌then◌else◌, map,
}
use chainplane.Float.{Float}
use chainplane.Time.{second, minute}
use chainplane.Health.Chain.{BlockchainType, ethereum, solana}
use chainplane.Health.Trigger.{
  TriggerName, sync_lag, error_rate, latency, crash_loop, disk_usage, all_triggers, TriggerResult,
  HealthStatus, no_data_result,
}
use chainplane.Health.Thresholds.{
  Thresholds, apply_defaults, sync_lag_threshold, latency_threshold, format_metric,
}

pub data Reply (A : Type 0) : Type 0 where
  value : A → Reply A
  no_metric_data : Reply A
  query_failed : Reply A
  panics : Reply A

-- MatrixSeries: the second text of each point, if it is a text
pub record MatrixSeries : Type 0 where
  pub values : List (Option String)

-- MetricQuerier. Sustained returns a Boolean beside its error, and the caller goes by it.
pub record MetricQuerier (F : Type 0) : Type 0 where
  pub healthy : ℕ → Bool
  pub instant_value : ℕ → String → Reply F
  pub sustained : ℕ → String → F → ℕ → Reply Bool
  pub range_values : ℕ → String → ℕ → ℕ → String → Reply (List MatrixSeries)

pub record Checker (F : Type 0) : Type 0 where
  pub m : MetricQuerier F
  pub t : Thresholds F

-- syncLagQuery of chainConfigs, for a pod, if there is an entry for the chain
unfoldable pub sync_lag_query : BlockchainType → String → Option String
sync_lag_query chain pod =
    if str_eq chain ethereum
    then some ("eth_sync_lag{node=\"" ++ pod ++ "\"}")
    else if str_eq chain solana
    then some ("sol_slot_lag{node=\"" ++ pod ++ "\"}")
    else none

-- A trigger evaluation: the result, unless it panics.
abbrev pub Evaluation : Type 0
Evaluation = Option TriggerResult

-- An evaluation of a value that was asked for, which an error or a missing value replaces.
abbrev pub with_value : {F : Type 0} → Reply F → String → (F → Evaluation) → Evaluation
with_value (value v) threshold use_value = use_value v
with_value no_metric_data threshold use_value = some (no_data_result threshold)
with_value query_failed threshold use_value = some (no_data_result threshold)
with_value panics threshold use_value = none

-- `fired, sustainErr := c.m.Sustained(…)`: an error leaves the Boolean false.
abbrev pub with_sustained : Reply Bool → (Bool → Evaluation) → Evaluation
with_sustained (value fired) finish = finish fired
with_sustained no_metric_data finish = finish false
with_sustained query_failed finish = finish false
with_sustained panics finish = none

-- safeEval
abbrev pub safe_eval : Evaluation → TriggerResult
safe_eval none = no_data_result "n/a"
safe_eval (some r) = r

-- NewChecker
unfoldable pub new_checker : {F : Type 0} → Float F → MetricQuerier F → Thresholds F → Checker F
new_checker float m t = record { m = m; t = apply_defaults float t }

-- `itoa` is the verb %d.
module _ {F : Type 0} (float : Float F) (itoa : ℕ → String) (c : Checker F) where
  -- The part of evalSyncLag that follows the lookup of the chain.
  unfoldable pub ask_sync_lag : ℕ → F → Option String → Evaluation
  ask_sync_lag now threshold none = some (no_data_result "n/a")
  ask_sync_lag now threshold (some query) =
      with_value (c.m.instant_value now query) (format_metric float threshold) λ lag.
        with_sustained (c.m.sustained now query threshold c.t.sync_lag_duration) λ fired.
          some (record {
            fired = fired;
            value = format_metric float lag;
            threshold = format_metric float threshold;
          })

  -- evalSyncLag
  unfoldable pub eval_sync_lag : ℕ → String → BlockchainType → Evaluation
  eval_sync_lag now pod chain =
      ask_sync_lag now (sync_lag_threshold float c.t chain) (sync_lag_query chain pod)

  unfoldable pub error_rate_query : String → String
  error_rate_query pod =
      let window = itoa c.t.error_rate_window in
      "sum(rate(eth_rpc_errors_total{pod=~\"" ++ pod ++ "\"}[" ++ window ++ "m])) / "
      ++ "sum(rate(eth_rpc_requests_total{pod=~\"" ++ pod ++ "\"}[" ++ window ++ "m]))"

  -- evalErrorRate
  unfoldable pub eval_error_rate : ℕ → String → BlockchainType → Evaluation
  eval_error_rate now pod chain =
      with_value (c.m.instant_value now (error_rate_query pod)) (format_metric float c.t.error_rate)
        λ rate. some (record {
          fired = float.greater rate c.t.error_rate;
          value = format_metric float rate;
          threshold = format_metric float c.t.error_rate;
        })

  unfoldable pub latency_query : String → String
  latency_query pod =
      "histogram_quantile(0.99, sum(rate(rpc_request_duration_seconds_bucket{pod=~\"" ++ pod
      ++ "\"}[5m])) by (le))"

  -- evalLatency
  unfoldable pub eval_latency : ℕ → String → BlockchainType → Evaluation
  eval_latency now pod chain =
      let threshold = latency_threshold float c.t chain in
      with_value (c.m.instant_value now (latency_query pod)) (format_metric float threshold)
        λ seconds.
          with_sustained (c.m.sustained now (latency_query pod) threshold c.t.latency_duration)
            λ fired. some (record {
              fired = fired;
              value = format_metric float seconds;
              threshold = format_metric float threshold;
            })

  unfoldable pub restarts_query : String → String
  restarts_query pod = "kube_pod_container_status_restarts_total{pod=~\"" ++ pod ++ "\"}"

  -- The first point of the first series, 0 if there is none that can be read.
  abbrev pub first_point : List MatrixSeries → F
  first_point [] = float.decimal 0 0
  first_point (s ∷ _) = elim s.values [
    | [] ↦ float.decimal 0 0
    | p ∷ _ ↦ elim p [
      | none ↦ float.decimal 0 0
      | some text ↦ elim (float.parse text) [ none ↦ float.decimal 0 0 | some v ↦ v ]
    ]
  ]

  -- The end of evalCrashLoop, for the restarts at the start of the window.
  abbrev pub count_restarts : F → F → Evaluation
  count_restarts current past = some (record {
    fired = float.at_least (float.minus current past) (float.decimal c.t.crash_loop_restarts 0);
    value = format_metric float (float.minus current past);
    threshold = itoa c.t.crash_loop_restarts;
  })

  -- The part of evalCrashLoop that follows the range query: its errors are passed over.
  abbrev pub with_past : Reply (List MatrixSeries) → F → Evaluation
  with_past (value series) current = count_restarts current (first_point series)
  with_past no_metric_data current = count_restarts current (float.decimal 0 0)
  with_past query_failed current = count_restarts current (float.decimal 0 0)
  with_past panics current = none

  -- evalCrashLoop
  unfoldable pub eval_crash_loop : ℕ → String → BlockchainType → Evaluation
  eval_crash_loop now pod chain =
      let query = restarts_query pod in
      let start = now - c.t.crash_loop_window * minute in
      with_value (c.m.instant_value now query) (itoa c.t.crash_loop_restarts)
        λ current. with_past (c.m.range_values now query start (start + 30 * second) "30s") current

  unfoldable pub disk_usage_query : String → String
  disk_usage_query pod =
      "sum(container_fs_usage_bytes{pod=~\"" ++ pod ++ "\"}) / "
      ++ "sum(container_fs_limit_bytes{pod=~\"" ++ pod ++ "\"})"

  -- evalDiskUsage
  unfoldable pub eval_disk_usage : ℕ → String → BlockchainType → Evaluation
  eval_disk_usage now pod chain =
      with_value (c.m.instant_value now (disk_usage_query pod)) (format_metric float c.t.disk_usage)
        λ usage. some (record {
          fired = float.greater usage c.t.disk_usage;
          value = format_metric float usage;
          threshold = format_metric float c.t.disk_usage;
        })

  -- The table `evals` of CheckAll.
  abbrev pub eval : TriggerName → ℕ → String → BlockchainType → Evaluation
  eval sync_lag = eval_sync_lag
  eval error_rate = eval_error_rate
  eval latency = eval_latency
  eval crash_loop = eval_crash_loop
  eval disk_usage = eval_disk_usage

  abbrev pub result_of : ℕ → String → BlockchainType → TriggerName → TriggerName × TriggerResult
  result_of now pod chain name = (name, safe_eval (eval name now pod chain))

  abbrev pub unknown_result : TriggerName → TriggerName × TriggerResult
  unknown_result name = (name, no_data_result "n/a")

  -- CheckAll
  unfoldable pub check_all : ℕ → String → BlockchainType → HealthStatus
  check_all now pod chain = record {
    pod_name = pod;
    blockchain = chain;
    results =
        if c.m.healthy now
        then map (result_of now pod chain) all_triggers
        else map unknown_result all_triggers;
  }
