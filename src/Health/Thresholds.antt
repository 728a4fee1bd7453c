-- ===== src/Health/Thresholds.antt =====
-- internal/health/trigger.go: the thresholds, their defaults and the text of a metric. Counts and
-- minutes are not negative.
use chainplane.Prelude.{ℕ, String, Bool, false, ◌&&◌, ◌||◌, ◌==◌, str_eq, if◌then◌else◌}
use chainplane.Float.{Float}
use chainplane.Health.Chain.{BlockchainType, ethereum, solana}

pub record Thresholds (F : Type 0) : Type 0 where
  pub sync_lag_eth : F
  pub sync_lag_sol : F
  pub sync_lag_duration : ℕ
  pub error_rate : F
  pub error_rate_window : ℕ
  pub latency_eth : F
  pub latency_sol : F
  pub latency_duration : ℕ
  pub crash_loop_restarts : ℕ
  pub crash_loop_window : ℕ
  pub disk_usage : F

-- strings.TrimRight with one character, given as a text.
unfoldable pub trim_right : String → String → String
trim_right char String.[] = ""
trim_right char (String.◌∷◌ c s) =
    let rest = trim_right char s in
    if str_eq rest "" && str_eq (String.◌∷◌ c "") char then "" else String.◌∷◌ c rest

-- strings.IndexByte(s, c) >= 0
unfoldable pub contains_char : String → String → Bool
contains_char char String.[] = false
contains_char char (String.◌∷◌ c s) = str_eq (String.◌∷◌ c "") char || contains_char char s

module _ {F : Type 0} (float : Float F) where
  -- DefaultThresholds
  unfoldable pub default_thresholds : Thresholds F
  default_thresholds = record {
    sync_lag_eth = float.decimal 30 0;
    sync_lag_sol = float.decimal 150 0;
    sync_lag_duration = 10;
    error_rate = float.decimal 5 2;
    error_rate_window = 5;
    latency_eth = float.decimal 2 0;
    latency_sol = float.decimal 5 1;
    latency_duration = 5;
    crash_loop_restarts = 3;
    crash_loop_window = 10;
    disk_usage = float.decimal 9 1;
  }

  -- The loops of applyDefaults, at one field.
  abbrev pub or_default : F → F → F
  or_default value default = if float.is_zero value then default else value

  abbrev pub or_default_count : ℕ → ℕ → ℕ
  or_default_count value default = if value == 0 then default else value

  -- applyDefaults
  unfoldable pub apply_defaults : Thresholds F → Thresholds F
  apply_defaults t =
      let d = default_thresholds in
      record {
        sync_lag_eth = or_default t.sync_lag_eth d.sync_lag_eth;
        sync_lag_sol = or_default t.sync_lag_sol d.sync_lag_sol;
        sync_lag_duration = or_default_count t.sync_lag_duration d.sync_lag_duration;
        error_rate = or_default t.error_rate d.error_rate;
        error_rate_window = or_default_count t.error_rate_window d.error_rate_window;
        latency_eth = or_default t.latency_eth d.latency_eth;
        latency_sol = or_default t.latency_sol d.latency_sol;
        latency_duration = or_default_count t.latency_duration d.latency_duration;
        crash_loop_restarts = or_default_count t.crash_loop_restarts d.crash_loop_restarts;
        crash_loop_window = or_default_count t.crash_loop_window d.crash_loop_window;
        disk_usage = or_default t.disk_usage d.disk_usage;
      }

  -- syncLagThreshold
  unfoldable pub sync_lag_threshold : Thresholds F → BlockchainType → F
  sync_lag_threshold t chain =
      if str_eq chain ethereum
      then t.sync_lag_eth
      else if str_eq chain solana
      then t.sync_lag_sol
      else t.sync_lag_eth

  -- latencyThreshold
  unfoldable pub latency_threshold : Thresholds F → BlockchainType → F
  latency_threshold t chain =
      if str_eq chain ethereum
      then t.latency_eth
      else if str_eq chain solana
      then t.latency_sol
      else t.latency_eth

  -- formatMetric
  unfoldable pub format_metric : F → String
  format_metric v =
      let s = float.fixed 4 v in
      if contains_char "." s then trim_right "." (trim_right "0" s) else s
