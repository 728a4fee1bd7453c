-- ===== src/Health/Replacement/Defs.antt =====
-- The phases, keys, settings and collaborators of the replacement manager.
use Prim.Native.String.{◌++◌}
use chainplane.Prelude.{
  ℕ, ◌*◌, String, Bool, false, Option, ◌==◌, if◌then◌else◌, ◌&&◌, not, str_eq, get,
}
use chainplane.Api.{ChainInstance}
use chainplane.Time.{second, minute, TimeFormat}
use chainplane.Kube.{Action}
use chainplane.Health.Chain.{BlockchainType}
use chainplane.Health.Trigger.{HealthStatus}

-- `type ReplacementPhase string`: it is read back from an annotation, so it may be any text.
abbrev pub ReplacementPhase : Type 0
ReplacementPhase = String

abbrev pub draining : ReplacementPhase
draining = "Draining"

abbrev pub creating : ReplacementPhase
creating = "Creating"

abbrev pub verifying : ReplacementPhase
verifying = "Verifying"

abbrev pub completing : ReplacementPhase
completing = "Completing"

abbrev pub rolling_back : ReplacementPhase
rolling_back = "RollingBack"

abbrev pub annotation_phase : String
annotation_phase = "chains.chainplane.io/replacement-phase"

abbrev pub annotation_pod : String
annotation_pod = "chains.chainplane.io/replacement-pod"

abbrev pub annotation_old_pod : String
annotation_old_pod = "chains.chainplane.io/replacement-old-pod"

abbrev pub annotation_started_at : String
annotation_started_at = "chains.chainplane.io/replacement-started-at"

abbrev pub label_instance : String
label_instance = "chains.chainplane.io/instance"

abbrev pub label_replacement_for : String
label_replacement_for = "chains.chainplane.io/replacement-for"

abbrev pub label_ready : String
label_ready = "chains.chainplane.io/ready"

-- Durations are not negative.
pub record ReplacementConfig : Type 0 where
  pub drain_timeout : ℕ
  pub sync_timeout : ℕ
  pub poll_interval : ℕ
  pub grace_period_seconds : ℕ
  pub cleanup_pvc : Bool

unfoldable pub default_replacement_config : ReplacementConfig
default_replacement_config = record {
  drain_timeout = 30 * second;
  sync_timeout = 10 * minute;
  poll_interval = 10 * second;
  grace_period_seconds = 30;
  cleanup_pvc = false;
}

-- The interface Drainer. The context of `drain` is its deadline.
pub record Drainer : Type 0 where
  pub drain : Option ℕ → String → Action (Unit {0})
  pub switch_traffic : String → String → Action (Unit {0})
  pub validate_traffic : String → Action Bool

-- `check_all` is Checker.CheckAll at a time; `time` reads and writes the time stamps.
pub record ReplacementManager : Type 0 where
  pub check_all : ℕ → String → BlockchainType → HealthStatus
  pub drainer : Option Drainer
  pub cfg : ReplacementConfig
  pub time : TimeFormat

-- NewReplacementManager
unfoldable pub new_replacement_manager :
    (ℕ → String → BlockchainType → HealthStatus)
    → Option Drainer
    → ReplacementConfig
    → TimeFormat
    → ReplacementManager
new_replacement_manager check_all drainer cfg time = record {
  check_all = check_all;
  drainer = drainer;
  cfg = if cfg.sync_timeout == 0 then default_replacement_config else cfg;
  time = time;
}

-- nodeAnnotation
abbrev pub node_annotation : ChainInstance → String → String
node_annotation node key = get node.annotations key

-- IsReplacementInProgress
unfoldable pub is_replacement_in_progress : ChainInstance → Bool
is_replacement_in_progress node =
    let phase = node_annotation node annotation_phase in
    not (str_eq phase "") && not (str_eq phase completing)

-- GetReplacementPhase
unfoldable pub get_replacement_phase : ChainInstance → ReplacementPhase
get_replacement_phase node = node_annotation node annotation_phase

-- The StatefulSet's pod, and the name of its replacement.
abbrev pub old_pod_of : ChainInstance → String
old_pod_of node = node.name ++ "-0"

abbrev pub replacement_of : String → String
replacement_of old = old ++ "-replacement"
