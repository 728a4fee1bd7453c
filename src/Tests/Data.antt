-- ===== src/Tests/Data.antt =====
-- A small cluster: one instance with its pod, and a manager for it.
use Prim.Native.String.{String}
use chainplane.Prelude.{
  ◌≡◌, refl, ℕ, zero, suc, ◌*◌, Bool, true, false, Option, none, some, [], ◌∷◌, Map, insert,
  empty_map, ap,
}
use chainplane.Api.{ChainInstance, ChainInstanceSpec, healthy}
use chainplane.Time.{second, TimeFormat}
use chainplane.Kube.{World, Pod, elapsed, Fault}
use chainplane.Health.Chain.{BlockchainType}
use chainplane.Health.Trigger.{HealthStatus, sync_lag}
use chainplane.Health.Replacement.{
  ReplacementManager, ReplacementConfig, Drainer, annotation_phase, annotation_pod,
  annotation_old_pod, annotation_started_at,
}

-- A time format that can be computed with: a mark for each second, and one more.
abbrev pub marks : ℕ → String
marks zero = ""
marks (suc n) = String.◌∷◌ "s" (marks n)

abbrev pub count_marks : String → ℕ
count_marks String.[] = 0
count_marks (String.◌∷◌ c s) = suc (count_marks s)

abbrev pub parse_marks : String → Option ℕ
parse_marks String.[] = none
parse_marks (String.◌∷◌ c s) = some (count_marks s)

pub count_marks-marks : (n : ℕ) → count_marks (marks n) ≡ n
count_marks-marks zero = refl
count_marks-marks (suc n) = ap suc (count_marks-marks n)

pub parse_marks-marks : (n : ℕ) → parse_marks (marks (suc n)) ≡ some n
parse_marks-marks n = ap some (count_marks-marks n)

abbrev pub tally_format : TimeFormat
tally_format = record {
  format = λ n. marks (suc n);
  parse = parse_marks;
  parse-format = parse_marks-marks;
  parse-empty = refl;
}

abbrev pub always_healthy : ℕ → String → BlockchainType → HealthStatus
always_healthy _ pod chain = record { pod_name = pod; blockchain = chain; results = [] }

abbrev pub always_lagging : ℕ → String → BlockchainType → HealthStatus
always_lagging _ pod chain = record {
  pod_name = pod;
  blockchain = chain;
  results = (sync_lag, record { fired = true; value = "31"; threshold = "30" }) ∷ [];
}

abbrev pub short_config : ReplacementConfig
short_config = record {
  drain_timeout = 10 * second;
  sync_timeout = 5 * second;
  poll_interval = 10 * second;
  grace_period_seconds = 30;
  cleanup_pvc = true;
}

abbrev pub manager : Option Drainer → ReplacementManager
manager d = record {
  check_all = always_healthy;
  drainer = d;
  cfg = short_config;
  time = tally_format;
}

abbrev pub ethereum_spec : ChainInstanceSpec
ethereum_spec = record {
  rpc_port = 8545;
  chain = "ethereum";
  network = "mainnet";
  client = "geth";
  image = none;
  resources = record { limits_memory = "8Gi"; requests_memory = "0" };
  storage = record { size = "100Gi" };
  health = record { block_lag_threshold = none; degraded_timeout_minutes = none };
}

abbrev pub instance_with : Map String → ChainInstance
instance_with annotations = record {
  name = "eth";
  deleting = false;
  generation = 1;
  annotations = annotations;
  spec = ethereum_spec;
  status = record {
    phase = healthy;
    block_height = 100;
    sync_progress = "100%";
    sync_eta = "";
    peers_count = 8;
    conditions = [];
    observed_generation = 1;
  };
}

abbrev pub running_pod : Bool → Pod
running_pod ready = record {
  labels = insert "app" "eth" empty_map;
  annotations = empty_map;
  spec = record { node_name = "worker"; hostname = "eth-0"; containers = [] };
  phase = "Running";
  pod_ip = "10.0.0.1";
  container_statuses =
      record { name = "node"; image = "geth:1"; ready = ready; restart_count = 0; waiting = none }
      ∷ [];
}

abbrev pub world_with : Map Pod → Map String → World
world_with pods annotations = record {
  pods = pods;
  claims = empty_map;
  services = [];
  slices = [];
  stateful_set = none;
  selected = [];
  stored = some (instance_with annotations);
  node = instance_with annotations;
  now = 3 * second;
  calls = 0;
  fault = λ _. none;
  waits = λ _. elapsed 0;
}

-- The pod runs and nothing is under way.
abbrev pub steady : World
steady = world_with (insert "eth-0" (running_pod true) empty_map) empty_map

abbrev pub annotations_in : String → Map String
annotations_in phase = insert annotation_phase phase (
    insert annotation_old_pod "eth-0"
      (insert annotation_pod "eth-0-replacement" (insert annotation_started_at "ss" empty_map)))

-- Both pods are there, and the workflow is in a phase.
abbrev pub replacing : Bool → String → World
replacing ready phase =
    world_with
      (insert "eth-0" (running_pod true) (insert "eth-0-replacement" (running_pod ready) empty_map))
      (annotations_in phase)

-- The call with a number fails.
abbrev pub failing_at : (ℕ → Option Fault) → World → World
failing_at f w = record w { fault = f }
