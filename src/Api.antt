-- ===== src/Api.antt =====
-- api/v1alpha2/chaininstance_types.go: the ChainInstance resource, with the fields that the
-- controllers read or write.
pub mod Webhook
use chainplane.Prelude.{ℕ, String, Bool, Option, List, Map}

-- A chain name is a text in the source too (`type Chain string`).
abbrev pub Chain : Type 0
Chain = String

-- `unset` is the empty text of a resource that has no status yet.
pub data NodePhase : Type 0 where
  unset pending syncing healthy degraded failed : NodePhase

pub record ImageSpec : Type 0 where
  pub repository : String
  pub tag : String

pub record HealthSpec : Type 0 where
  -- the bit patterns of an int64 and of an int32
  pub block_lag_threshold : Option ℕ
  pub degraded_timeout_minutes : Option ℕ

-- resource.Quantity, given by its canonical text. What is done with quantities belongs to the library.
abbrev pub Quantity : Type 0
Quantity = String

pub record StorageSpec : Type 0 where
  pub size : Quantity

-- corev1.ResourceRequirements: what Limits.Memory() and Requests.Memory() answer, "0" if not set.
pub record ResourceRequirements : Type 0 where
  pub limits_memory : Quantity
  pub requests_memory : Quantity

pub record ChainInstanceSpec : Type 0 where
  pub chain : Chain
  pub network : String
  pub client : String
  pub image : Option ImageSpec
  pub resources : ResourceRequirements
  pub storage : StorageSpec
  pub health : HealthSpec
  -- spec.rpc.port, the bit pattern of an int32
  pub rpc_port : ℕ

-- metav1.ConditionStatus
pub data ConditionStatus : Type 0 where
  status_true status_false status_unknown : ConditionStatus

-- metav1.Condition
pub record Condition : Type 0 where
  pub kind : String
  pub status : ConditionStatus
  pub reason : String
  pub message : String
  pub last_transition_time : ℕ
  pub observed_generation : ℕ

pub record ChainInstanceStatus : Type 0 where
  pub phase : NodePhase
  pub block_height : ℕ
  pub sync_progress : String
  pub sync_eta : String
  pub peers_count : ℕ
  pub conditions : List Condition
  pub observed_generation : ℕ

pub record ChainInstance : Type 0 where
  pub name : String
  pub deleting : Bool
  pub generation : ℕ
  pub annotations : Map String
  pub spec : ChainInstanceSpec
  pub status : ChainInstanceStatus
