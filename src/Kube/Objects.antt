-- ===== src/Kube/Objects.antt =====
-- The objects, with the fields that the code uses, and the state of a run.
use chainplane.Prelude.{◌≡◌, none, ℕ, String, Bool, Option, List, Map}
use chainplane.Errors.{ApiError, conflict, unavailable}
use chainplane.Api.{ChainInstance}

pub record ContainerStatus : Type 0 where
  pub name : String
  pub image : String
  pub ready : Bool
  pub restart_count : ℕ
  -- the reason of a waiting state, if the container waits
  pub waiting : Option String

pub record Container : Type 0 where
  pub name : String
  pub image : String

pub record PodSpec : Type 0 where
  pub node_name : String
  pub hostname : String
  pub containers : List Container

pub record Pod : Type 0 where
  pub labels : Map String
  pub annotations : Map String
  pub spec : PodSpec
  pub phase : String
  pub pod_ip : String
  pub container_statuses : List ContainerStatus

pub record PersistentVolumeClaim : Type 0 where
  pub volume_name : String

pub record Service : Type 0 where
  pub name : String
  pub selector : List (String × String)

-- discoveryv1.Endpoint; `ready` is Conditions.Ready, a pointer that may be nil
pub record Endpoint : Type 0 where
  pub addresses : List String
  pub ready : Option Bool

pub record EndpointSlice : Type 0 where
  pub service : String
  pub endpoints : List Endpoint

-- appsv1.StatefulSet, with the annotations and containers of its pod template
pub record StatefulSet : Type 0 where
  pub annotations : Map String
  pub template_annotations : Map String
  pub containers : List Container
  pub replicas : Option ℕ
  pub ready_replicas : ℕ
  pub updated_replicas : ℕ

-- What makes a call fail beside the objects themselves.
pub data Fault : Type 0 where
  conflicted unreachable : Fault

abbrev pub fault_error : Fault → ApiError
fault_error conflicted = conflict
fault_error unreachable = unavailable

-- How a wait ends: after its time and some more, or by the end of the context.
pub data Wait : Type 0 where
  elapsed : ℕ → Wait
  cancelled : Wait

-- `stored` is the resource on the server, `node` the caller's copy behind the pointer;
-- `stateful_set` is the one of the resource's name, and `selected` what the server lists for the
-- selector of the resource. Times are in nanoseconds.
pub record World : Type 0 where
  pub pods : Map Pod
  pub claims : Map PersistentVolumeClaim
  pub services : List Service
  pub slices : List EndpointSlice
  pub stateful_set : Option StatefulSet
  pub selected : List Pod
  pub stored : Option ChainInstance
  pub node : ChainInstance
  pub now : ℕ
  pub calls : ℕ
  pub fault : ℕ → Option Fault
  pub waits : ℕ → Wait

-- No call fails but by the objects.
abbrev pub IsCalm : World → Type 0
IsCalm w = (k : ℕ) → w.fault k ≡ none
