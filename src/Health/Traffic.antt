-- ===== src/Health/Traffic.antt =====
-- internal/health/traffic.go: the drainer that moves pods in and out of services by the ready
-- label. Logging is left out, but the call that fetches a pod for the log is made.
pub mod Effects
pub mod Progress
pub mod Switch
pub mod Drained
pub mod Serving
pub mod Validation
use chainplane.Prelude.{
  ℕ, zero, suc, ◌+◌, ◌-◌, ◌*◌, ◌/◌, min, String, Bool, true, false, Option, none, some, List, [],
  ◌∷◌, ◌&&◌, not, ltb, leb, str_eq, all, Map, get, if◌then◌else◌,
}
use chainplane.Errors.{Error, Result, ok, err, is_not_found, no_endpoint_slices, out_of_fuel}
use chainplane.Time.{second}
use chainplane.Kube.{
  Action, World, Pod, Service, Endpoint, EndpointSlice, pure, raise, gets, catch, attempt, ◌>>=◌,
  ◌>>◌, get_pod, patch_pod_label, list_services, list_slices, wait,
}
use chainplane.Health.Replacement.{Drainer, label_ready}

abbrev pub label_propagation_delay : ℕ
label_propagation_delay = 5 * second

abbrev pub default_drain_timeout : ℕ
default_drain_timeout = 30 * second

abbrev pub drain_log_interval : ℕ
drain_log_interval = 5 * second

-- setPodLabel
unfoldable pub set_pod_label : String → String → String → Action (Unit {0})
set_pod_label name key value = do _ ← get_pod name; patch_pod_label name key value

-- logDrainStatus
unfoldable pub log_drain_status : String → Action (Unit {0})
log_drain_status name = do _ ← attempt (get_pod name); pure tt

-- The loop of waitWithProgress, on fuel.
unfoldable pub wait_until : ℕ → ℕ → Action (Unit {0})
wait_until zero deadline w = (err out_of_fuel, w)
wait_until (suc fuel) deadline w =
    let rest = wait_until fuel deadline in
    if leb deadline w.now
    then (ok tt, w)
    else (wait (min drain_log_interval (deadline - w.now)) >> rest) w

-- Every round but the last waits for the full interval.
abbrev pub rounds : ℕ → ℕ
rounds duration = duration / drain_log_interval + 2

-- waitWithProgress
unfoldable pub wait_with_progress : ℕ → Action (Unit {0})
wait_with_progress duration w = wait_until (rounds duration) (w.now + duration) w

-- The wait of Drain: the default, or what is left of the context if that is less.
abbrev pub drain_duration : Option ℕ → ℕ → ℕ
drain_duration none now = default_drain_timeout
drain_duration (some deadline) now =
    if ltb (deadline - now) default_drain_timeout then deadline - now else default_drain_timeout

-- The part of Drain that follows the marking of the pod.
unfoldable pub drain_marked : Option ℕ → String → Result (Unit {0}) → Action (Unit {0})
drain_marked deadline pod (ok _) = do
  log_drain_status pod
  now ← gets (λ w. w.now)
  wait_with_progress (drain_duration deadline now)
drain_marked deadline pod (err e) = if is_not_found e then pure tt else raise e

-- Drain
unfoldable pub drain : Option ℕ → String → Action (Unit {0})
drain deadline pod = do
  marked ← attempt (set_pod_label pod label_ready "false")
  drain_marked deadline pod marked

-- The first step of SwitchTraffic: an old pod that is gone is no error.
unfoldable pub remove_from_service : String → Action (Unit {0})
remove_from_service old =
    catch (set_pod_label old label_ready "false") λ e. if is_not_found e then pure tt else raise e

-- SwitchTraffic
unfoldable pub switch_traffic : String → String → Action (Unit {0})
switch_traffic old new = do
  remove_from_service old
  wait label_propagation_delay
  set_pod_label new label_ready "true"

-- labelsContain
unfoldable pub labels_contain : Map String → List (String × String) → Bool
labels_contain labels [] = true
labels_contain labels ((k, v) ∷ required) =
    let rest = labels_contain labels required in if str_eq (get labels k) v then rest else false

-- The loop of matchingServices: a service without a selector matches nothing.
unfoldable pub matching : Map String → List Service → List Service
matching labels [] = []
matching labels (s ∷ ss) =
    let rest = matching labels ss in
    elim s.selector [
      | [] ↦ rest
      | kv ∷ kvs ↦ if labels_contain labels (kv ∷ kvs) then s ∷ rest else rest
    ]

abbrev contains_text : String → List String → Bool
contains_text a [] = false
contains_text a (b ∷ bs) = let rest = contains_text a bs in if str_eq b a then true else rest

-- An endpoint with no Ready condition counts as ready.
abbrev serves : String → Endpoint → Bool
serves ip e = (elim e.ready [ none ↦ true | some b ↦ b ]) && contains_text ip e.addresses

abbrev any_serves : String → List Endpoint → Bool
any_serves ip [] = false
any_serves ip (e ∷ es) = let rest = any_serves ip es in if serves ip e then true else rest

abbrev any_slice_serves : String → List EndpointSlice → Bool
any_slice_serves ip [] = false
any_slice_serves ip (s ∷ ss) =
    let rest = any_slice_serves ip ss in if any_serves ip s.endpoints then true else rest

-- The slices that carry the label of the service.
abbrev slices_of : String → List EndpointSlice → List EndpointSlice
slices_of name [] = []
slices_of name (s ∷ ss) =
    let rest = slices_of name ss in if str_eq s.service name then s ∷ rest else rest

-- podInEndpoints, behind its API call
unfoldable pub in_slices : String → String → List EndpointSlice → Result Bool
in_slices name ip slices = elim (slices_of name slices) [
  | [] ↦ err no_endpoint_slices
  | s ∷ ss ↦ ok (any_slice_serves ip (s ∷ ss))
]

-- podInEndpoints
unfoldable pub pod_in_endpoints : String → String → Action Bool
pod_in_endpoints name ip = do slices ← list_slices; λ w. (in_slices name ip slices, w)

-- The loop of ValidateTraffic over the services: one whose check fails is passed over.
unfoldable pub check_services : String → List Service → Action Bool
check_services ip [] = pure true
check_services ip (s ∷ ss) =
    let rest = check_services ip ss in
    attempt (pod_in_endpoints s.name ip) >>= λ found. elim found [
      | err e ↦ rest
      | ok b ↦ if b then rest else pure false
    ]

-- ValidateTraffic
unfoldable pub validate_traffic : String → Action Bool
validate_traffic name = do
  pod ← get_pod name
  if not (str_eq (get pod.labels label_ready) "true")
      then pure false
      else if str_eq pod.pod_ip ""
      then pure false
      else (do services ← list_services; check_services pod.pod_ip (matching pod.labels services))

-- NewLabelBasedTrafficManager, as the interface sees it
unfoldable pub label_based_traffic_manager : Drainer
label_based_traffic_manager = record {
  drain = drain;
  switch_traffic = switch_traffic;
  validate_traffic = validate_traffic;
}
