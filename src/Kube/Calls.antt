-- ===== src/Kube/Calls.antt =====
-- The calls of client.Client that the code makes, and a wait.
use chainplane.Prelude.{ℕ, suc, ◌+◌, String, Option, none, some, List, Map, insert, erase}
use chainplane.Errors.{ok, err, api, not_found, already_exists, context_done}
use chainplane.Api.{ChainInstance}
use chainplane.Kube.Objects.{
  Pod, PersistentVolumeClaim, Service, EndpointSlice, StatefulSet, elapsed, cancelled, fault_error,
}
use chainplane.Kube.Monad.{Action}

-- Every call takes the next number, and its fault if it has one.
abbrev pub call : {A : Type 0} → Action A → Action A
call body w =
    let w' = record w { calls = suc w.calls } in
    elim (w.fault w.calls) [ none ↦ body w' | some f ↦ (err (api (fault_error f)), w') ]

abbrev pub found : {A : Type 0} → Option A → Action A
found none w = (err (api not_found), w)
found (some a) w = (ok a, w)

unfoldable pub get_pod : String → Action Pod
get_pod name = call λ w. found (w.pods name) w

-- A merge patch of one label.
unfoldable pub patch_pod_label : String → String → String → Action (Unit {0})
patch_pod_label name key value = call λ w. elim (w.pods name) [
  | none ↦ (err (api not_found), w)
  | some p ↦ (
    ok tt,
    record w { pods = insert name (record p { labels = insert key value p.labels }) w.pods },
  )
]

unfoldable pub create_pod : String → Pod → Action (Unit {0})
create_pod name pod = call λ w. elim (w.pods name) [
  | none ↦ (ok tt, record w { pods = insert name pod w.pods })
  | some _ ↦ (err (api already_exists), w)
]

unfoldable pub delete_pod : String → Action (Unit {0})
delete_pod name = call λ w. elim (w.pods name) [
  | none ↦ (err (api not_found), w)
  | some _ ↦ (ok tt, record w { pods = erase name w.pods })
]

unfoldable pub get_claim : String → Action PersistentVolumeClaim
get_claim name = call λ w. found (w.claims name) w

unfoldable pub delete_claim : String → Action (Unit {0})
delete_claim name = call λ w. elim (w.claims name) [
  | none ↦ (err (api not_found), w)
  | some _ ↦ (ok tt, record w { claims = erase name w.claims })
]

unfoldable pub get_instance : Action ChainInstance
get_instance = call λ w. found w.stored w

-- A merge patch of the annotations; the answer is the patched resource.
unfoldable pub patch_annotations : (Map String → Map String) → Action ChainInstance
patch_annotations change = call λ w. elim w.stored [
  | none ↦ (err (api not_found), w)
  | some n ↦
      let n' = record n { annotations = change n.annotations } in
      (ok n', record w { stored = some n' })
]

-- Status().Patch: the server's status becomes the caller's, and the answer the caller's copy.
unfoldable pub patch_status : Action (Unit {0})
patch_status = call λ w. elim w.stored [
  | none ↦ (err (api not_found), w)
  | some n ↦
      let n' = record n { status = w.node.status } in
      (ok tt, record w { stored = some n'; node = n' })
]

-- Update: it writes the annotations, and not the status, which is a subresource; the caller's
-- copy becomes the answer.
unfoldable pub update_instance : Action (Unit {0})
update_instance = call λ w. elim w.stored [
  | none ↦ (err (api not_found), w)
  | some n ↦
      let n' = record n { annotations = w.node.annotations } in
      (ok tt, record w { stored = some n'; node = n' })
]

unfoldable pub get_stateful_set : Action StatefulSet
get_stateful_set = call λ w. found w.stateful_set w

-- A merge patch of the set.
unfoldable pub patch_stateful_set : (StatefulSet → StatefulSet) → Action (Unit {0})
patch_stateful_set change = call λ w. elim w.stateful_set [
  | none ↦ (err (api not_found), w)
  | some s ↦ (ok tt, record w { stateful_set = some (change s) })
]

unfoldable pub list_selected : Action (List Pod)
list_selected = call λ w. (ok w.selected, w)

unfoldable pub list_services : Action (List Service)
list_services = call λ w. (ok w.services, w)

unfoldable pub list_slices : Action (List EndpointSlice)
list_slices = call λ w. (ok w.slices, w)

-- `select { case <-time.After(d): case <-ctx.Done(): }`
unfoldable pub wait : ℕ → Action (Unit {0})
wait d w =
    let w' = record w { calls = suc w.calls } in
    elim (w.waits w.calls) [
      | elapsed more ↦ (ok tt, record w' { now = w.now + d + more })
      | cancelled ↦ (err context_done, w')
    ]
