-- ===== src/Controller/Upgrade.antt =====
-- internal/controller/upgrade.go: rolling upgrades of the StatefulSet, and their rollback.
pub mod Rollout
pub mod Crash
pub mod RollbackLaws
use Prim.Native.String.{◌++◌}
use chainplane.Prelude.{
  ℕ, ◌/◌, String, Bool, true, false, Option, none, some, List, [], ◌∷◌, ◌&&◌, not, ltb, ◌==◌,
  str_eq, Map, get, insert, if◌then◌else◌,
}
use chainplane.Errors.{Result, ok, err, is_not_found}
use chainplane.Api.{
  ChainInstance, ImageSpec, Condition, ConditionStatus, status_true, status_false, degraded,
}
use chainplane.Time.{second, TimeFormat}
use chainplane.Kube.{
  Action, Pod, ContainerStatus, Container, StatefulSet, pure, raise, gets, attempt, modify, ◌>>=◌,
  ◌>>◌, get_stateful_set, patch_stateful_set, list_selected, patch_status,
}
use chainplane.Controller.Conditions.{
  same_status, upsert, new_condition, with_conditions, find_condition, condition_ready,
}

abbrev pub annotation_last_image : String
annotation_last_image = "chains.chainplane.io/last-image"

abbrev pub annotation_last_client : String
annotation_last_client = "chains.chainplane.io/last-client"

abbrev pub annotation_restarted_at : String
annotation_restarted_at = "chains.chainplane.io/restarted-at"

abbrev pub annotation_previous_image : String
annotation_previous_image = "chains.chainplane.io/previous-image"

abbrev pub condition_upgrading : String
condition_upgrading = "Upgrading"

abbrev pub crash_loop_restart_threshold : ℕ
crash_loop_restart_threshold = 3

abbrev pub main_container_name : String
main_container_name = "node"

-- The change that the method setCondition makes to a condition of the kind.
unfoldable pub rewritten : Condition → Condition → Condition
rewritten new c = if not (same_status c.status new.status) then new else record c {
  reason = new.reason;
  message = new.message;
  observed_generation = new.observed_generation;
}

-- setCondition, the method: it writes the status to the server.
unfoldable pub persist_condition : String → ConditionStatus → String → String → Action (Unit {0})
persist_condition kind status reason message = do
  node ← gets (λ w. w.node)
  now ← gets (λ w. w.now)
  let new = new_condition node.generation kind status reason message now
  modify λ w. record w {
    node = with_conditions (upsert kind (rewritten new) new node.status.conditions) node;
  }
  patch_status

-- resolveImageForUpgrade
unfoldable pub resolve_image_for_upgrade : ChainInstance → String
resolve_image_for_upgrade node =
    let synthetic = node.spec.chain ++ ("/" ++ node.spec.client) in
    elim node.spec.image [
      | none ↦ synthetic
      | some i ↦ if str_eq i.repository "" then synthetic else i.repository ++ (":" ++ i.tag)
    ]

-- The annotations that startRollingRestart writes.
abbrev pub mark_upgrade : String → String → String → Map String → Map String
mark_upgrade image client previous ann =
    let kept = if str_eq previous "" then ann else insert annotation_previous_image previous ann in
    insert annotation_last_client client (insert annotation_last_image image kept)

abbrev pub mark_restart : String → Map String → Map String
mark_restart stamp ann = insert annotation_restarted_at stamp ann

-- startRollingRestart
unfoldable pub start_rolling_restart : TimeFormat → String → String → String → Action (Unit {0})
start_rolling_restart time image client previous = do
  persist_condition condition_upgrading status_true "RollingRestart"
      "Image or client changed, rolling restart in progress"
  now ← gets (λ w. w.now)
  patch_stateful_set λ s. record s {
    annotations = mark_upgrade image client previous s.annotations;
    template_annotations = mark_restart (time.format (now / second)) s.template_annotations;
  }

-- The test of hasCrashLoop on one container.
abbrev pub is_crashing : String → ContainerStatus → Bool
is_crashing image cs =
    str_eq cs.name main_container_name
    && not (ltb cs.restart_count crash_loop_restart_threshold)
    && (elim cs.waiting [ none ↦ false | some reason ↦ str_eq reason "CrashLoopBackOff" ])
    && str_eq cs.image image

abbrev pub any_crashing : String → List ContainerStatus → Bool
any_crashing image [] = false
any_crashing image (c ∷ cs) =
    let rest = any_crashing image cs in if is_crashing image c then true else rest

unfoldable pub crash_looping : String → List Pod → Bool
crash_looping image [] = false
crash_looping image (p ∷ ps) =
    let rest = crash_looping image ps in
    if any_crashing image p.container_statuses then true else rest

-- hasCrashLoop: pods that cannot be listed do not crash.
unfoldable pub has_crash_loop : String → Action Bool
has_crash_loop image = attempt list_selected >>= λ pods. elim pods [
  | ok ps ↦ pure (crash_looping image ps)
  | err _ ↦ pure false
]

-- The image of the first container that has the main name.
abbrev pub set_main_image : String → List Container → List Container
set_main_image image [] = []
set_main_image image (c ∷ cs) =
    let rest = set_main_image image cs in
    if str_eq c.name main_container_name then record c { image = image } ∷ cs else c ∷ rest

-- The change of the StatefulSet that rollback makes.
abbrev pub roll_back_set : String → String → StatefulSet → StatefulSet
roll_back_set image stamp s = record s {
  containers = set_main_image image s.containers;
  annotations = insert annotation_last_image image s.annotations;
  template_annotations = mark_restart stamp s.template_annotations;
}

-- The first part of rollback: with no previous image there is nothing to restore.
unfoldable pub restore_image : TimeFormat → String → Action (Unit {0})
restore_image time previous =
    if str_eq previous ""
    then pure tt
    else (gets (λ w. w.now) >>= λ now.
        patch_stateful_set (roll_back_set previous (time.format (now / second))))

-- The last part of rollback.
unfoldable pub mark_degraded : Action (Unit {0})
mark_degraded = do
  modify
      λ w. record w { node = record w.node { status = record w.node.status { phase = degraded } } }
  patch_status

-- rollback
unfoldable pub rollback : TimeFormat → StatefulSet → Action (Unit {0})
rollback time set = do
  restore_image time (get set.annotations annotation_previous_image)
  persist_condition condition_upgrading status_false "RollbackTriggered"
      "CrashLoopBackOff detected, rolled back to previous version"
  mark_degraded

-- The test of verifyRolloutHealth: the last upgrade is still under way.
unfoldable pub is_upgrading : ChainInstance → Bool
is_upgrading node = elim (find_condition node.status.conditions condition_upgrading) [
  | none ↦ false
  | some c ↦ same_status c.status status_true
]

abbrev pub wanted_replicas : StatefulSet → ℕ
wanted_replicas s = elim s.replicas [ none ↦ 1 | some n ↦ n ]

-- All replicas are ready and of the new revision.
unfoldable pub is_rolled_out : StatefulSet → Bool
is_rolled_out s = s.ready_replicas == wanted_replicas s && s.updated_replicas == wanted_replicas s

-- The end of a rollout that has gone well.
unfoldable pub finish_rollout : Action (Unit {0})
finish_rollout = do
  persist_condition condition_upgrading status_false "RolloutComplete"
      "All replicas are ready after upgrade"
  persist_condition condition_ready status_true "Healthy" "Node is healthy after upgrade"

-- What verifyRolloutHealth does while the rollout is not complete.
unfoldable pub check_crash : TimeFormat → StatefulSet → Action (Unit {0})
check_crash time set = do
  node ← gets (λ w. w.node)
  crashing ← has_crash_loop (resolve_image_for_upgrade node)
  if crashing then rollback time set else pure tt

-- verifyRolloutHealth
unfoldable pub verify_rollout_health : TimeFormat → StatefulSet → Action (Unit {0})
verify_rollout_health time set = do
  node ← gets (λ w. w.node)
  if not (is_upgrading node)
      then pure tt
      else if is_rolled_out set
      then finish_rollout
      else check_crash time set

-- The StatefulSet records the image and the client that the resource asks for.
unfoldable pub is_recorded : ChainInstance → StatefulSet → Bool
is_recorded node s =
    str_eq (get s.annotations annotation_last_image) (resolve_image_for_upgrade node)
    && str_eq (get s.annotations annotation_last_client) node.spec.client

-- What reconcileUpgrade does with the set.
unfoldable pub upgrade_set : TimeFormat → StatefulSet → Action (Unit {0})
upgrade_set time set = do
  node ← gets (λ w. w.node)
  if is_recorded node set
      then verify_rollout_health time set
      else start_rolling_restart time (resolve_image_for_upgrade node) node.spec.client
          (get set.annotations annotation_last_image)

unfoldable pub upgrade_fetched : TimeFormat → Result StatefulSet → Action (Unit {0})
upgrade_fetched time (ok set) = upgrade_set time set
upgrade_fetched time (err e) = if is_not_found e then pure tt else raise e

-- reconcileUpgrade
unfoldable pub reconcile_upgrade : TimeFormat → Action (Unit {0})
reconcile_upgrade time = do set ← attempt get_stateful_set; upgrade_fetched time set
