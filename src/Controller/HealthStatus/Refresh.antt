-- ===== src/Controller/HealthStatus/Refresh.antt =====
-- internal/controller/reconcile_health.go: the phases and conditions of a node that fails its health
-- check or reports full sync, and the refresh of the status.
use Prim.Native.String.{◌++◌}
use chainplane.Adapters.Int64.{is_positive, sign_extend}
use chainplane.Adapters.Status.{SyncStatus}
use chainplane.Prelude.{ℕ, String, Bool, true, false, none, some, erase, if◌then◌else◌}
use chainplane.Errors.{Error, Result, ok, err}
use chainplane.Api.{ChainInstance, NodePhase, healthy, degraded, status_true, status_false}
use chainplane.Kube.{Action, pure, gets, attempt, ◌>>=◌, ◌>>◌, patch_status}
use chainplane.Controller.Conditions.{
  condition_ready, condition_syncing, condition_degraded, set_condition,
}
use chainplane.Controller.HealthStatus.Marks.{
  with_phase, with_progress, with_eta, with_observed_generation, degrade,
}
use chainplane.Controller.HealthStatus.Eta.{SyncTools}
use chainplane.Controller.HealthStatus.Syncing.{apply_syncing_status}
use chainplane.Controller.HealthStatus.{
  annotation_sync_stall_since, annotation_last_sync_block, Environment, set_status,
  detect_height_stall, check_block_lag, restart_if_degraded_too_long, clear_degraded_tracking,
}

-- applyDegradedFromError
unfoldable pub apply_degraded_from_error : Environment → Error → ℕ → ChainInstance → ChainInstance
apply_degraded_from_error e x now node =
    degrade "HealthCheckFailed" (e.show_error x) "RPC health check failed" now node

-- The stalled branch of applyFullySyncedStatus; a failed restart is logged only.
unfoldable pub mark_height_stall : Environment → String → ℕ → Action (Unit {0})
mark_height_stall e message now = do
  set_status λ node. with_progress "stalled" (degrade "HeightStall" message message now node)
  set_status with_observed_generation
  _ ← attempt (restart_if_degraded_too_long e)
  pure tt

-- The fields that applyFullySyncedStatus sets before it looks at the lag.
unfoldable pub mark_synced : ℕ → ChainInstance → ChainInstance
mark_synced now node =
    let synced =
      set_condition condition_syncing status_false "Synced" "Node is fully synced" now
        (with_eta "" (with_progress "100%" (with_phase healthy node))) in
    record synced {
      annotations =
          erase annotation_last_sync_block (erase annotation_sync_stall_since synced.annotations);
    }

-- The conditions of a node that does not lag.
unfoldable pub marked_well : ℕ → ChainInstance → ChainInstance
marked_well now node =
    set_condition condition_ready status_true "Healthy" "Node is healthy and synced" now
      (set_condition condition_degraded status_false "Healthy" "Node is healthy" now node)

-- The end of applyFullySyncedStatus, by the answer of checkBlockLag.
unfoldable pub apply_lag : Environment → ℕ → Bool → ℕ → ChainInstance → ChainInstance
apply_lag e now lagging lag node =
    let message = "Block lag " ++ e.show lag ++ " exceeds threshold" in
    if lagging
    then degrade "BlockLag" message message now
        (with_progress ("lag: " ++ e.show lag ++ " blocks") node)
    else marked_well now node

-- applyFullySyncedStatus, for a node that is not stalled
unfoldable pub apply_synced : Environment → ℕ → ℕ → ChainInstance → ChainInstance
apply_synced e block now node =
    let (lagging, lag) = check_block_lag e now (mark_synced now node) block in
    apply_lag e now lagging lag (mark_synced now node)

-- applyFullySyncedStatus
unfoldable pub apply_fully_synced_status : Environment → ℕ → ℕ → Action (Unit {0})
apply_fully_synced_status e block now = do
  stalled ← detect_height_stall e block
  elim stalled [
    | some message ↦ mark_height_stall e message now
    | none ↦ set_status (apply_synced e block now)
  ]

module _ {F : Type 0} (tools : SyncTools F) (e : Environment) where
  -- The start of applyHealthyOrSyncing.
  unfoldable pub take_report : SyncStatus F → ChainInstance → ChainInstance
  take_report s node = record node {
    status = record node.status {
      block_height =
          if is_positive s.current_block then s.current_block else node.status.block_height;
      peers_count = if is_positive (sign_extend s.peers) then s.peers else node.status.peers_count;
    };
  }

  -- applyHealthyOrSyncing
  unfoldable pub apply_healthy_or_syncing : SyncStatus F → ℕ → Action (Unit {0})
  apply_healthy_or_syncing s now = do
    set_status (take_report s)
    if s.is_syncing
        then apply_syncing_status tools e s now
        else apply_fully_synced_status e s.current_block now

  -- The part of refreshStatus that follows the health check.
  unfoldable pub apply_report : Result (SyncStatus F) → ℕ → Action (Unit {0})
  apply_report (err x) now = set_status (apply_degraded_from_error e x now)
  apply_report (ok s) now = apply_healthy_or_syncing s now

abbrev is_degraded : NodePhase → Bool
is_degraded degraded = true
is_degraded _ = false

-- The end of refreshStatus: the restart of a degraded node, or the end of its tracking.
unfoldable pub follow_up : Environment → Action (Unit {0})
follow_up e = do
  node ← gets (λ w. w.node)
  if is_degraded node.status.phase
      then (do _ ← attempt (restart_if_degraded_too_long e); pure tt)
      else clear_degraded_tracking

-- refreshStatus, from the answer of the health check on
unfoldable pub refresh_status :
    {F : Type 0} → SyncTools F → Environment → Result (SyncStatus F) → Action (Unit {0})
refresh_status tools e report = do
  now ← gets (λ w. w.now)
  apply_report tools e report now
  set_status with_observed_generation
  follow_up e
  patch_status
