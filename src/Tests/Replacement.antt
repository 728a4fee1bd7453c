-- ===== src/Tests/Replacement.antt =====
-- The replacement workflow at a concrete cluster.
use chainplane.Prelude.{
  ◌*◌, ◌↔◌, ◌≡◌, ◌≢◌, refl, ◌⊎◌, ◌==◌, true, false, Option, none, some, arith, eq_iff,
  if◌then◌else◌, String,
}
use chainplane.Errors.{in_phase, api, unavailable, ok, err, replacement_timeout}
use chainplane.Kube.{
  Fault, Action, World, unreachable, get_instance, patch_annotations, get_pod, patch_pod_label,
  create_pod, delete_pod, get_claim, delete_claim, wait, list_services,
}
use chainplane.Health.Trigger.{is_healthy}
use chainplane.Health.Replacement.{
  ReplacementManager, verifying, start_replacement, monitor_replacement, complete_replacement,
  rollback_replacement, create_replacement, merge_annotations, clear_annotations, cordon, label_pod,
  drain_traffic, spawn_replacement_pod, draining, creating, complete_marked, finish_replacement,
  switch_over, retire_old, remove_pod, clean_up, remove_pvc, undo_replacement, discard_replacement,
  restore_old, containers_ready, replacement_pod, fetch_and_verify, verify_fetched, verify_pod,
  sync_timed_out,
}
use chainplane.Health.Replacement.Monitor.{
  IsTimedOut, IsVerifying, IsWell, monitor_ready_iff, monitor-timeout_iff,
}
use chainplane.Time.{second}
use chainplane.Health.Replacement.Start.{Started, start-Started}
use chainplane.Health.Replacement.StartFailed.{Recorded, start-failed}
use chainplane.Health.Replacement.Restored.{IsRestored, rollback-IsRestored}
use chainplane.Health.Replacement.Complete.{Covered, complete-Covered}
use chainplane.Health.Replacement.Rollback.{IsCleared, rollback-IsCleared, rollback_keeps}
use chainplane.Health.Traffic.{
  label_based_traffic_manager, drain, drain_marked, set_pod_label, log_drain_status,
  wait_with_progress, wait_until, switch_traffic, remove_from_service, validate_traffic,
  check_services, matching,
}
use chainplane.Health.Traffic.Effects.{label_based-DrainerLaws}
use chainplane.Tests.Data.{
  manager, steady, replacing, failing_at, annotations_in, instance_with, running_pod,
}

-- All that a run of the workflow calls: to unfold `runs` is to unfold these.
unfoldable pub runs : Unit {0}
unfolding get_instance patch_annotations get_pod patch_pod_label create_pod delete_pod get_claim
    delete_claim wait list_services merge_annotations clear_annotations label_pod replacement_pod
    spawn_replacement_pod remove_pod remove_pvc containers_ready cordon drain_traffic
    create_replacement start_replacement sync_timed_out verify_pod verify_fetched fetch_and_verify
    monitor_replacement switch_over clean_up retire_old finish_replacement complete_marked
    complete_replacement discard_replacement restore_old undo_replacement rollback_replacement
    label_based_traffic_manager set_pod_label log_drain_status wait_until wait_with_progress
    drain_marked drain remove_from_service switch_traffic matching check_services validate_traffic
    is_healthy
runs = tt

abbrev pub lawful_manager : ReplacementManager
lawful_manager = manager (some label_based_traffic_manager)

-- The state after a run.
abbrev pub after : {A : Type 0} → Action A → World → World
after m w = (m w).1

start_succeeds :
    start_replacement lawful_manager steady
    ≡ (ok tt, after (start_replacement lawful_manager) steady)
unfolding runs
start_succeeds = refl

start-Started_example :
    Started lawful_manager steady (after (start_replacement lawful_manager) steady)
start-Started_example =
    start-Started lawful_manager steady (after (start_replacement lawful_manager) steady)
      label_based-DrainerLaws start_succeeds

-- The read of the old pod for the clone fails.
abbrev pub broken : World
broken = failing_at (λ k. if k == 11 then some unreachable else none) steady

pub start_fails :
    start_replacement lawful_manager broken
    ≡ (err (in_phase creating (api unavailable)), after (start_replacement lawful_manager) broken)
unfolding runs
start_fails = refl

abbrev pub stuck : World
stuck = after (start_replacement lawful_manager) broken

start-failed_example :
    (stuck.stored ≡ broken.stored) ⊎ Recorded draining stuck ⊎ Recorded creating stuck
start-failed_example = start-failed lawful_manager broken stuck label_based-DrainerLaws start_fails

-- A pod that is ready, looked at in time.
monitor_ready_iff_example :
    ((monitor_replacement lawful_manager (replacing true verifying)).0 ≡ ok true) ↔ (
      IsVerifying (replacing true verifying)
      × IsWell lawful_manager (replacing true verifying)
      × (◌≡◌ {A = Option Fault} none none)
      × (¬ IsTimedOut lawful_manager (replacing true verifying)))
monitor_ready_iff_example = monitor_ready_iff lawful_manager (replacing true verifying)

monitor_reports : (monitor_replacement lawful_manager (replacing true verifying)).0 ≡ ok true
unfolding runs
monitor_reports = refl

abbrev late : World
late = record (replacing true verifying) { now = 60 * second }

monitor-timeout_iff_example :
    ((monitor_replacement lawful_manager late).0 ≡ err replacement_timeout) ↔ (
      IsVerifying late
      × IsWell lawful_manager late
      × (◌≡◌ {A = Option Fault} none none)
      × IsTimedOut lawful_manager late)
monitor-timeout_iff_example = monitor-timeout_iff lawful_manager late

monitor_gives_up : (monitor_replacement lawful_manager late).0 ≡ err replacement_timeout
unfolding runs
monitor_gives_up = refl

pods_differ : ◌≢◌ {A = String} "eth-0" "eth-0-replacement"
pods_differ = ground (arith, eq_iff "eth-0" "eth-0-replacement")

complete-Covered_example :
    Covered "eth-0" "eth-0-replacement"
      (after (complete_replacement lawful_manager) (replacing true verifying))
complete-Covered_example =
    complete-Covered lawful_manager label_based_traffic_manager (replacing true verifying)
      (instance_with (annotations_in verifying)) refl label_based-DrainerLaws refl pods_differ
      (λ e. cc)

rollback_succeeds :
    rollback_replacement (replacing false verifying)
    ≡ (ok tt, after rollback_replacement (replacing false verifying))
unfolding runs
rollback_succeeds = refl

rollback-IsCleared_example : IsCleared (after rollback_replacement (replacing false verifying))
rollback-IsCleared_example =
    rollback-IsCleared (replacing false verifying)
      (after rollback_replacement (replacing false verifying)) rollback_succeeds

rollback_keeps_example :
    (after rollback_replacement (replacing false verifying)).pods "eth-0" ≢ none
rollback_keeps_example =
    rollback_keeps (replacing false verifying) (instance_with (annotations_in verifying)) "eth-0"
      refl pods_differ (λ e. cc)

rollback-IsRestored_example :
    ((rollback_replacement (replacing false verifying)).0 ≡ ok tt)
    × IsRestored "eth-0" "eth-0-replacement"
        (after rollback_replacement (replacing false verifying))
rollback-IsRestored_example =
    rollback-IsRestored (replacing false verifying) (instance_with (annotations_in verifying))
      (running_pod true) (λ k. refl) refl (ground (arith, eq_iff "eth-0-replacement" ""))
      (ground (arith, eq_iff "eth-0" "")) pods_differ refl
