-- ===== src/Tests/Operator.antt =====
-- The controllers of upgrades and of the health status at a concrete node.
use chainplane.Prelude.{
  ◌*◌, ◌/◌, ◌≡◌, ◌≢◌, ◌↔◌, refl, String, true, false, some, [], ◌∷◌, arith, eq_iff, get, insert,
  empty_map, Any,
}
use chainplane.Errors.{ok}
use chainplane.Api.{status_true, status_false, degraded}
use chainplane.Time.{second}
use chainplane.Kube.{
  World, Pod, StatefulSet, get_stateful_set, patch_stateful_set, patch_status, list_selected,
}
use chainplane.Controller.Conditions.{find_condition, upsert}
use chainplane.Controller.Upgrade.{
  annotation_last_image, annotation_last_client, annotation_previous_image, condition_upgrading,
  rewritten, persist_condition, resolve_image_for_upgrade, start_rolling_restart, crash_looping,
  restore_image, mark_degraded, rollback, is_upgrading, is_rolled_out, finish_rollout,
  verify_rollout_health, is_recorded, upgrade_set, upgrade_fetched, reconcile_upgrade, check_crash,
  has_crash_loop,
}
use chainplane.Controller.Upgrade.Rollout.{IsCurrent, HasStatus, Restarting, upgrade-Restarting}
use chainplane.Controller.Upgrade.Crash.{IsCrashing, crash_looping_iff}
use chainplane.Controller.Upgrade.RollbackLaws.{RolledBack, rollback-RolledBack, rollback_restarts}
use chainplane.Tests.Data.{tally_format, steady, running_pod}
use chainplane.Tests.Replacement.{after}

-- A set that runs one image after another.
abbrev set_at : String → StatefulSet
set_at last = record {
  annotations =
      insert annotation_last_image last (
        insert annotation_last_client "geth" (insert annotation_previous_image "geth:1" empty_map));
  template_annotations = empty_map;
  containers = record { name = "node"; image = "geth:2" } ∷ [];
  replicas = some 1;
  ready_replicas = 1;
  updated_replicas = 1;
}

abbrev cluster : StatefulSet → World
cluster s = record steady { stateful_set = some s; selected = running_pod true ∷ [] }

-- All that a pass of the upgrade reconciler calls.
unfoldable upgrades : Unit {0}
unfolding get_stateful_set patch_stateful_set patch_status list_selected find_condition upsert
    rewritten persist_condition resolve_image_for_upgrade start_rolling_restart crash_looping
    has_crash_loop restore_image mark_degraded rollback is_upgrading is_rolled_out finish_rollout
    check_crash verify_rollout_health is_recorded upgrade_set upgrade_fetched reconcile_upgrade
upgrades = tt

abbrev stale : World
stale = cluster (set_at "geth:2")

stale_lem : is_recorded stale.node (set_at "geth:2") ≡ false
unfolding upgrades
stale_lem = refl

restart_succeeds :
    reconcile_upgrade tally_format stale ≡ (ok tt, after (reconcile_upgrade tally_format) stale)
unfolding upgrades
restart_succeeds = refl

upgrade-Restarting_example :
    (s : StatefulSet) × ((after (reconcile_upgrade tally_format) stale).stateful_set ≡ some s)
    × Restarting
        (resolve_image_for_upgrade stale.node)
        "geth"
        (tally_format.format (3 * second / second))
        (set_at "geth:2")
        s
    × HasStatus condition_upgrading status_true (after (reconcile_upgrade tally_format) stale)
    × IsCurrent stale.node.spec (after (reconcile_upgrade tally_format) stale)
upgrade-Restarting_example =
    upgrade-Restarting tally_format (set_at "geth:2") stale
      (after (reconcile_upgrade tally_format) stale) refl refl stale_lem restart_succeeds

abbrev crashed : World
crashed = cluster (set_at "ethereum/geth")

abbrev rolled_back : World
rolled_back = after (rollback tally_format (set_at "ethereum/geth")) crashed

rollback_runs : rollback tally_format (set_at "ethereum/geth") crashed ≡ (ok tt, rolled_back)
unfolding upgrades
rollback_runs = refl

previous_named : get (set_at "ethereum/geth").annotations annotation_previous_image ≢ ""
previous_named = ground (arith, eq_iff "geth:1" "")

previous_differs :
    get (set_at "ethereum/geth").annotations annotation_previous_image
    ≢ resolve_image_for_upgrade crashed.node
unfolding resolve_image_for_upgrade
previous_differs = ground (arith, eq_iff "geth:1" "ethereum/geth")

rollback-RolledBack_example :
    (s : StatefulSet) × (rolled_back.stateful_set ≡ some s)
    × RolledBack "geth:1" (set_at "ethereum/geth") s
    × HasStatus condition_upgrading status_false rolled_back
    × (rolled_back.node.status.phase ≡ degraded)
    × IsCurrent crashed.node.spec rolled_back
rollback-RolledBack_example =
    rollback-RolledBack tally_format (set_at "ethereum/geth") crashed rolled_back refl refl
      previous_named rollback_runs

next_pass :
    reconcile_upgrade tally_format rolled_back
    ≡ (ok tt, after (reconcile_upgrade tally_format) rolled_back)
unfolding upgrades
next_pass = refl

rollback_restarts_example :
    (s : StatefulSet) × ((after (reconcile_upgrade tally_format) rolled_back).stateful_set ≡ some s)
    × (get s.annotations annotation_last_image ≡ resolve_image_for_upgrade crashed.node)
    × HasStatus condition_upgrading status_true (after (reconcile_upgrade tally_format) rolled_back)
rollback_restarts_example =
    rollback_restarts tally_format (set_at "ethereum/geth") crashed rolled_back
      (after (reconcile_upgrade tally_format) rolled_back) refl refl previous_named previous_differs
      rollback_runs next_pass

-- A rollout under way, with every replica ready.
abbrev upgraded : World
upgraded = after (reconcile_upgrade tally_format) stale

upgraded_lem : is_upgrading upgraded.node ≡ true
unfolding upgrades
upgraded_lem = refl

rolled_out_lem : is_rolled_out (set_at "ethereum/geth") ≡ true
unfolding upgrades
rolled_out_lem = refl

verify_succeeds :
    verify_rollout_health tally_format (set_at "ethereum/geth") upgraded
    ≡ (ok tt, after (verify_rollout_health tally_format (set_at "ethereum/geth")) upgraded)
unfolding upgrades
verify_succeeds = refl

abbrev crashing_pod : Pod
crashing_pod = record (running_pod false) {
  container_statuses =
      record {
        name = "node";
        image = "geth:2";
        ready = false;
        restart_count = 3;
        waiting = some "CrashLoopBackOff";
      }
      ∷ [];
}

crash_looping_iff_example :
    (crash_looping "geth:2" (crashing_pod ∷ []) ≡ true)
    ↔ Any (λ (p : Pod). Any (IsCrashing "geth:2") p.container_statuses) (crashing_pod ∷ [])
crash_looping_iff_example = crash_looping_iff "geth:2" (crashing_pod ∷ [])

crash_is_found : crash_looping "geth:2" (crashing_pod ∷ []) ≡ true
unfolding crash_looping
crash_is_found = refl
