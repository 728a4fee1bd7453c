-- ===== src/Tests/NodeHealth.antt =====
-- Passes of the health reconciler at a concrete cluster.
use chainplane.Prelude.{◌≡◌, ◌⊎◌, ℕ, true, false, arith, eq_iff, refl}
use chainplane.Kube.{World}
use chainplane.Health.Replacement.{verifying, completing}
use chainplane.Health.Replacement.Monitor.{IsWell}
use chainplane.Health.Trigger.{is_healthy}
use chainplane.Health.Traffic.Effects.{label_based-DrainerLaws}
use chainplane.Controller.NodeHealth.{reconcile}
use chainplane.Controller.NodeHealth.Progress.{SameObjects, passes, failed_start_sticks}
use chainplane.Controller.NodeHealth.Waiting.{fetched, unwell_waits, completing_not_resumed}
use chainplane.Tests.Data.{replacing, instance_with, annotations_in}
use chainplane.Tests.Replacement.{lawful_manager, broken, stuck, start_fails}

failed_start_sticks_example :
    (stuck.stored ≡ broken.stored) ⊎ ((k : ℕ) → SameObjects stuck (passes lawful_manager k stuck))
failed_start_sticks_example =
    failed_start_sticks lawful_manager broken stuck label_based-DrainerLaws start_fails

abbrev unready : World
unready = replacing false verifying

unready_lem : ¬ IsWell lawful_manager (fetched (instance_with (annotations_in verifying)) unready)
unready_lem h = ground arith

unwell_waits_example : SameObjects unready (reconcile lawful_manager unready).1
unwell_waits_example =
    unwell_waits lawful_manager unready (instance_with (annotations_in verifying)) refl refl
      (ground (arith, eq_iff "eth-0-replacement" "")) unready_lem refl

completing_not_resumed_example :
    SameObjects (replacing true completing) (reconcile lawful_manager (replacing true completing)).1
unfolding is_healthy
completing_not_resumed_example =
    completing_not_resumed lawful_manager (replacing true completing)
      (instance_with (annotations_in completing)) refl refl refl
