-- ===== src/Controller/NodeHealth/Waiting.antt =====
-- Passes of Reconcile that wait: for a replacement pod that is not well, and in the phase Completing.
use chainplane.Prelude.{◌≡◌, ◌≢◌, refl, suc, String, true, false, none, some, arith}
use chainplane.Errors.{ok}
use chainplane.Api.{ChainInstance}
use chainplane.Kube.{World, get_instance}
use chainplane.Health.Trigger.{is_healthy}
use chainplane.Health.Replacement.{
  ReplacementManager, verifying, completing, annotation_phase, annotation_pod, node_annotation,
  is_replacement_in_progress, get_replacement_phase, old_pod_of, monitor_replacement,
}
use chainplane.Health.Replacement.Monitor.{IsWell, monitor_unwell, monitor-Unchanged}
use chainplane.Controller.NodeHealth.{
  map_chain_to_health_type, evaluate_triggers, act_on_monitor, handle_verifying, advance_from,
  reconcile_node, reconcile_fetched, reconcile,
}
use chainplane.Controller.NodeHealth.Progress.{SameObjects, reconcile_node_cases, in_progress}

-- The state in which a pass looks at the resource that it has fetched.
abbrev pub fetched : ChainInstance → World → World
fetched n w = record w { calls = suc w.calls; node = n }

handle_unwell :
    (r : ReplacementManager) (w : World)
    → (monitor_replacement r w).0 ≡ ok false
    → SameObjects w (handle_verifying r w).1
unfolding handle_verifying act_on_monitor
handle_unwell r w h = let same = monitor-Unchanged r w in ground arith

advance-verifying :
    (r : ReplacementManager) (p : String) (w : World)
    → p ≡ verifying
    → (monitor_replacement r w).0 ≡ ok false
    → SameObjects w (advance_from r p w).1
unfolding advance_from
advance-verifying r p w e h = rw e (handle_unwell r w h)

-- A replacement pod that is not well is waited for, at whatever time: while the resource is in the
-- phase Verifying, names a pod that fails a health check, and the fetch of that pod does not fail,
-- a pass of Reconcile changes no object. It neither rolls back nor gives up after SyncTimeout.
pub unwell_waits :
    (r : ReplacementManager) (w : World) (n : ChainInstance)
    → w.stored ≡ some n
    → node_annotation n annotation_phase ≡ verifying
    → node_annotation n annotation_pod ≢ ""
    → ¬ IsWell r (fetched n w)
    → w.fault (suc w.calls) ≡ none
    → SameObjects w (reconcile r w).1
unfolding reconcile get_instance reconcile_fetched get_replacement_phase
unwell_waits r w n stored phase named ill calm =
    let v = fetched n w in
    let waits = monitor_unwell r v (record { phase = phase; named = named }) ill calm in
    let kept : SameObjects v (reconcile_node r v).1 =
      reconcile_node_cases (SameObjects v) r v
        (record { stored = refl; pods = refl; claims = refl })
        (λ _. advance-verifying r _ v phase waits)
        λ free. absurd (cc (free, in_progress n verifying phase refl refl)) in
    ground arith

not_in_progress :
    (n : ChainInstance)
    → node_annotation n annotation_phase ≡ completing
    → is_replacement_in_progress n ≡ false
unfolding is_replacement_in_progress
not_in_progress n e = rw e

-- A completion that has failed is not taken up again: while the resource is in the phase
-- Completing, a pass that finds no trigger firing on the old pod changes no object.
pub completing_not_resumed :
    (r : ReplacementManager) (w : World) (n : ChainInstance)
    → w.stored ≡ some n
    → node_annotation n annotation_phase ≡ completing
    → is_healthy (r.check_all w.now (old_pod_of n) (map_chain_to_health_type n.spec.chain)) ≡ true
    → SameObjects w (reconcile r w).1
unfolding reconcile get_instance reconcile_fetched evaluate_triggers
completing_not_resumed r w n stored phase calm =
    let v = fetched n w in
    let kept : SameObjects v (reconcile_node r v).1 =
      reconcile_node_cases (SameObjects v) r v
        (record { stored = refl; pods = refl; claims = refl })
        (λ busy. absurd (cc (busy, not_in_progress n phase)))
        λ _. rw calm (record { stored = refl; pods = refl; claims = refl }) in
    ground arith
