-- ===== src/Health/Replacement/Unmonitored.antt =====
-- MonitorReplacement with the Checker, while the metric backend cannot be reached.
use chainplane.Prelude.{ℕ, ◌≡◌, ◌↔◌, inl, String, true, false, Option, none, some}
use chainplane.Errors.{ok}
use chainplane.Time.{TimeFormat}
use chainplane.Float.{Float}
use chainplane.Kube.{World, Pod}
use chainplane.Health.Evaluator.{Checker, check_all}
use chainplane.Health.Evaluator.Firing.{healthy_iff}
use chainplane.Health.Replacement.Defs.{
  ReplacementManager, ReplacementConfig, Drainer, new_replacement_manager, annotation_pod,
  node_annotation,
}
use chainplane.Health.Replacement.Workflow.{monitor_replacement}
use chainplane.Health.Replacement.Monitor.{IsVerifying, IsReady, IsTimedOut, monitor_ready_iff}

-- The replacement pod runs and its containers are ready.
pub record IsRunning (w : World) : Type 0 where
  pub pod : Pod
  pub is_there : w.pods (node_annotation w.node annotation_pod) ≡ some pod
  pub runs : pod.phase ≡ "Running"
  pub is_ready : IsReady pod

module _ {F : Type 0} (float : Float F) (itoa : ℕ → String) (c : Checker F)
    (drainer : Option Drainer) (cfg : ReplacementConfig) (time : TimeFormat) where
  -- The manager of a Checker.
  abbrev pub checking : ReplacementManager
  checking = new_replacement_manager (check_all float itoa c) drainer cfg time

  -- While the backend cannot be reached, the monitor reports the replacement pod ready exactly when
  -- the workflow is verifying a named pod, the fetch does not fail, the pod runs with every
  -- container ready, and the time for it has not run out, whatever its sync lag, errors, latency,
  -- restarts and disk usage are.
  pub unmonitored_ready_iff :
      (w : World)
      → c.m.healthy w.now ≡ false
      → ((monitor_replacement checking w).0 ≡ ok true)
        ↔ (IsVerifying w × IsRunning w × (w.fault w.calls ≡ none) × (¬ IsTimedOut checking w))
  unfolding new_replacement_manager
  unmonitored_ready_iff w off = (
    λ h.
        let (v, p, f, t) = (monitor_ready_iff checking w).0 h in
        (
          v,
          record { pod = p.pod; is_there = p.is_there; runs = p.runs; is_ready = p.is_ready },
          f,
          t,
        ),
    λ (v, p, f, t).
        let calm = (healthy_iff float itoa c w.now _ _).1 (inl off) in
        (monitor_ready_iff checking w).1 (
          v,
          record {
            pod = p.pod;
            is_there = p.is_there;
            runs = p.runs;
            is_ready = p.is_ready;
            no_trigger = calm;
          },
          f,
          t,
        ),
  )
