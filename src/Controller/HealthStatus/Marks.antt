-- ===== src/Controller/HealthStatus/Marks.antt =====
-- internal/controller/reconcile_health.go: the fields of the status that the branches of the refresh
-- set.
use chainplane.Prelude.{ℕ, String}
use chainplane.Api.{ChainInstance, NodePhase, degraded, status_true, status_false}
use chainplane.Controller.Conditions.{condition_ready, condition_degraded, set_condition}

abbrev pub with_phase : NodePhase → ChainInstance → ChainInstance
with_phase p node = record node { status = record node.status { phase = p } }

abbrev pub with_progress : String → ChainInstance → ChainInstance
with_progress text node = record node { status = record node.status { sync_progress = text } }

abbrev pub with_eta : String → ChainInstance → ChainInstance
with_eta text node = record node { status = record node.status { sync_eta = text } }

abbrev pub with_observed_generation : ChainInstance → ChainInstance
with_observed_generation node = record node {
  status = record node.status { observed_generation = node.generation };
}

-- The phase and the two conditions of a degraded node.
unfoldable pub degrade : String → String → String → ℕ → ChainInstance → ChainInstance
degrade reason message ready_message now node =
    set_condition condition_ready status_false reason ready_message now
      (set_condition condition_degraded status_true reason message now (with_phase degraded node))
