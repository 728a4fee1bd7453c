-- ===== src/Controller/NodeHealth.antt =====
-- internal/controller/nodehealth_controller.go. A result is the time after which the resource is
-- to be looked at again, 0 for the empty ctrl.Result.
pub mod Progress
pub mod Waiting
use Prim.Native.String.{◌++◌}
use chainplane.Prelude.{ℕ, ◌*◌, Bool, true, false, ◌||◌, String, not, str_eq, if◌then◌else◌}
use chainplane.Errors.{Result, ok, err, is_not_found}
use chainplane.Api.{Chain, ChainInstance, NodePhase, healthy, syncing, degraded}
use chainplane.Time.{second}
use chainplane.Kube.{Action, World, pure, raise, gets, attempt, modify, ◌>>=◌, ◌>>◌, get_instance}
use chainplane.Health.Chain.{
  BlockchainType, ethereum, solana, chain_ethereum, chain_ethereum_archive, chain_solana,
}
use chainplane.Health.Trigger.{is_healthy}
use chainplane.Health.Replacement.{
  ReplacementPhase, ReplacementManager, draining, creating, verifying, rolling_back,
  is_replacement_in_progress, get_replacement_phase, start_replacement, monitor_replacement,
  complete_replacement, rollback_replacement,
}

abbrev pub health_polling_interval : ℕ
health_polling_interval = 60 * second

abbrev pub replacement_polling_interval : ℕ
replacement_polling_interval = 30 * second

-- isCheckablePhase
unfoldable pub is_checkable_phase : NodePhase → Bool
is_checkable_phase healthy = true
is_checkable_phase syncing = true
is_checkable_phase degraded = true
is_checkable_phase _ = false

-- mapChainToHealthType
unfoldable pub map_chain_to_health_type : Chain → BlockchainType
map_chain_to_health_type c =
    if str_eq c chain_ethereum || str_eq c chain_ethereum_archive
    then ethereum
    else if str_eq c chain_solana
    then solana
    else ethereum

-- evaluateTriggers
unfoldable pub evaluate_triggers : ReplacementManager → Action ℕ
evaluate_triggers r = do
  node ← gets (λ w. w.node)
  now ← gets (λ w. w.now)
  if is_healthy (r.check_all now (node.name ++ "-0") (map_chain_to_health_type node.spec.chain))
      then pure health_polling_interval
      else (do start_replacement r; pure replacement_polling_interval)

-- The end of handleVerifying, for a pod that is ready.
unfoldable pub complete_verified : ReplacementManager → Action ℕ
complete_verified r = do complete_replacement r; pure health_polling_interval

-- What handleVerifying does with the answer of the monitor.
unfoldable pub act_on_monitor : ReplacementManager → Result Bool → Action ℕ
act_on_monitor r (ok true) = complete_verified r
act_on_monitor r (ok false) = pure replacement_polling_interval
act_on_monitor r (err e) = do rollback_replacement; pure health_polling_interval

-- handleVerifying
unfoldable pub handle_verifying : ReplacementManager → Action ℕ
handle_verifying r = do monitored ← attempt (monitor_replacement r); act_on_monitor r monitored

-- The switch of advanceReplacement.
unfoldable pub advance_from : ReplacementManager → ReplacementPhase → Action ℕ
advance_from r phase =
    if str_eq phase verifying
    then handle_verifying r
    else if str_eq phase draining || str_eq phase creating
    then pure replacement_polling_interval
    else if str_eq phase rolling_back
    then (do rollback_replacement; pure health_polling_interval)
    else (do _ ← attempt rollback_replacement; pure health_polling_interval)

-- advanceReplacement
unfoldable pub advance_replacement : ReplacementManager → Action ℕ
advance_replacement r = do node ← gets (λ w. w.node); advance_from r (get_replacement_phase node)

-- The part of Reconcile that follows the fetch.
unfoldable pub reconcile_node : ReplacementManager → Action ℕ
reconcile_node r = do
  node ← gets (λ w. w.node)
  if node.deleting
      then pure 0
      else if not (is_checkable_phase node.status.phase)
      then pure health_polling_interval
      else if is_replacement_in_progress node
      then advance_replacement r
      else evaluate_triggers r

-- What Reconcile does with the fetched resource.
unfoldable pub reconcile_fetched : ReplacementManager → Result ChainInstance → Action ℕ
reconcile_fetched r (ok node) = do modify (λ w. record w { node = node }); reconcile_node r
reconcile_fetched r (err e) = if is_not_found e then pure 0 else raise e

-- Reconcile
unfoldable pub reconcile : ReplacementManager → Action ℕ
reconcile r = do fetched ← attempt get_instance; reconcile_fetched r fetched
