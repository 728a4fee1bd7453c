-- ===== src/Health/Replacement/Workflow.antt =====
-- The four exported methods of ReplacementManager.
use chainplane.Prelude.{
  ℕ, ◌+◌, ◌*◌, ◌/◌, String, Bool, true, false, none, some, List, [], ◌∷◌, ◌||◌, not, ltb, str_eq,
  if◌then◌else◌,
}
use chainplane.Errors.{
  Result, ok, err, is_not_found, annotation_missing, replacement_timeout, unexpected_phase,
  in_phase,
}
use chainplane.Api.{ChainInstance}
use chainplane.Time.{second}
use chainplane.Kube.{
  Action, Pod, pure, raise, gets, catch, attempt, ◌>>=◌, ◌>>◌, get_pod, delete_pod,
}
use chainplane.Health.Chain.{chain_to_blockchain_type}
use chainplane.Health.Trigger.{is_healthy}
use chainplane.Health.Replacement.Defs.{
  ReplacementPhase, ReplacementManager, draining, creating, verifying, completing, rolling_back,
  annotation_phase, annotation_pod, annotation_old_pod, annotation_started_at, label_ready,
  node_annotation, old_pod_of, replacement_of,
}
use chainplane.Health.Replacement.Helpers.{
  merge_annotations, clear_annotations, label_pod, spawn_replacement_pod, remove_pod, remove_pvc,
  containers_ready,
}

-- `return &PhaseError{Phase: p, Err: err}`
abbrev pub failing_in : {A : Type 0} → ReplacementPhase → Action A → Action A
failing_in p m = catch m λ e. raise (in_phase p e)

-- The annotations that record a phase.
abbrev pub phase_only : ReplacementPhase → List (String × String)
phase_only p = (annotation_phase, p) ∷ []

-- The cordon of the old pod: a pod that is gone needs none.
unfoldable pub cordon : String → Action (Unit {0})
cordon old =
    catch (label_pod old label_ready "false")
      λ e. if is_not_found e then pure tt else raise (in_phase draining e)

-- An error of the drainer is logged only; without a drainer the step is skipped.
unfoldable pub drain_traffic : ReplacementManager → String → Action (Unit {0})
drain_traffic r old = elim r.drainer [
  | none ↦ pure tt
  | some d ↦ do
    now ← gets (λ w. w.now)
    _ ← attempt (d.drain (some (now + r.cfg.drain_timeout)) old)
    pure tt
]

-- The part of StartReplacement that follows the drain.
unfoldable pub create_replacement : ReplacementManager → String → String → Action (Unit {0})
create_replacement r old new = do
  failing_in creating (merge_annotations (phase_only creating))
  failing_in creating (spawn_replacement_pod r old new)
  failing_in verifying (merge_annotations (phase_only verifying))

-- StartReplacement
unfoldable pub start_replacement : ReplacementManager → Action (Unit {0})
start_replacement r = do
  node ← gets (λ w. w.node)
  now ← gets (λ w. w.now)
  let old = old_pod_of node
  let new = replacement_of old
  failing_in draining (
      merge_annotations (
        (annotation_phase, draining)
        ∷ (annotation_old_pod, old)
        ∷ (annotation_pod, new)
        ∷ (annotation_started_at, r.time.format (now / second))
        ∷ []))
  cordon old
  drain_traffic r old
  create_replacement r old new

-- `time.Since(started) > r.cfg.SyncTimeout`, where the time stamp is there and can be read.
unfoldable pub sync_timed_out : ReplacementManager → ChainInstance → ℕ → Bool
sync_timed_out r node now =
    let ts = node_annotation node annotation_started_at in
    if str_eq ts "" then false else (elim (r.time.parse ts) [
      | none ↦ false
      | some started ↦ ltb (started * second + r.cfg.sync_timeout) now
    ])

-- The part of MonitorReplacement that follows the fetch of the pod.
unfoldable pub verify_pod : ReplacementManager → String → Pod → Action Bool
verify_pod r new pod = do
  node ← gets (λ w. w.node)
  now ← gets (λ w. w.now)
  if not (str_eq pod.phase "Running")
      then pure false
      else if not (containers_ready pod)
      then pure false
      else if not (is_healthy (r.check_all now new (chain_to_blockchain_type node.spec.chain)))
      then pure false
      else if sync_timed_out r node now
      then raise replacement_timeout
      else pure true

-- A pod that is not there yet is not an error.
unfoldable pub verify_fetched : ReplacementManager → String → Result Pod → Action Bool
verify_fetched r new (ok pod) = verify_pod r new pod
verify_fetched r new (err e) = if is_not_found e then pure false else raise e

unfoldable pub fetch_and_verify : ReplacementManager → String → Action Bool
fetch_and_verify r new = do fetched ← attempt (get_pod new); verify_fetched r new fetched

-- MonitorReplacement
unfoldable pub monitor_replacement : ReplacementManager → Action Bool
monitor_replacement r = do
  node ← gets (λ w. w.node)
  let phase = node_annotation node annotation_phase
  let new = node_annotation node annotation_pod
  if not (str_eq phase verifying)
      then raise (in_phase phase (unexpected_phase phase))
      else if str_eq new ""
      then raise annotation_missing
      else fetch_and_verify r new

-- The validation of the switched traffic is logged only.
unfoldable pub switch_over : ReplacementManager → String → String → Action (Unit {0})
switch_over r old new = elim r.drainer [
  | none ↦ do _ ← attempt (label_pod new label_ready "true"); pure tt
  | some d ↦ do
    failing_in completing (d.switch_traffic old new)
    _ ← attempt (d.validate_traffic new)
    pure tt
]

-- The optional clean-up of the old pod's volume; a failure is logged only.
unfoldable pub clean_up : ReplacementManager → String → Action (Unit {0})
clean_up r old = if r.cfg.cleanup_pvc then (do _ ← attempt (remove_pvc old); pure tt) else pure tt

-- The part of CompleteReplacement that follows the switch.
unfoldable pub retire_old : ReplacementManager → String → Action (Unit {0})
retire_old r old = do
  failing_in completing (remove_pod old)
  clean_up r old
  failing_in completing clear_annotations

-- The part of CompleteReplacement that follows the reading of the annotations.
unfoldable pub finish_replacement : ReplacementManager → String → String → Action (Unit {0})
finish_replacement r old new = do switch_over r old new; retire_old r old

-- The part of CompleteReplacement that follows the write of the phase.
unfoldable pub complete_marked : ReplacementManager → Action (Unit {0})
complete_marked r = do
  node ← gets (λ w. w.node)
  let old = node_annotation node annotation_old_pod
  let new = node_annotation node annotation_pod
  if str_eq old "" || str_eq new "" then raise annotation_missing else finish_replacement r old new

-- CompleteReplacement
unfoldable pub complete_replacement : ReplacementManager → Action (Unit {0})
complete_replacement r = do
  failing_in completing (merge_annotations (phase_only completing))
  complete_marked r

-- The replacement pod is deleted if it can be fetched; failures are logged only.
unfoldable pub discard_replacement : String → Action (Unit {0})
discard_replacement new =
    if str_eq new "" then pure tt else (do _ ← attempt (get_pod new >> delete_pod new); pure tt)

-- The old pod is marked ready again; a failure is logged only.
unfoldable pub restore_old : String → Action (Unit {0})
restore_old old =
    if str_eq old "" then pure tt else (do _ ← attempt (label_pod old label_ready "true"); pure tt)

-- The part of RollbackReplacement between its two writes.
unfoldable pub undo_replacement : Action (Unit {0})
undo_replacement = do
  node ← gets (λ w. w.node)
  discard_replacement (node_annotation node annotation_pod)
  restore_old (node_annotation node annotation_old_pod)

-- RollbackReplacement
unfoldable pub rollback_replacement : Action (Unit {0})
rollback_replacement = do
  failing_in rolling_back (merge_annotations (phase_only rolling_back))
  undo_replacement
  failing_in rolling_back clear_annotations
