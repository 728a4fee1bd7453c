-- ===== src/Health/Replacement/Rollback.antt =====
-- RollbackReplacement: what it clears, and what it never touches.
use chainplane.Prelude.{
  suc, ap, Map, ◌≡◌, ◌≢◌, refl, String, none, some, arith, eq_iff, eq_refl, insert,
}
use chainplane.Errors.{ok, in_phase}
use chainplane.Api.{ChainInstance}
use chainplane.Kube.{IsCalm, World, Pod, ◌>>◌, get_pod, delete_pod, patch_pod_label}
use chainplane.Kube.Inversion.{bind_rule, catch-raise-ok, catch-raise-err}
use chainplane.Health.Replacement.Defs.{
  rolling_back, annotation_phase, annotation_pod, annotation_old_pod, annotation_started_at,
  label_ready, node_annotation,
}
use chainplane.Health.Replacement.Helpers.{
  label_pod, clear_annotations, merge_annotations, erase_all,
}
use chainplane.Health.Replacement.Annotations.{
  clear_pods, merge-Annotated, merge-Unchanged, clear-Annotated,
}
use chainplane.Health.Replacement.Laws.{IsServing, SameResource}
use chainplane.Health.Replacement.Workflow.{
  phase_only, failing_in, discard_replacement, restore_old, undo_replacement, rollback_replacement,
}

-- The resource records no replacement any more, and the caller's copy agrees.
pub record IsCleared (w : World) : Type 0 where
  pub resource : ChainInstance
  pub stored : w.stored ≡ some resource
  pub copied : w.node.annotations ≡ resource.annotations
  pub no_phase : resource.annotations annotation_phase ≡ none
  pub no_pod : resource.annotations annotation_pod ≡ none
  pub no_old_pod : resource.annotations annotation_old_pod ≡ none
  pub no_start : resource.annotations annotation_started_at ≡ none

pub clear-IsCleared : (w w' : World) → clear_annotations w ≡ (ok tt, w') → IsCleared w'
clear-IsCleared w w' h =
    let a = clear-Annotated w w' h in
    record {
      resource = record a.before { annotations = erase_all a.before.annotations };
      stored = a.stored;
      copied = ground arith;
      no_phase = refl;
      no_pod = refl;
      no_old_pod = refl;
      no_start = refl;
    }

pub discard_kept :
    (new : String) (w : World) (j : String)
    → j ≢ new
    → (discard_replacement new w).1.pods j ≡ w.pods j
unfolding discard_replacement get_pod delete_pod
discard_kept new w j ne = ground (arith, eq_iff j new)

pub discard-gone :
    (new : String) (w : World) → IsCalm w → new ≢ "" → (discard_replacement new w).1.pods new ≡ none
unfolding discard_replacement get_pod delete_pod
discard-gone new w calm ne =
    ground (arith, calm w.calls, calm (suc w.calls), eq_iff new "", eq_refl new)

pub discard-SameResource : (new : String) (w : World) → SameResource w (discard_replacement new w).1
unfolding discard_replacement get_pod delete_pod
discard-SameResource new w = ground arith

discard-ok : (new : String) (w : World) → (discard_replacement new w).0 ≡ ok tt
unfolding discard_replacement
discard-ok new w = ground arith

restore_kept :
    (old : String) (w : World) (j : String) → w.pods j ≢ none → (restore_old old w).1.pods j ≢ none
unfolding restore_old label_pod get_pod patch_pod_label
restore_kept old w j there = ground (arith, eq_iff j old)

pub restore_others :
    (old : String) (w : World) (j : String) → j ≢ old → (restore_old old w).1.pods j ≡ w.pods j
unfolding restore_old label_pod get_pod patch_pod_label
restore_others old w j ne = ground (arith, eq_iff j old)

pub restore-IsServing :
    (old : String) (w : World) (p : Pod)
    → IsCalm w
    → old ≢ ""
    → w.pods old ≡ some p
    → IsServing old (restore_old old w).1
unfolding restore_old label_pod get_pod patch_pod_label
restore-IsServing old w p calm ne there = record {
  pod = record p { labels = insert label_ready "true" p.labels };
  is_there = ground (arith, calm w.calls, calm (suc w.calls), eq_iff old "", eq_refl old);
  is_ready = refl;
}

pub restore-SameResource : (old : String) (w : World) → SameResource w (restore_old old w).1
unfolding restore_old label_pod get_pod patch_pod_label
restore-SameResource old w = ground arith

restore-ok : (old : String) (w : World) → (restore_old old w).0 ≡ ok tt
unfolding restore_old
restore-ok old w = ground arith

-- The state between the two writes of a rollback.
unfoldable pub undone : World → World
undone w =
    (restore_old (node_annotation w.node annotation_old_pod)
      (discard_replacement (node_annotation w.node annotation_pod) w).1).1

pub undo_eq : (w : World) → undo_replacement w ≡ (ok tt, undone w)
unfolding undo_replacement undone
undo_eq w =
    let new = node_annotation w.node annotation_pod in
    let old = node_annotation w.node annotation_old_pod in
    let v = (discard_replacement new w).1 in
    let u = discard-SameResource new w in ground (arith, discard-ok new w, restore-ok old v)

-- If RollbackReplacement succeeds, whatever calls failed on the way, then no replacement
-- annotation is left on the server's resource, and the caller's copy has the same annotations.
pub rollback-IsCleared : (w w' : World) → rollback_replacement w ≡ (ok tt, w') → IsCleared w'
unfolding rollback_replacement
rollback-IsCleared w w' h =
    let v = (failing_in rolling_back (merge_annotations (phase_only rolling_back)) w).1 in
    let undo = undo_eq v in
    let cleared : failing_in rolling_back clear_annotations (undone v) ≡ (ok tt, w') =
      ground arith in
    clear-IsCleared (undone v) w'
      (catch-raise-ok clear_annotations (in_phase rolling_back) (undone v) cleared)

undone_keeps :
    (w : World) (j : String)
    → j ≢ node_annotation w.node annotation_pod
    → w.pods j ≢ none
    → (undone w).pods j ≢ none
unfolding undone
undone_keeps w j ne there =
    let new = node_annotation w.node annotation_pod in
    restore_kept (node_annotation w.node annotation_old_pod) (discard_replacement new w).1 j
      (rw (discard_kept new w j ne) there)

-- Whatever calls fail: RollbackReplacement takes away no pod but the one that the server's
-- resource names as the replacement.
pub rollback_keeps :
    (w : World) (n : ChainInstance) (j : String)
    → w.stored ≡ some n
    → j ≢ node_annotation n annotation_pod
    → w.pods j ≢ none
    → (rollback_replacement w).1.pods j ≢ none
unfolding rollback_replacement
rollback_keeps w n j stored ne there =
    bind_rule (λ x. x.1.pods j ≢ none)
      (failing_in rolling_back (merge_annotations (phase_only rolling_back)))
      (λ _. undo_replacement >> failing_in rolling_back clear_annotations) w
      (λ _ v e.
        let m = merge-Annotated (phase_only rolling_back) w v (
          catch-raise-ok (merge_annotations (phase_only rolling_back)) (in_phase rolling_back) w
            e) in
        let same : node_annotation v.node annotation_pod ≡ node_annotation n annotation_pod =
          ground arith in
        let kept = undone_keeps v j (rw same ne) (rw m.pods there) in
        let undo = undo_eq v in
        let cleared = ap (λ (p : Map Pod). p j) (clear_pods (undone v)) in ground arith)
      (λ x v e.
        let (y, failed) =
          catch-raise-err (merge_annotations (phase_only rolling_back)) (in_phase rolling_back) w
            e in
        let same = merge-Unchanged (phase_only rolling_back) w v failed in rw same there)
