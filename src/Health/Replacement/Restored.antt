-- ===== src/Health/Replacement/Restored.antt =====
-- RollbackReplacement: what it restores when no call fails.
use chainplane.Prelude.{
  subst₂, ap, sym, Map, ◌≡◌, ◌≢◌, refl, ◌∙◌, ℕ, String, Option, none, some, arith,
}
use chainplane.Errors.{ok}
use chainplane.Api.{ChainInstance}
use chainplane.Kube.{IsCalm, World, Pod, Fault}
use chainplane.Kube.Inversion.{run_eq}
use chainplane.Health.Replacement.Defs.{
  rolling_back, annotation_pod, annotation_old_pod, node_annotation,
}
use chainplane.Health.Replacement.Helpers.{clear_annotations, merge_annotations}
use chainplane.Health.Replacement.Annotations.{merge_calm, clear_calm, clear_pods, merge-Annotated}
use chainplane.Health.Replacement.Laws.{IsServing, SameResource}
use chainplane.Health.Replacement.Workflow.{phase_only, discard_replacement, rollback_replacement}
use chainplane.Health.Replacement.Rollback.{
  IsCleared, clear-IsCleared, discard_kept, discard-gone, discard-SameResource, restore_others,
  restore-IsServing, restore-SameResource, undone, undo_eq,
}

-- What a rollback restores when no call fails.
pub record IsRestored (old new : String) (w : World) : Type 0 where
  pub discarded : w.pods new ≡ none
  pub serving : IsServing old w
  pub cleared : IsCleared w

undone-SameResource : (w : World) → SameResource w (undone w)
unfolding undone
undone-SameResource w =
    let new = node_annotation w.node annotation_pod in
    let v = (discard_replacement new w).1 in
    let p = discard-SameResource new w in
    let q = restore-SameResource (node_annotation w.node annotation_old_pod) v in ground arith

module _ (w : World) (p : Pod) (calm : IsCalm w)
    (named : node_annotation w.node annotation_pod ≢ "")
    (named_old : node_annotation w.node annotation_old_pod ≢ "")
    (ne : node_annotation w.node annotation_old_pod ≢ node_annotation w.node annotation_pod)
    (there : w.pods (node_annotation w.node annotation_old_pod) ≡ some p) where
  undone-IsServing : IsServing (node_annotation w.node annotation_old_pod) (undone w)
  unfolding undone
  undone-IsServing =
      let new = node_annotation w.node annotation_pod in
      let old = node_annotation w.node annotation_old_pod in
      let v = (discard_replacement new w).1 in
      let same = (discard-SameResource new w).fault in
      restore-IsServing old v p (λ k. ap (λ (f : ℕ → Option Fault). f k) same ∙ calm k) named_old
        (discard_kept new w old ne ∙ there)

  undone-gone : (undone w).pods (node_annotation w.node annotation_pod) ≡ none
  unfolding undone
  undone-gone =
      let new = node_annotation w.node annotation_pod in
      let old = node_annotation w.node annotation_old_pod in
      restore_others old (discard_replacement new w).1 new (λ e. ne (sym e))
      ∙ discard-gone new w calm named

  undone-ends :
      (n : ChainInstance)
      → w.stored ≡ some n
      → let w' = (clear_annotations (undone w)).1 in
        ((clear_annotations (undone w)).0 ≡ ok tt)
        × IsRestored
            (node_annotation w.node annotation_old_pod)
            (node_annotation w.node annotation_pod)
            w'
  undone-ends n stored =
      let u = undone w in
      let same = undone-SameResource w in
      let calm' : IsCalm u = λ k. ap (λ (f : ℕ → Option Fault). f k) same.fault ∙ calm k in
      let done = clear_calm u n calm' (same.stored ∙ stored) in
      let at = λ (j : String). ap (λ (m : Map Pod). m j) (clear_pods u) in
      let s = undone-IsServing in
      (
        done,
        record {
          discarded = at (node_annotation w.node annotation_pod) ∙ undone-gone;
          serving = record {
            pod = s.pod;
            is_there = at (node_annotation w.node annotation_old_pod) ∙ s.is_there;
            is_ready = s.is_ready;
          };
          cleared =
              clear-IsCleared u (clear_annotations u).1 (run_eq clear_annotations u (ok tt) done);
        },
      )

-- If no call fails, and the server's resource names two different pods, of which the old one is
-- there, then RollbackReplacement succeeds: the replacement pod is gone, the old pod is labelled
-- ready, and no replacement annotation is left.
pub rollback-IsRestored :
    (w : World) (n : ChainInstance) (p : Pod)
    → IsCalm w
    → w.stored ≡ some n
    → node_annotation n annotation_pod ≢ ""
    → node_annotation n annotation_old_pod ≢ ""
    → node_annotation n annotation_old_pod ≢ node_annotation n annotation_pod
    → w.pods (node_annotation n annotation_old_pod) ≡ some p
    → ((rollback_replacement w).0 ≡ ok tt)
      × IsRestored
          (node_annotation n annotation_old_pod)
          (node_annotation n annotation_pod)
          (rollback_replacement w).1
unfolding rollback_replacement
rollback-IsRestored w n p calm stored named named_old ne there =
    let v = (merge_annotations (phase_only rolling_back) w).1 in
    let done = merge_calm (phase_only rolling_back) w n calm stored in
    let m =
      merge-Annotated (phase_only rolling_back) w v
        (run_eq (merge_annotations (phase_only rolling_back)) w (ok tt) done) in
    let same_new : node_annotation v.node annotation_pod ≡ node_annotation n annotation_pod =
      ground arith in
    let same_old : node_annotation v.node annotation_old_pod
        ≡ node_annotation n annotation_old_pod =
      ground arith in
    let calm' : IsCalm v = λ k. ap (λ (f : ℕ → Option Fault). f k) m.fault ∙ calm k in
    let (cleared, restored) =
      undone-ends v p calm' (rw same_new named) (rw same_old named_old) (rw (same_old, same_new) ne)
        (rw (same_old, m.pods) there) _ m.stored in
    let undo = undo_eq v in
    let run : rollback_replacement w ≡ (ok tt, (clear_annotations (undone v)).1) = ground arith in
    rw run (
      refl,
      subst₂ (λ a b. IsRestored a b (clear_annotations (undone v)).1) same_old same_new restored,
    )
