-- ===== src/Health/Replacement/Complete.antt =====
-- CompleteReplacement: no old pod is deleted before the new one serves.
use chainplane.Prelude.{
  ap, sym, subst₂, ◌||◌, Map, ◌≡◌, ◌≢◌, ◌⊎◌, inl, inr, ◌∙◌, String, false, none, some, arith,
  eq_iff, Bool-cases, str_eq,
}
use chainplane.Errors.{in_phase, Result, ok}
use chainplane.Api.{ChainInstance}
use chainplane.Kube.{World, Pod}
use chainplane.Kube.Inversion.{catch-raise-ok, catch-raise-err, bind_rule, run_cases}
use chainplane.Health.Replacement.Defs.{
  Drainer, ReplacementManager, completing, annotation_pod, annotation_old_pod, node_annotation,
}
use chainplane.Health.Replacement.Helpers.{remove_pod, merge_annotations}
use chainplane.Health.Replacement.Annotations.{clear_pods, merge-Annotated, merge-Unchanged}
use chainplane.Health.Replacement.Pods.{
  SameRest, remove-gone, remove-Unchanged, remove_pvc-SamePods,
}
use chainplane.Health.Replacement.Laws.{IsServing, SameResource, DrainerLaws}
use chainplane.Health.Replacement.Workflow.{
  phase_only, failing_in, switch_over, clean_up, retire_old, finish_replacement, complete_marked,
  complete_replacement,
}

clean_up-same :
    (r : ReplacementManager) (old : String) (w : World)
    → ((clean_up r old w).0 ≡ ok tt)
      × ((clean_up r old w).1.pods ≡ w.pods)
      × SameRest w (clean_up r old w).1
unfolding clean_up
clean_up-same r old w = ground (arith, remove_pvc-SamePods old w)

IsServing-same :
    (name : String) (w w' : World)
    → w'.pods name ≡ w.pods name
    → IsServing name w
    → IsServing name w'
IsServing-same name w w' e s = record {
  pod = s.pod;
  is_there = e ∙ s.is_there;
  is_ready = s.is_ready;
}

-- The retirement of the old pod touches no other pod, whatever calls fail.
retire_others :
    (r : ReplacementManager) (old : String) (w : World) (j : String)
    → str_eq j old ≡ false
    → (retire_old r old w).1.pods j ≡ w.pods j
unfolding retire_old
retire_others r old w j ne = elim (run_cases (remove_pod old) w) [
  | inr (x, v, e) ↦ let same = remove-Unchanged old w v e in ground arith
  | inl (_, v, e) ↦
      let gone = (remove-gone old w v e).0 j in
      let (went_on, pods, _) = clean_up-same r old v in
      let cleared = clear_pods (clean_up r old v).1 in
      ground (arith, ap (λ (m : Map Pod). m j) pods, ap (λ (m : Map Pod). m j) cleared)
]

str_ne : (a b : String) → a ≢ b → str_eq a b ≡ false
str_ne a b h = ground (arith, eq_iff a b)

-- The old pod is there, or the new one serves.
abbrev pub Covered : String → String → World → Type 0
Covered old new w = (w.pods old ≢ none) ⊎ IsServing new w

module _ (r : ReplacementManager) (d : Drainer) (drains : r.drainer ≡ some d)
    (l : DrainerLaws d) where
  switch-same : (old new : String) (w : World) → SameResource w (switch_over r old new w).1
  unfolding switch_over
  switch-same old new w = elim (run_cases (d.switch_traffic old new) w) [
    | inr (x, v, e) ↦ let s = l.switch-SameResource old new w in ground arith
    | inl (_, v, e) ↦
        let s = l.switch-SameResource old new w in
        let t = l.validate-SameResource new v in ground arith
  ]

  switch_kept :
      (old new : String) (w : World) (j : String)
      → w.pods j ≢ none
      → (switch_over r old new w).1.pods j ≢ none
  unfolding switch_over
  switch_kept old new w j h = elim (run_cases (d.switch_traffic old new) w) [
    | inr (x, v, e) ↦ let k = l.switch_keeps old new w j h in ground arith
    | inl (_, v, e) ↦
        let k = l.switch_keeps old new w j h in let t = l.validate_pods new v in ground arith
  ]

  switch_serves :
      (old new : String) (w : World)
      → (switch_over r old new w).0 ≡ ok tt
      → IsServing new (switch_over r old new w).1
  unfolding switch_over
  switch_serves old new w h = elim (run_cases (d.switch_traffic old new) w) [
    | inr (x, v, e) ↦ absurd (ground arith)
    | inl (_, v, e) ↦
        let s = l.switch-IsServing old new w v e in
        IsServing-same new v _ (let t = l.validate_pods new v in ground arith) s
  ]

  finish-Covered :
      (old new : String) (w : World)
      → old ≢ new
      → w.pods old ≢ none
      → Covered old new (finish_replacement r old new w).1
  unfolding finish_replacement
  finish-Covered old new w ne was =
      bind_rule (λ x. Covered old new x.1) (switch_over r old new) (λ _. retire_old r old) w
        (λ _ v e. inr (
          IsServing-same new v _ (retire_others r old v new (str_ne new old (λ x. ne (sym x))))
            (rw e at (switch_serves old new w (ap (λ (x : Result (Unit {0}) × World). x.0) e)))))
        (λ x v e. inl (rw e at (switch_kept old new w old was)))

complete_marked-Covered :
    (r : ReplacementManager) (d : Drainer) (w : World)
    → r.drainer ≡ some d
    → DrainerLaws d
    → node_annotation w.node annotation_old_pod ≢ node_annotation w.node annotation_pod
    → w.pods (node_annotation w.node annotation_old_pod) ≢ none
    → Covered
        (node_annotation w.node annotation_old_pod)
        (node_annotation w.node annotation_pod)
        (complete_marked r w).1
unfolding complete_marked
complete_marked-Covered r d w drains l ne was =
    let old = node_annotation w.node annotation_old_pod in
    let new = node_annotation w.node annotation_pod in
    elim (Bool-cases (str_eq old "" || str_eq new "")) [
      | inl missing ↦ rw missing (inl was)
      | inr named ↦ rw named (finish-Covered r d drains l old new w ne was)
    ]

-- With a lawful drainer, whatever calls fail: if the server's resource names two different pods
-- as the old and the new one, and the old one is there, then after CompleteReplacement the old one
-- is still there, or the new one is there and labelled ready.
pub complete-Covered :
    (r : ReplacementManager) (d : Drainer) (w : World) (n : ChainInstance)
    → r.drainer ≡ some d
    → DrainerLaws d
    → w.stored ≡ some n
    → node_annotation n annotation_old_pod ≢ node_annotation n annotation_pod
    → w.pods (node_annotation n annotation_old_pod) ≢ none
    → Covered
        (node_annotation n annotation_old_pod)
        (node_annotation n annotation_pod)
        (complete_replacement r w).1
unfolding complete_replacement
complete-Covered r d w n drains l stored ne was =
    let old = node_annotation n annotation_old_pod in
    let new = node_annotation n annotation_pod in
    bind_rule (λ x. Covered old new x.1)
      (failing_in completing (merge_annotations (phase_only completing))) (λ _. complete_marked r) w
      (λ _ v e.
        let m =
          merge-Annotated (phase_only completing) w v (
            catch-raise-ok (merge_annotations (phase_only completing)) (in_phase completing) w e) in
        let same_old : node_annotation v.node annotation_old_pod ≡ old = ground arith in
        let same_new : node_annotation v.node annotation_pod ≡ new = ground arith in
        let done : Covered (node_annotation v.node annotation_old_pod)
            (node_annotation v.node annotation_pod) (complete_marked r v).1 =
          complete_marked-Covered r d v drains l (rw (same_old, same_new) ne)
            (rw (same_old, m.pods) was) in
        subst₂ (λ a b. Covered a b (complete_marked r v).1) same_old same_new done)
      (λ x v e.
        let (y, failed) =
          catch-raise-err (merge_annotations (phase_only completing)) (in_phase completing) w e in
        let same = merge-Unchanged (phase_only completing) w v failed in inl (rw same was))
