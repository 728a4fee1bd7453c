-- ===== src/Health/Replacement/Start.antt =====
-- StartReplacement: what a run that succeeds has done.
use chainplane.Prelude.{List, [], ◌∷◌, Option-cases, ◌≡◌, inl, inr, ◌/◌, String, some, arith}
use chainplane.Errors.{ok}
use chainplane.Api.{ChainInstance}
use chainplane.Time.{second}
use chainplane.Kube.{◌>>◌, ◌>>=◌, World, Pod}
use chainplane.Kube.Inversion.{run_eq}
use chainplane.Health.Replacement.Defs.{
  ReplacementManager, draining, creating, verifying, annotation_phase, annotation_pod,
  annotation_old_pod, annotation_started_at, node_annotation, old_pod_of, replacement_of,
}
use chainplane.Health.Replacement.Helpers.{
  insert_all, label_pod, merge_annotations, spawn_replacement_pod,
}
use chainplane.Health.Replacement.Annotations.{Annotated, merge-Annotated}
use chainplane.Health.Replacement.Pods.{Spawned, Spawned-pod, spawn-Spawned}
use chainplane.Health.Replacement.Laws.{SameResource, Lawful}
use chainplane.Health.Replacement.Workflow.{
  phase_only, create_replacement, cordon, drain_traffic, start_replacement,
}

pub cordon-SameResource : (old : String) (w : World) → SameResource w (cordon old w).1
unfolding cordon label_pod chainplane.Kube.get_pod chainplane.Kube.patch_pod_label
cordon-SameResource old w = ground arith

pub drain-SameResource :
    (r : ReplacementManager) (old : String) (w : World)
    → Lawful r.drainer
    → SameResource w (drain_traffic r old w).1
unfolding drain_traffic
drain-SameResource r old w l = elim (Option-cases r.drainer) [
  | inl e ↦ ground arith
  | inr (d, e) ↦ rw (e, drain_traffic) ((rw e at l).drain-SameResource _ old w)
]

-- The drain step goes on after every error.
pub drain_traffic-ok :
    (r : ReplacementManager) (old : String) (w : World) → (drain_traffic r old w).0 ≡ ok tt
unfolding drain_traffic
drain_traffic-ok r old w = ground arith

merged :
    (ann : List (String × String)) (w : World)
    → (merge_annotations ann w).0 ≡ ok tt
    → Annotated (insert_all ann) w (merge_annotations ann w).1
merged ann w h = merge-Annotated ann w _ (run_eq (merge_annotations ann) w (ok tt) h)

spawned :
    (r : ReplacementManager) (old new : String) (w : World)
    → (spawn_replacement_pod r old new w).0 ≡ ok tt
    → Spawned r old new w (spawn_replacement_pod r old new w).1
spawned r old new w h =
    spawn-Spawned r old new w _ (run_eq (spawn_replacement_pod r old new) w (ok tt) h)

module _ (r : ReplacementManager) (w : World) where
  abbrev pub old_name : String
  old_name = old_pod_of w.node

  abbrev pub new_name : String
  new_name = replacement_of old_name

  abbrev pub names : List (String × String)
  names =
      (annotation_phase, draining)
      ∷ (annotation_old_pod, old_name)
      ∷ (annotation_pod, new_name)
      ∷ (annotation_started_at, r.time.format (w.now / second))
      ∷ []

  -- The states between the steps.
  abbrev marked : World
  marked = (merge_annotations names w).1

  abbrev cordoned : World
  cordoned = (cordon old_name marked).1

  abbrev drained : World
  drained = (drain_traffic r old_name cordoned).1

  abbrev advanced : World
  advanced = (merge_annotations (phase_only creating) drained).1

  abbrev cloned : World
  cloned = (spawn_replacement_pod r old_name new_name advanced).1

  -- A run that succeeds has succeeded at every step.
  start-steps :
      (w' : World)
      → start_replacement r w ≡ (ok tt, w')
      → ((merge_annotations names w).0 ≡ ok tt)
        × (create_replacement r old_name new_name drained ≡ (ok tt, w'))
  unfolding start_replacement
  start-steps w' h = ground arith

  create-steps :
      (w' : World)
      → create_replacement r old_name new_name drained ≡ (ok tt, w')
      → ((merge_annotations (phase_only creating) drained).0 ≡ ok tt)
        × ((spawn_replacement_pod r old_name new_name advanced).0 ≡ ok tt)
        × (merge_annotations (phase_only verifying) cloned ≡ (ok tt, w'))
  unfolding create_replacement
  create-steps w' h = ground arith

-- The state after a successful start.
pub record Started (r : ReplacementManager) (w w' : World) : Type 0 where
  pub resource : ChainInstance
  pub stored : w'.stored ≡ some resource
  pub copied : w'.node.annotations ≡ resource.annotations
  pub phase : node_annotation resource annotation_phase ≡ verifying
  pub old_pod : node_annotation resource annotation_old_pod ≡ old_pod_of w.node
  pub new_pod : node_annotation resource annotation_pod ≡ replacement_of (old_pod_of w.node)
  pub started_at : node_annotation resource annotation_started_at ≡ r.time.format (w.now / second)
  pub pod : Pod
  pub spawned : w'.pods (replacement_of (old_pod_of w.node)) ≡ some pod

-- With a lawful drainer: if StartReplacement succeeds, then the server's resource is in the phase
-- Verifying and names the old pod, the replacement and the time of the start, the caller's copy
-- has the same annotations, and the replacement pod is there.
pub start-Started :
    (r : ReplacementManager) (w w' : World)
    → Lawful r.drainer
    → start_replacement r w ≡ (ok tt, w')
    → Started r w w'
unfolding start_replacement
start-Started r w w' l h =
    let (o₁, made) = start-steps r w w' h in
    let (o₄, o₅, o₆) = create-steps r w w' made in
    let m₁ = merged (names r w) w o₁ in
    let m₄ = merged (phase_only creating) (drained r w) o₄ in
    let m₅ = spawned r (old_name r w) (new_name r w) (advanced r w) o₅ in
    let m₆ = merge-Annotated (phase_only verifying) (cloned r w) w' o₆ in
    let s₂ = cordon-SameResource (old_name r w) (marked r w) in
    let s₃ = drain-SameResource r (old_name r w) (cordoned r w) l in
    let (p, there) = Spawned-pod r (old_name r w) (new_name r w) m₅ in
    record {
      resource = record m₆.before {
        annotations = insert_all (phase_only verifying) m₆.before.annotations;
      };
      stored = m₆.stored;
      copied = ground arith;
      phase = ground arith;
      old_pod = ground arith;
      new_pod = ground arith;
      started_at = ground arith;
      pod = p;
      spawned = ground arith;
    }
