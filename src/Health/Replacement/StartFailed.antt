-- ===== src/Health/Replacement/StartFailed.antt =====
-- StartReplacement: where a run that fails leaves the resource.
use chainplane.Prelude.{Map, ◌∙◌, List, get, ◌≡◌, refl, ◌⊎◌, inl, inr, String, some, arith}
use chainplane.Errors.{Error, err}
use chainplane.Api.{ChainInstance}
use chainplane.Kube.{◌>>◌, World}
use chainplane.Kube.Inversion.{run_cases}
use chainplane.Health.Replacement.Defs.{
  ReplacementManager, draining, creating, verifying, annotation_phase, node_annotation,
}
use chainplane.Health.Replacement.Helpers.{insert_all, merge_annotations, spawn_replacement_pod}
use chainplane.Health.Replacement.Annotations.{Annotated, merge-Annotated, merge-Unchanged}
use chainplane.Health.Replacement.Pods.{spawn-Spawned, spawn-Unchanged}
use chainplane.Health.Replacement.Laws.{Lawful}
use chainplane.Health.Replacement.Workflow.{
  phase_only, failing_in, create_replacement, cordon, drain_traffic, start_replacement,
}
use chainplane.Health.Replacement.Start.{
  cordon-SameResource, drain-SameResource, drain_traffic-ok, old_name, new_name, names,
}

-- The phase that is recorded on the server.
abbrev pub Recorded : String → World → Type 0
Recorded p w = (n : ChainInstance) × (w.stored ≡ some n) × (node_annotation n annotation_phase ≡ p)

recorded :
    (ann : List (String × String)) (p : String) {w w' : World}
    → Annotated (insert_all ann) w w'
    → ((m : Map String) → get (insert_all ann m) annotation_phase ≡ p)
    → Recorded p w'
recorded ann p {w} {w'} a h = (
  record a.before { annotations = insert_all ann a.before.annotations },
  a.stored,
  h a.before.annotations,
)

Recorded-same : (p : String) (w w' : World) → w'.stored ≡ w.stored → Recorded p w → Recorded p w'
Recorded-same p w w' same (n, e, h) = (n, same ∙ e, h)

-- The tail of a failed start, behind the write of the phase Creating.
spawn_stopped :
    (r : ReplacementManager) (old new : String) {e : Error} (w w' : World)
    → (failing_in creating (spawn_replacement_pod r old new)
          >> failing_in verifying (merge_annotations (phase_only verifying)))
        w
      ≡ (err e, w')
    → w'.stored ≡ w.stored
spawn_stopped r old new w w' h = elim (run_cases (spawn_replacement_pod r old new) w) [
  | inr (x, v, e) ↦ let same = spawn-Unchanged r old new w v e in ground arith
  | inl (_, v, e) ↦
      let rest = (spawn-Spawned r old new w v e).rest.stored in
      elim (run_cases (merge_annotations (phase_only verifying)) v) [
        | inr (x, u, d) ↦ let same = merge-Unchanged (phase_only verifying) v u d in ground arith
        | inl (_, u, d) ↦ absurd (ground arith)
      ]
]

create_stopped :
    (r : ReplacementManager) (old new : String) {e : Error} (w w' : World)
    → create_replacement r old new w ≡ (err e, w')
    → (w'.stored ≡ w.stored) ⊎ Recorded creating w'
unfolding create_replacement
create_stopped r old new {e = x₀} w w' h =
    elim (run_cases (merge_annotations (phase_only creating)) w) [
      | inr (x, v, e) ↦ let same = merge-Unchanged (phase_only creating) w v e in inl (ground arith)
      | inl (_, v, e) ↦ inr (
          Recorded-same creating v w' (spawn_stopped r old new {e = x₀} v w' (ground arith)) (
            recorded (phase_only creating) creating (merge-Annotated (phase_only creating) w v e)
              (λ m. refl)))
    ]

-- The tail of a failed start, behind the first write.
stopped_late :
    (r : ReplacementManager) (old new : String) {e : Error} (w w' : World)
    → Lawful r.drainer
    → (cordon old >> (drain_traffic r old >> create_replacement r old new)) w ≡ (err e, w')
    → (w'.stored ≡ w.stored) ⊎ Recorded creating w'
stopped_late r old new {e} w w' l h =
    let s₂ = (cordon-SameResource old w).stored in
    let v = (cordon old w).1 in
    let s₃ = (drain-SameResource r old v l).stored in
    let went_on = drain_traffic-ok r old v in
    elim (run_cases (cordon old) w) [
      | inr (x, v₂, e₂) ↦ inl (ground arith)
      | inl (_, v₂, e₂) ↦
          let u = (drain_traffic r old v).1 in
          let stop : create_replacement r old new u ≡ (err e, w') = ground arith in
          elim (create_stopped r old new u w' stop) [
            | inl same ↦ inl (same ∙ s₃ ∙ s₂)
            | inr c ↦ inr c
          ]
    ]

-- With a lawful drainer: if StartReplacement fails, whatever calls fail, either it has not changed the resource on the
-- server, or it leaves it in the phase Draining or in the phase Creating.
pub start-failed :
    (r : ReplacementManager) {e : Error} (w w' : World)
    → Lawful r.drainer
    → start_replacement r w ≡ (err e, w')
    → (w'.stored ≡ w.stored) ⊎ Recorded draining w' ⊎ Recorded creating w'
unfolding start_replacement
start-failed r {e} w w' l h = elim (run_cases (merge_annotations (names r w)) w) [
  | inr (x, v, e₁) ↦ let same = merge-Unchanged (names r w) w v e₁ in inl (ground arith)
  | inl (_, v, e₁) ↦
      elim (stopped_late r (old_name r w) (new_name r w) {e = e} v w' l (ground arith)) [
        | inl same ↦ inr (
            inl (
              Recorded-same draining v w' same
                (recorded (names r w) draining (merge-Annotated (names r w) w v e₁) (λ m. refl))))
        | inr c ↦ inr (inr c)
      ]
]
