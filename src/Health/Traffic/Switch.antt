-- ===== src/Health/Traffic/Switch.antt =====
-- A switch of traffic that succeeds has moved it.
use chainplane.Prelude.{
  ◌≡◌, ◌≢◌, ◌⊎◌, inl, inr, ◌∙◌, ℕ, String, none, some, arith, eq_iff, eq_refl, get, Option-cases,
}
use chainplane.Errors.{ok}
use chainplane.Kube.{World, Pod, get_pod, patch_pod_label, wait}
use chainplane.Kube.Inversion.{bind-ok}
use chainplane.Health.Replacement.{label_ready}
use chainplane.Health.Replacement.Laws.{IsServing}
use chainplane.Health.Traffic.{
  label_propagation_delay, set_pod_label, remove_from_service, switch_traffic,
}
use chainplane.Health.Traffic.Effects.{set_pod_label-IsServing}

-- The pod is gone, or labelled not ready.
abbrev pub IsOut : String → World → Type 0
IsOut name w =
    (w.pods name ≡ none)
    ⊎ ((p : Pod) × (w.pods name ≡ some p) × (get p.labels label_ready ≡ "false"))

remove-IsOut :
    (old : String) (w w' : World) → remove_from_service old w ≡ (ok tt, w') → IsOut old w'
unfolding remove_from_service set_pod_label get_pod patch_pod_label
remove-IsOut old w w' h = elim (Option-cases (w'.pods old)) [
  | inl e ↦ inl e
  | inr (p, e) ↦ inr (p, e, ground (arith, eq_refl old))
]

set_pod_label_others :
    (name key value : String) (w : World) (j : String)
    → j ≢ name
    → (set_pod_label name key value w).1.pods j ≡ w.pods j
unfolding set_pod_label get_pod patch_pod_label
set_pod_label_others name key value w j ne = ground (arith, eq_iff j name)

wait_pods : (d : ℕ) (w : World) (j : String) → (wait d w).1.pods j ≡ w.pods j
unfolding wait
wait_pods d w j = ground arith

IsOut-same :
    (name : String) (w w' : World) → w'.pods name ≡ w.pods name → IsOut name w → IsOut name w'
IsOut-same name w w' e (inl gone) = inl (e ∙ gone)
IsOut-same name w w' e (inr (p, there, out)) = inr (p, e ∙ there, out)

-- If SwitchTraffic from one pod to another succeeds, the old one is gone or labelled not ready,
-- and the new one is there and labelled ready.
pub switch_traffic-IsOut :
    (old new : String) (w w' : World)
    → old ≢ new
    → switch_traffic old new w ≡ (ok tt, w')
    → IsOut old w' × IsServing new w'
unfolding switch_traffic
switch_traffic-IsOut old new w w' ne h =
    let (_, u, e₁, h₁) = bind-ok (remove_from_service old) _ w h in
    let (_, v, e₂, h₂) = bind-ok (wait label_propagation_delay) _ u h₁ in
    let waited = wait_pods label_propagation_delay u old in
    let labelled = set_pod_label_others new label_ready "true" v old ne in
    (
      IsOut-same old u w' (ground arith) (remove-IsOut old w u e₁),
      set_pod_label-IsServing new v w' h₂,
    )
