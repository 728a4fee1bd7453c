-- ===== src/Health/Traffic/Effects.antt =====
-- The label-based traffic manager keeps the laws of a drainer.
use chainplane.Prelude.{
  leb, min, ◌-◌, ◌≡◌, ◌≢◌, String, ℕ, zero, suc, Option, none, arith, eq_iff, eq_refl, List, [],
  ◌∷◌, inl, inr, Bool-cases, Option-cases,
}
use chainplane.Errors.{is_not_found, Result, ok, err}
use chainplane.Kube.Inversion.{bind_rule, bind-ok}
use chainplane.Kube.{
  attempt, gets, ◌>>=◌, ◌>>◌, Action, World, Service, get_pod, patch_pod_label, list_services,
  list_slices, wait,
}
use chainplane.Health.Replacement.{label_ready}
use chainplane.Health.Replacement.Laws.{IsServing, SameResource, DrainerLaws}
use chainplane.Health.Traffic.{
  label_propagation_delay, drain_log_interval, set_pod_label, log_drain_status, wait_until,
  wait_with_progress, drain_marked, drain, drain_duration, remove_from_service, switch_traffic,
  pod_in_endpoints, matching, check_services, validate_traffic, label_based_traffic_manager,
}

-- The resource is left alone, and no pod goes away.
pub record Keeps (w w' : World) : Type 0 where
  pub resource : SameResource w w'
  pub pods : (j : String) → w.pods j ≢ none → w'.pods j ≢ none

pub Keeps-trans : {u v w : World} → Keeps u v → Keeps v w → Keeps u w
Keeps-trans p q = record { resource = ground arith; pods = λ j h. q.pods j (p.pods j h) }

pub set_pod_label-Keeps :
    (name key value : String) (w : World) → Keeps w (set_pod_label name key value w).1
unfolding set_pod_label get_pod patch_pod_label
set_pod_label-Keeps name key value w = record {
  resource = ground arith;
  pods = λ j h. ground (arith, eq_iff j name);
}

pub log-Keeps : (name : String) (w : World) → Keeps w (log_drain_status name w).1
unfolding log_drain_status get_pod
log-Keeps name w = record { resource = ground arith; pods = λ j h. ground arith }

wait-Keeps : (d : ℕ) (w : World) → Keeps w (wait d w).1
unfolding wait
wait-Keeps d w = record { resource = ground arith; pods = λ j h. ground arith }

pub set_pod_label-IsServing :
    (name : String) (w w' : World)
    → set_pod_label name label_ready "true" w ≡ (ok tt, w')
    → IsServing name w'
unfolding set_pod_label get_pod patch_pod_label
set_pod_label-IsServing name w w' h = elim (Option-cases (w'.pods name)) [
  | inl e ↦ absurd (ground (arith, eq_refl name))
  | inr (p, e) ↦ record { pod = p; is_there = e; is_ready = ground (arith, eq_refl name) }
]

-- A step that keeps, followed by one that does.
Keeps-bind :
    {A B : Type 0} (m : Action A) (f : A → Action B) (w : World)
    → Keeps w (m w).1
    → ((a : A) (v : World) → Keeps v (f a v).1)
    → Keeps w ((m >>= f) w).1
Keeps-bind m f w first rest =
    bind_rule (λ x. Keeps w x.1) m f w (λ a v e. Keeps-trans (rw e at first) (rest a v))
      (λ x v e. rw e at first)

Keeps-refl : (w : World) → Keeps w w
Keeps-refl w = record { resource = ground arith; pods = λ j h. h }

wait_until-Keeps : (fuel deadline : ℕ) (w : World) → Keeps w (wait_until fuel deadline w).1
unfolding wait_until
wait_until-Keeps zero deadline w = Keeps-refl w
wait_until-Keeps (suc fuel) deadline w = elim (Bool-cases (leb deadline w.now)) [
  | inl e ↦ rw e (Keeps-refl w)
  | inr e ↦ rw e (
      Keeps-bind (wait (min drain_log_interval (deadline - w.now))) (λ _. wait_until fuel deadline)
        w (wait-Keeps _ w) (λ _ v. wait_until-Keeps fuel deadline v))
]

drain_marked-Keeps :
    (deadline : Option ℕ) (pod : String) (x : Result (Unit {0})) (w : World)
    → Keeps w (drain_marked deadline pod x w).1
unfolding drain_marked wait_with_progress
drain_marked-Keeps deadline pod (ok _) w =
    Keeps-bind (log_drain_status pod)
      (λ _. gets (λ v. v.now) >>= λ now. wait_with_progress (drain_duration deadline now)) w
      (log-Keeps pod w) (λ _ v. wait_until-Keeps _ _ v)
drain_marked-Keeps deadline pod (err e) w = elim (Bool-cases (is_not_found e)) [
  | inl gone ↦ rw gone (Keeps-refl w)
  | inr other ↦ rw other (Keeps-refl w)
]

drain-Keeps : (deadline : Option ℕ) (pod : String) (w : World) → Keeps w (drain deadline pod w).1
unfolding drain
drain-Keeps deadline pod w =
    Keeps-bind (attempt (set_pod_label pod label_ready "false")) (drain_marked deadline pod) w
      (set_pod_label-Keeps pod label_ready "false" w) (λ x v. drain_marked-Keeps deadline pod x v)

remove-Keeps : (old : String) (w : World) → Keeps w (remove_from_service old w).1
unfolding remove_from_service
remove-Keeps old w =
    let k = set_pod_label-Keeps old label_ready "false" w in
    record { resource = ground arith; pods = λ j h. ground (arith, k.pods j h) }

switch-Keeps : (old new : String) (w : World) → Keeps w (switch_traffic old new w).1
unfolding switch_traffic
switch-Keeps old new w =
    Keeps-bind (remove_from_service old)
      (λ _. wait label_propagation_delay >> set_pod_label new label_ready "true") w
      (remove-Keeps old w)
      λ _ v.
        Keeps-bind (wait label_propagation_delay) (λ _. set_pod_label new label_ready "true") v
          (wait-Keeps _ v) (λ _ u. set_pod_label-Keeps new label_ready "true" u)

abbrev SameState : World → World → Type 0
SameState w w' = (w'.pods ≡ w.pods) × SameResource w w'

check_services-SameState :
    (ip : String) (ss : List Service) (w : World) → SameState w (check_services ip ss w).1
unfolding check_services pod_in_endpoints list_slices
check_services-SameState ip [] w = ground arith
check_services-SameState ip (s ∷ ss) w =
    ground (arith, check_services-SameState ip ss (record w { calls = suc w.calls }))

validate-SameState : (name : String) (w : World) → SameState w (validate_traffic name w).1
unfolding validate_traffic get_pod list_services
validate-SameState name w = elim (Option-cases (w.pods name)) [
  | inl e ↦ ground arith
  | inr (p, e) ↦ ground (
    arith,
    check_services-SameState p.pod_ip (matching p.labels w.services)
        (record w { calls = suc (suc w.calls) }),
  )
]

switch-IsServing :
    (old new : String) (w w' : World) → switch_traffic old new w ≡ (ok tt, w') → IsServing new w'
unfolding switch_traffic
switch-IsServing old new w w' h =
    let (_, u, _, h₁) = bind-ok (remove_from_service old) _ w h in
    let (_, v, _, h₂) = bind-ok (wait label_propagation_delay) _ u h₁ in
    set_pod_label-IsServing new v w' h₂

-- The label-based traffic manager keeps the laws of a drainer, whatever calls fail: its methods
-- leave the resource alone, none takes a pod away, validation changes no pod, and a switch that
-- succeeds leaves the new pod there and labelled ready.
pub label_based-DrainerLaws : DrainerLaws label_based_traffic_manager
unfolding label_based_traffic_manager
label_based-DrainerLaws = record {
  drain-SameResource = λ deadline pod w. (drain-Keeps deadline pod w).resource;
  drain_keeps = λ deadline pod w. (drain-Keeps deadline pod w).pods;
  switch-SameResource = λ old new w. (switch-Keeps old new w).resource;
  switch_keeps = λ old new w. (switch-Keeps old new w).pods;
  switch-IsServing = switch-IsServing;
  validate-SameResource = λ pod w. (validate-SameState pod w).1;
  validate_pods = λ pod w. (validate-SameState pod w).0;
}
