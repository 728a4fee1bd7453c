-- ===== src/Health/Traffic/Validation.antt =====
-- When the validation of switched traffic passes, apart from its loops.
use chainplane.Prelude.{
  suc, ◌≡◌, ◌≢◌, ◌↔◌, ◌⊎◌, refl, sym, ◌∙◌, inl, inr, String, true, false, none, some, List, [], ◌∷◌,
  All, All_mono, arith, eq_iff, get, Option-cases, Bool-cases, List-cases,
}
use chainplane.Errors.{Error, no_endpoint_slices, ok, err}
use chainplane.Kube.{
  World, Pod, Service, EndpointSlice, IsCalm, get_pod, list_services, list_slices,
}
use chainplane.Health.Replacement.{label_ready}
use chainplane.Health.Traffic.Serving.{Selects, Reaches, matching-All_iff, Reaches_iff}
use chainplane.Health.Traffic.{
  matching, any_slice_serves, slices_of, in_slices, pod_in_endpoints, check_services,
  validate_traffic,
}

-- What the loop over the services asks of one of them.
abbrev Passes : String → List EndpointSlice → Service → Type 0
Passes ip slices s =
    (slices_of s.name slices ≡ []) ⊎ (any_slice_serves ip (slices_of s.name slices) ≡ true)

one_service :
    (name ip : String) (slices : List EndpointSlice)
    → ((slices_of name slices ≡ []) × ((r : Error) × (in_slices name ip slices ≡ err r)))
      ⊎ ((slices_of name slices ≢ [])
          × (in_slices name ip slices ≡ ok (any_slice_serves ip (slices_of name slices))))
unfolding in_slices
one_service name ip slices = elim (List-cases (slices_of name slices)) [
  | inl e ↦ inl (e, (no_endpoint_slices, rw (e, in_slices)))
  | inr (x, xs, e) ↦ inr ((λ h. absurd (ground arith)), rw (e, in_slices))
]

looked_up :
    (name ip : String) (w : World)
    → w.fault w.calls ≡ none
    → pod_in_endpoints name ip w ≡ (in_slices name ip w.slices, record w { calls = suc w.calls })
unfolding pod_in_endpoints list_slices
looked_up name ip w calm = ground arith

check-Passes :
    (ip : String) (ss : List Service) (w : World)
    → IsCalm w
    → ((check_services ip ss w).0 ≡ ok true) ↔ All (Passes ip w.slices) ss
unfolding check_services
check-Passes ip [] w calm = (λ _. tt, λ _. refl)
check-Passes ip (s ∷ ss) w calm =
    let v = record w { calls = suc w.calls } in
    let rest = check-Passes ip ss v calm in
    let run = looked_up s.name ip w (calm w.calls) in
    elim (one_service s.name ip w.slices) [
      | inl (e, (r, missing)) ↦
          let skip : (check_services ip (s ∷ ss) w).0 ≡ (check_services ip ss v).0 =
            rw (run, missing) in
          (λ h. (inl e, rest.0 (ground arith)), λ (_, all). skip ∙ rest.1 all)
      | inr (ne, found) ↦ elim (Bool-cases (any_slice_serves ip (slices_of s.name w.slices))) [
        | inl hit ↦
            let skip : (check_services ip (s ∷ ss) w).0 ≡ (check_services ip ss v).0 =
              rw (run, found, hit) in
            (λ h. (inr hit, rest.0 (ground arith)), λ (_, all). skip ∙ rest.1 all)
        | inr miss ↦
            let stop : (check_services ip (s ∷ ss) w).0 ≡ ok false = rw (run, found, miss) in
            (
              λ h. absurd (ground arith),
              λ (here, _). absurd (elim here [ inl x ↦ ne x | inr x ↦ ground arith ]),
            )
      ]
    ]

-- What ValidateTraffic promises of a pod.
pub record IsValidated (name : String) (w : World) : Type 0 where
  pub pod : Pod
  pub is_there : w.pods name ≡ some pod
  pub is_ready : get pod.labels label_ready ≡ "true"
  pub has_ip : pod.pod_ip ≢ ""
  pub served :
      All (λ (s : Service). (¬ Selects pod.labels s) ⊎ Reaches pod.pod_ip w.slices s) w.services

-- What ValidateTraffic answers for a pod that is there, labelled ready and has an address.
validate-checked :
    (name : String) (w : World) (p : Pod)
    → IsCalm w
    → w.pods name ≡ some p
    → get p.labels label_ready ≡ "true"
    → p.pod_ip ≢ ""
    → (validate_traffic name w).0
      ≡ (check_services p.pod_ip
          (matching p.labels w.services)
          (record w { calls = suc (suc w.calls) })).0
unfolding validate_traffic get_pod list_services
validate-checked name w p calm there ready ip = ground (
  arith,
  calm w.calls,
  calm (suc w.calls),
  eq_iff (get p.labels label_ready) "true",
  eq_iff p.pod_ip "",
)

validate_gates :
    (name : String) (w : World)
    → (validate_traffic name w).0 ≡ ok true
    → (p : Pod) × (w.pods name ≡ some p) × (get p.labels label_ready ≡ "true") × (p.pod_ip ≢ "")
unfolding validate_traffic get_pod list_services
validate_gates name w h = elim (Option-cases (w.pods name)) [
  | inl e ↦ absurd (ground arith)
  | inr (p, e) ↦ (
    p,
    e,
    ground (arith, eq_iff (get p.labels label_ready) "true"),
    λ x. ground (arith, eq_iff p.pod_ip ""),
  )
]

-- The loop over the services that match passes exactly if every service that selects the pod reaches it.
check-served_iff :
    (p : Pod) (w : World)
    → IsCalm w
    → ((check_services p.pod_ip (matching p.labels w.services) w).0 ≡ ok true)
      ↔ All (λ (s : Service). (¬ Selects p.labels s) ⊎ Reaches p.pod_ip w.slices s) w.services
check-served_iff p w calm =
    let loop = check-Passes p.pod_ip (matching p.labels w.services) w calm in
    let kept = matching-All_iff (Passes p.pod_ip w.slices) p.labels w.services in
    let one = Reaches_iff p.pod_ip w.slices in
    (
      λ h.
          All_mono (λ s x. elim x [ inl out ↦ inl out | inr y ↦ inr ((one s).0 y) ]) w.services
            (kept.0 (loop.0 h)),
      λ all. loop.1 (
          kept.1 (
            All_mono (λ s x. elim x [ inl out ↦ inl out | inr y ↦ inr ((one s).1 y) ]) w.services
              all)),
    )

-- If no call fails: ValidateTraffic passes exactly when the pod is there, labelled ready, has an
-- address, and every service that selects it has no endpoint slice, or has the address in an
-- endpoint of one of its slices that is not marked as not ready.
pub validate_iff :
    (name : String) (w : World)
    → IsCalm w
    → ((validate_traffic name w).0 ≡ ok true) ↔ IsValidated name w
validate_iff name w calm = (
  λ h.
      let (p, there, ready, ip) = validate_gates name w h in
      let checked = validate-checked name w p calm there ready ip in
      let (to, _) = check-served_iff p (record w { calls = suc (suc w.calls) }) calm in
      record {
        pod = p;
        is_there = there;
        is_ready = ready;
        has_ip = ip;
        served = to (sym checked ∙ h);
      },
  λ v.
      let (_, from) = check-served_iff v.pod (record w { calls = suc (suc w.calls) }) calm in
      validate-checked name w v.pod calm v.is_there v.is_ready v.has_ip ∙ from v.served,
)
