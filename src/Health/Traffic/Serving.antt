-- ===== src/Health/Traffic/Serving.antt =====
-- What the loops of ValidateTraffic look for: the services that select a pod, and the ready endpoints that have
-- its address.
use chainplane.Prelude.{
  ◌≡◌, ◌≢◌, ◌↔◌, ◌⊎◌, refl, inl, inr, String, Bool, true, false, Option, none, some, List, [], ◌∷◌,
  All, Any, arith, eq_iff, get, str_eq, Map, Bool-cases, List-cases,
}
use chainplane.Kube.{Service, Endpoint, EndpointSlice}
use chainplane.Health.Traffic.{
  labels_contain, matching, contains_text, serves, any_serves, any_slice_serves, slices_of,
}

-- labelsContain holds exactly when every required label has the required value.
pub labels_contain_iff :
    (labels : Map String) (required : List (String × String))
    → (labels_contain labels required ≡ true)
      ↔ All (λ (kv : String × String). get labels kv.0 ≡ kv.1) required
unfolding labels_contain
labels_contain_iff labels [] = (λ _. tt, λ _. refl)
labels_contain_iff labels ((k, v) ∷ required) =
    let rest = labels_contain_iff labels required in
    let same = eq_iff (get labels k) v in
    elim (Bool-cases (str_eq (get labels k) v)) [
      | inl e ↦ (λ h. (ground (arith, same), rest.0 (rw e at h)), λ (_, all). rw e (rest.1 all))
      | inr e ↦ (λ h. absurd (ground arith), λ (x, _). absurd (ground (arith, same)))
    ]

-- A service selects a pod with some labels: it has a selector, every entry of which is among them.
abbrev pub Selects : Map String → Service → Type 0
Selects labels s =
    (s.selector ≢ []) × All (λ (kv : String × String). get labels kv.0 ≡ kv.1) s.selector

-- An endpoint serves an address: it is not marked as not ready, and it has the address.
abbrev pub Serves : String → Endpoint → Type 0
Serves ip e = (e.ready ≢ some false) × Any (λ (a : String). a ≡ ip) e.addresses

-- The service has no endpoint slice, or an endpoint in one of its slices serves the address.
abbrev pub Reaches : String → List EndpointSlice → Service → Type 0
Reaches ip slices s =
    All (λ (slice : EndpointSlice). slice.service ≢ s.name) slices
    ⊎ Any (λ (slice : EndpointSlice). (slice.service ≡ s.name) × Any (Serves ip) slice.endpoints)
        slices

contains_text_iff :
    (ip : String) (addresses : List String)
    → (contains_text ip addresses ≡ true) ↔ Any (λ (a : String). a ≡ ip) addresses
contains_text_iff ip [] = (λ h. absurd (ground arith), λ h. absurd h)
contains_text_iff ip (a ∷ addresses) =
    let rest = contains_text_iff ip addresses in
    let same = eq_iff a ip in
    elim (Bool-cases (str_eq a ip)) [
      | inl e ↦ (λ h. inl (ground (arith, same)), λ h. rw e refl)
      | inr e ↦ (
        λ h. inr (rest.0 (rw e at h)),
        λ h. elim h [ inl x ↦ absurd (ground (arith, same)) | inr x ↦ rw e (rest.1 x) ],
      )
    ]

is_ready_iff :
    (ready : Option Bool)
    → ((elim ready [ none ↦ true | some b ↦ b ]) ≡ true) ↔ (ready ≢ some false)
is_ready_iff none = (λ h x. absurd (ground arith), λ h. refl)
is_ready_iff (some true) = (λ h x. absurd (ground arith), λ h. refl)
is_ready_iff (some false) = (λ h x. absurd (ground arith), λ h. absurd (h refl))

serves_iff : (ip : String) (e : Endpoint) → (serves ip e ≡ true) ↔ Serves ip e
serves_iff ip e =
    let ready = is_ready_iff e.ready in
    let has = contains_text_iff ip e.addresses in
    (
      λ h. (ready.0 (ground arith), has.0 (ground arith)),
      λ (r, a). let x = ready.1 r in let y = has.1 a in rw (x, y) refl,
    )

any_serves_iff : (ip : String) (es : List Endpoint) → (any_serves ip es ≡ true) ↔ Any (Serves ip) es
any_serves_iff ip [] = (λ h. absurd (ground arith), λ h. absurd h)
any_serves_iff ip (e ∷ es) =
    let rest = any_serves_iff ip es in
    let here = serves_iff ip e in
    elim (Bool-cases (serves ip e)) [
      | inl x ↦ (λ h. inl (here.0 x), λ h. rw x refl)
      | inr x ↦ (
        λ h. inr (rest.0 (rw x at h)),
        λ h. elim h [ inl y ↦ absurd (let z = here.1 y in ground arith) | inr y ↦ rw x (rest.1 y) ],
      )
    ]

slices_of-empty_iff :
    (name : String) (slices : List EndpointSlice)
    → (slices_of name slices ≡ []) ↔ All (λ (slice : EndpointSlice). slice.service ≢ name) slices
slices_of-empty_iff name [] = (λ h. tt, λ h. refl)
slices_of-empty_iff name (s ∷ ss) =
    let rest = slices_of-empty_iff name ss in
    let same = eq_iff s.service name in
    elim (Bool-cases (str_eq s.service name)) [
      | inl e ↦ (
        λ h. absurd (let h' = rw e at h in ground arith),
        λ (ne, _). absurd (ne (ground (arith, same))),
      )
      | inr e ↦ (
        λ h. ((λ x. absurd (ground (arith, same))), rest.0 (rw e at h)),
        λ (_, all). rw e (rest.1 all),
      )
    ]

any_slice_serves_iff :
    (name ip : String) (slices : List EndpointSlice)
    → (any_slice_serves ip (slices_of name slices) ≡ true)
      ↔ Any
          (λ (slice : EndpointSlice). (slice.service ≡ name) × Any (Serves ip) slice.endpoints)
          slices
any_slice_serves_iff name ip [] = (λ h. absurd (ground arith), λ h. absurd h)
any_slice_serves_iff name ip (s ∷ ss) =
    let rest = any_slice_serves_iff name ip ss in
    let same = eq_iff s.service name in
    let here = any_serves_iff ip s.endpoints in
    elim (Bool-cases (str_eq s.service name)) [
      | inl e ↦ elim (Bool-cases (any_serves ip s.endpoints)) [
        | inl x ↦ (λ h. inl (ground (arith, same), here.0 x), λ h. rw (e, x) refl)
        | inr x ↦ (
          λ h. inr (rest.0 (rw (e, x) at h)),
          λ h. elim h [
            | inl (_, y) ↦ absurd (let z = here.1 y in ground arith)
            | inr y ↦ rw (e, x) (rest.1 y)
          ],
        )
      ]
      | inr e ↦ (
        λ h. inr (rest.0 (rw e at h)),
        λ h. elim h [ inl (y, _) ↦ absurd (ground (arith, same)) | inr y ↦ rw e (rest.1 y) ],
      )
    ]

-- Whether a service is kept by the loop of matchingServices.
kept_or_not :
    (labels : Map String) (s : Service) (ss : List Service)
    → ((¬ Selects labels s) × (matching labels (s ∷ ss) ≡ matching labels ss))
      ⊎ (Selects labels s × (matching labels (s ∷ ss) ≡ s ∷ matching labels ss))
unfolding matching
kept_or_not labels s ss = elim (List-cases s.selector) [
  | inl e ↦ inl ((λ (some_is, _). some_is e), ground arith)
  | inr (kv, kvs, e) ↦
      let contained = labels_contain_iff labels s.selector in
      elim (Bool-cases (labels_contain labels s.selector)) [
        | inl x ↦ inr (((λ h. absurd (ground arith)), contained.0 x), ground arith)
        | inr x ↦ inl ((λ (_, all). absurd (let y = contained.1 all in ground arith)), ground arith)
      ]
]

-- Every service that matches has a property exactly if every service does or does not select the pod.
pub matching-All_iff :
    (P : Service → Type 0) (labels : Map String) (ss : List Service)
    → All P (matching labels ss) ↔ All (λ (s : Service). (¬ Selects labels s) ⊎ P s) ss
unfolding matching
matching-All_iff P labels [] = (λ h. tt, λ h. tt)
matching-All_iff P labels (s ∷ ss) =
    let rest = matching-All_iff P labels ss in
    elim (kept_or_not labels s ss) [
      | inl (out, same) ↦ (λ h. (inl out, rest.0 (rw same at h)), λ (_, all). rw same (rest.1 all))
      | inr (selects, same) ↦ (
        λ h. let h' : P s × All P (matching labels ss) = rw same at h in (inr h'.0, rest.0 h'.1),
        λ (here, all).
            rw same (elim here [ inl out ↦ absurd (out selects) | inr x ↦ x ], rest.1 all),
      )
    ]

-- The test of podInEndpoints and of the slices that it finds.
pub Reaches_iff :
    (ip : String) (slices : List EndpointSlice) (s : Service)
    → ((slices_of s.name slices ≡ []) ⊎ (any_slice_serves ip (slices_of s.name slices) ≡ true))
      ↔ Reaches ip slices s
Reaches_iff ip slices s =
    let none_is = slices_of-empty_iff s.name slices in
    let served = any_slice_serves_iff s.name ip slices in
    (
      λ h. elim h [ inl x ↦ inl (none_is.0 x) | inr x ↦ inr (served.0 x) ],
      λ h. elim h [ inl x ↦ inl (none_is.1 x) | inr x ↦ inr (served.1 x) ],
    )
