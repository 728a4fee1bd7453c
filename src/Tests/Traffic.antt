-- ===== src/Tests/Traffic.antt =====
-- The drainer at a concrete service.
use chainplane.Prelude.{
  ◌⊎◌, ◌≤◌, ◌+◌, ◌*◌, none, ◌≡◌, ◌↔◌, refl, true, some, [], ◌∷◌, insert, empty_map,
}
use chainplane.Errors.{ok}
use chainplane.Kube.{World, list_slices}
use chainplane.Health.Replacement.{label_ready, verifying}
use chainplane.Health.Traffic.{
  drain, switch_traffic, validate_traffic, labels_contain, in_slices, pod_in_endpoints,
}
use chainplane.Time.{second}
use chainplane.Health.Traffic.Drained.{drain-Drained}
use chainplane.Health.Traffic.Switch.{IsOut}
use chainplane.Health.Traffic.Validation.{IsValidated, validate_iff}
use chainplane.Tests.Data.{replacing, running_pod}
use chainplane.Tests.Replacement.{runs, after}

abbrev pair : World
pair = replacing true verifying

switch_succeeds :
    switch_traffic "eth-0" "eth-0-replacement" pair
    ≡ (ok tt, after (switch_traffic "eth-0" "eth-0-replacement") pair)
unfolding runs
switch_succeeds = refl

-- A service whose one endpoint is the pod.
abbrev served : World
served = record pair {
  pods =
      insert "eth-0"
        (record (running_pod true) { labels = insert label_ready "true" (running_pod true).labels })
        empty_map;
  services = record { name = "rpc"; selector = ("app", "eth") ∷ [] } ∷ [];
  slices =
      record {
        service = "rpc";
        endpoints = record { addresses = "10.0.0.1" ∷ []; ready = some true } ∷ [];
      }
      ∷ [];
}

validate_iff_example : ((validate_traffic "eth-0" served).0 ≡ ok true) ↔ IsValidated "eth-0" served
validate_iff_example = validate_iff "eth-0" served (λ k. refl)

validation_passes : (validate_traffic "eth-0" served).0 ≡ ok true
unfolding runs list_slices in_slices pod_in_endpoints labels_contain
validation_passes = refl

drain_succeeds : drain none "eth-0" pair ≡ (ok tt, after (drain none "eth-0") pair)
unfolding runs
drain_succeeds = refl

-- A deadline in 12 seconds.
drain_ends :
    drain (some (15 * second)) "eth-0" pair
    ≡ (ok tt, after (drain (some (15 * second)) "eth-0") pair)
unfolding runs
drain_ends = refl

drain-Drained_example :
    ((after (drain (some (15 * second)) "eth-0") pair).pods "eth-0" ≡ none)
    ⊎ (IsOut "eth-0" (after (drain (some (15 * second)) "eth-0") pair)
        × (3 * second + 12 * second ≤ (after (drain (some (15 * second)) "eth-0") pair).now))
drain-Drained_example =
    drain-Drained (some (15 * second)) "eth-0" pair
      (after (drain (some (15 * second)) "eth-0") pair) drain_ends
