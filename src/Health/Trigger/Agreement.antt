-- ===== src/Health/Trigger/Agreement.antt =====
-- The two summaries of a health status agree.
use chainplane.Prelude.{◌≡◌, ◌↔◌, refl, inl, inr, true, List, [], ◌∷◌, arith, Bool-cases}
use chainplane.Health.Trigger.{
  TriggerName, TriggerResult, HealthStatus, none_fired, fired_names, is_healthy, triggered_names,
}

fired_names-none_fired :
    (rs : List (TriggerName × TriggerResult)) → (none_fired rs ≡ true) ↔ (fired_names rs ≡ [])
fired_names-none_fired [] = (λ _. refl, λ _. refl)
fired_names-none_fired ((n, r) ∷ rs) =
    let rest = fired_names-none_fired rs in
    elim (Bool-cases r.fired) [
      | inl e ↦ (λ h. absurd (ground arith), λ h. absurd (ground arith))
      | inr e ↦ (λ h. ground arith, λ h. ground arith)
    ]

-- A health status is healthy exactly when it names no trigger that fired.
pub triggered_names-is_healthy :
    (s : HealthStatus) → (is_healthy s ≡ true) ↔ (triggered_names s ≡ [])
unfolding is_healthy triggered_names
triggered_names-is_healthy s = fired_names-none_fired s.results
