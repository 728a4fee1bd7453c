-- ===== src/Health/Prometheus/Answers.antt =====
-- Which answers the client tries again after, and which one it returns.
use chainplane.Prelude.{
  ◌≡◌, ◌↔◌, ◌⊎◌, ◌≤◌, refl, inl, inr, String, none, some, arith, eq_iff, Option-cases,
}
use chainplane.Health.Prometheus.{
  Answer, no_response, broken_body, response, PrometheusEnvelope, PrometheusClient, fetched,
  judge_answer, open_envelope,
}

-- An answer after which the client tries again.
abbrev pub IsTransient : Answer → Type 0
IsTransient no_response = Unit {0}
IsTransient (broken_body _) = Unit {0}
IsTransient (response status body) = (status ≡ 429) ⊎ (500 ≤ status)

-- An answer that carries the data in a successful envelope.
abbrev pub Carries : PrometheusClient → String → Answer → Type 0
Carries p payload no_response = ⊥
Carries p payload (broken_body _) = ⊥
Carries p payload (response status body) =
    (status ≡ 200)
    × (e : PrometheusEnvelope) × (p.json.envelope body ≡ some e)
    × (e.status ≡ "success")
    × (e.data_ ≡ payload)

pub judge_answer-IsTransient :
    (p : PrometheusClient) (a : Answer) → (judge_answer p a ≡ none) ↔ IsTransient a
unfolding judge_answer
judge_answer-IsTransient p no_response = (λ h. tt, λ h. refl)
judge_answer-IsTransient p (broken_body _) = (λ h. tt, λ h. refl)
judge_answer-IsTransient p (response status body) = (λ h. ground arith, λ h. ground arith)

pub judge_answer-Carries :
    (p : PrometheusClient) (payload : String) (a : Answer)
    → (judge_answer p a ≡ some (fetched payload)) ↔ Carries p payload a
unfolding judge_answer open_envelope
judge_answer-Carries p payload no_response = (λ h. ground arith, λ h. absurd h)
judge_answer-Carries p payload (broken_body _) = (λ h. ground arith, λ h. absurd h)
judge_answer-Carries p payload (response status body) = elim (Option-cases (p.json.envelope body)) [
  | inl bad ↦ (λ h. ground arith, λ (s, e, other, good, same). ground arith)
  | inr (e, opened) ↦ (
    λ h. (
      ground arith,
      e,
      opened,
      ground (arith, eq_iff e.status "success"),
      ground (arith, eq_iff e.status "success"),
    ),
    λ (s, d, other, good, same). ground (arith, eq_iff e.status "success"),
  )
]
