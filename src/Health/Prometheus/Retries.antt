-- ===== src/Health/Prometheus/Retries.antt =====
-- Which answer the client returns.
use chainplane.Prelude.{
  ℕ, zero, suc, ◌+◌, ◌≤◌, ◌<◌, ◌≡◌, ◌↔◌, ◌≢◌, ◌⊎◌, sym, ◌∙◌, inl, inr, String, true, false, some,
  arith, Option-cases,
}
use chainplane.Health.Prometheus.Answers.{
  IsTransient, Carries, judge_answer-IsTransient, judge_answer-Carries,
}
use chainplane.Health.Prometheus.{PrometheusClient, fetched, judge_answer, get_from, get}

-- A later attempt is this one, or comes after it.
before : (i j : ℕ) → i ≤ j → (j ≡ i) ⊎ (i < j)
before i j h = ground arith

-- The attempt k is answered with the data, every attempt before it, from an attempt on, is to be tried
-- again, and the context is not done in the waits until then.
pub record Decides (p : PrometheusClient) (now : ℕ) (url : String) (attempt k : ℕ)
    (payload : String) : Type 0 where
  pub built : p.http.builds url ≡ true
  pub passed : (j : ℕ) → attempt ≤ j → j < k → IsTransient (p.http.answer now j url)
  pub waited_for : (j : ℕ) → attempt ≤ j → j ≤ k → j ≢ 0 → p.http.cancelled now j ≡ false
  pub decided : Carries p payload (p.http.answer now k url)

get_from-Decides :
    (p : PrometheusClient) (now : ℕ) (url : String) (attempt left : ℕ) (payload : String)
    → (get_from p now url attempt (suc left)).result ≡ fetched payload
    → (Decides p now url attempt attempt payload)
      ⊎ (IsTransient (p.http.answer now attempt url)
          × (p.http.builds url ≡ true)
          × (attempt ≢ 0 → p.http.cancelled now attempt ≡ false)
          × ((get_from p now url (suc attempt) left).result ≡ fetched payload))
unfolding get_from
get_from-Decides p now url attempt left payload h =
    elim (Option-cases (judge_answer p (p.http.answer now attempt url))) [
      | inl e ↦
          inr ((judge_answer-IsTransient p _).0 e, ground arith, λ n. ground arith, ground arith)
      | inr (r, e) ↦ inl (record {
        built = ground arith;
        passed = λ j l m. absurd (omega arith);
        waited_for = λ j l m n. let same : j ≡ attempt = omega arith in ground arith;
        decided = (judge_answer-Carries p payload _).0 (ground arith);
      })
    ]

postponed :
    (p : PrometheusClient) (now : ℕ) (url : String) (attempt k : ℕ) (payload : String)
    → IsTransient (p.http.answer now attempt url)
    → (attempt ≢ 0 → p.http.cancelled now attempt ≡ false)
    → attempt < k
    → Decides p now url (suc attempt) k payload
    → Decides p now url attempt k payload
postponed p now url attempt k payload e c l d = record {
  built = d.built;
  passed =
      λ j a b. elim (before attempt j a) [ inl same ↦ rw same e | inr more ↦ d.passed j more b ];
  waited_for = λ j a b n. elim (before attempt j a) [
    | inl same ↦ rw same (c λ z. n (same ∙ z))
    | inr more ↦ d.waited_for j more b n
  ];
  decided = d.decided;
}

narrowed :
    (p : PrometheusClient) (now : ℕ) (url : String) (attempt k : ℕ) (payload : String)
    → Decides p now url attempt k payload
    → Decides p now url (suc attempt) k payload
narrowed p now url attempt k payload d = record {
  built = d.built;
  passed = λ j a b. d.passed j (omega arith) b;
  waited_for = λ j a b n. d.waited_for j (omega arith) b n;
  decided = d.decided;
}

-- The loop returns the data exactly if an attempt decides so.
loop_iff :
    (p : PrometheusClient) (now : ℕ) (url : String) (attempt left : ℕ) (payload : String)
    → ((get_from p now url attempt left).result ≡ fetched payload)
      ↔ ((k : ℕ) × (attempt ≤ k) × (k < attempt + left) × Decides p now url attempt k payload)
unfolding get_from
loop_iff p now url attempt zero payload =
    (λ h. absurd (ground arith), λ (k, l, m, d). absurd (omega arith))
loop_iff p now url attempt (suc left) payload =
    let later = loop_iff p now url (suc attempt) left payload in
    (
      λ h. elim (get_from-Decides p now url attempt left payload h) [
        | inl d ↦ (attempt, omega arith, omega arith, d)
        | inr (e, b, c, rest) ↦
            let (k, l, m, d) = later.0 rest in
            (k, omega arith, omega arith, postponed p now url attempt k payload e c l d)
      ],
      λ (k, l, m, d). elim (before attempt k l) [
        | inl same ↦
            let decided : judge_answer p (p.http.answer now attempt url) ≡ some (fetched payload) =
              rw (sym same) ((judge_answer-Carries p payload _).1 d.decided) in
            let built = d.built in
            let calm : attempt ≢ 0 → p.http.cancelled now attempt ≡ false =
              λ n. d.waited_for attempt (omega arith) (omega arith) n in
            ground arith
        | inr more ↦
            let e = (judge_answer-IsTransient p _).1 (d.passed attempt (omega arith) more) in
            let rest : (get_from p now url (suc attempt) left).result ≡ fetched payload =
              later.1 (k, more, omega arith, narrowed p now url attempt k payload d) in
            let built = d.built in
            let calm : attempt ≢ 0 → p.http.cancelled now attempt ≡ false =
              λ n. d.waited_for attempt (omega arith) (omega arith) n in
            ground arith
      ],
    )

-- A fetch returns some data exactly if a request can be built, one of its at most max_retries attempts is answered with it in a
-- successful envelope of status 200, every attempt before it failed in transport or was answered
-- with 429 or with 500 and above, and the context was not done in the waits until then.
pub get_iff :
    (p : PrometheusClient) (now : ℕ) (url payload : String)
    → ((get p now url).result ≡ fetched payload)
      ↔ ((k : ℕ) × (k < p.max_retries) × Decides p now url 0 k payload)
unfolding get
get_iff p now url payload =
    let found = loop_iff p now url 0 p.max_retries payload in
    (
      λ h. let (k, l, m, d) = found.0 h in (k, omega arith, d),
      λ (k, m, d). found.1 (k, omega arith, omega arith, d),
    )
