-- ===== src/Health/Prometheus/Bounds.antt =====
-- How often the client asks, and how long it waits.
use chainplane.Prelude.{ℕ, zero, suc, ◌+◌, ◌-◌, ◌*◌, ◌^◌, ◌≤◌, ◌≡◌, ap, String, arith}
use chainplane.Health.Prometheus.{PrometheusClient, wait_before, get_from, get}

-- The first wait of a run of doubling waits.
abbrev step_of : ℕ → ℕ → ℕ
step_of b k = b * 2 ^ k

step_doubles : (b k : ℕ) → step_of b (suc k) ≡ step_of b k + step_of b k
step_doubles b k = grind arith

wait_before_bound : (b k : ℕ) → wait_before b (suc k) ≤ step_of b k
unfolding wait_before
wait_before_bound b k = ground arith

requests_bound :
    (p : PrometheusClient) (now : ℕ) (url : String) (attempt left : ℕ)
    → (get_from p now url attempt left).requests ≤ left
unfolding get_from
requests_bound p now url attempt zero = omega arith
requests_bound p now url attempt (suc left) =
    let rest = requests_bound p now url (suc attempt) left in ground arith

waits_bound :
    (p : PrometheusClient) (now : ℕ) (url : String) (k left : ℕ)
    → (get_from p now url (suc k) left).waited + step_of p.backoff k ≤ step_of p.backoff (k + left)
unfolding get_from
waits_bound p now url k zero =
    let same : step_of p.backoff (k + 0) ≡ step_of p.backoff k =
      ap (step_of p.backoff) (omega arith) in
    omega arith
waits_bound p now url k (suc left) =
    let rest = waits_bound p now url (suc k) left in
    let first = wait_before_bound p.backoff k in
    let twice = step_doubles p.backoff k in
    let same : step_of p.backoff (k + suc left) ≡ step_of p.backoff (suc k + left) =
      ap (step_of p.backoff) (omega arith) in
    ground arith

times_pred : (w b k : ℕ) → w + b ≤ b * k → w ≤ b * (k - 1)
times_pred w b zero h = grind arith
times_pred w b (suc k) h = grind arith

waited_bound :
    (p : PrometheusClient) (now : ℕ) (url : String) (left : ℕ)
    → (get_from p now url 0 left).waited ≤ p.backoff * (2 ^ (left - 1) - 1)
unfolding get_from wait_before
waited_bound p now url zero = omega arith
waited_bound p now url (suc left) =
    let later : (get_from p now url 1 left).waited + p.backoff ≤ p.backoff * 2 ^ left =
      grind (arith, waits_bound p now url 0 left) in
    let bounded = times_pred _ _ _ later in ground arith

-- A fetch sends at most max_retries requests, and waits at most backoff * (2 ^ (max_retries - 1) - 1)
-- between them.
pub get_bounds :
    (p : PrometheusClient) (now : ℕ) (url : String)
    → ((get p now url).requests ≤ p.max_retries)
      × ((get p now url).waited ≤ p.backoff * (2 ^ (p.max_retries - 1) - 1))
unfolding get
get_bounds p now url =
    (requests_bound p now url 0 p.max_retries, waited_bound p now url p.max_retries)
