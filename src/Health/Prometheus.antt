-- ===== src/Health/Prometheus.antt =====
-- internal/health/metric.go: the client of the Prometheus HTTP API. The HTTP transport, the URL and
-- JSON decoders are parameters. The limit on the size of a body belongs to the transport, and the
-- texts of errors are left out.
pub mod Bounds
pub mod Answers
pub mod Retries
pub mod Requests
use Prim.Native.String.{◌++◌}
use chainplane.Prelude.{
  ℕ, suc, zero, ◌+◌, ◌-◌, ◌*◌, ◌/◌, ◌%◌, ◌^◌, String, Bool, true, false, Option, none, some, List,
  [], ◌∷◌, ◌||◌, ◌&&◌, ◌==◌, not, ltb, leb, str_eq, length, if◌then◌else◌,
}
use chainplane.Float.{Float}
use chainplane.Time.{second, minute}
use chainplane.Time.{positive_duration}
use chainplane.Health.Evaluator.{
  Reply, value, no_metric_data, query_failed, MatrixSeries, MetricQuerier,
}

-- The answer to a request: no response, a body that breaks off, or a response.
pub data Answer : Type 0 where
  no_response : Answer
  broken_body : (status : ℕ) → Answer
  response : (status : ℕ) → (body : String) → Answer

-- prometheusEnvelope
pub record PrometheusEnvelope : Type 0 where
  pub status : String
  pub error : String
  pub data_ : String

-- http.Client at a time, for the attempt with a number: whether the context is done before the
-- wait ahead of the attempt ends, whether a request can be built, and the answer to it.
pub record Transport : Type 0 where
  pub cancelled : ℕ → ℕ → Bool
  pub builds : String → Bool
  pub answer : ℕ → ℕ → String → Answer

-- encoding/json. A raw message is its text.
pub record Json : Type 0 where
  pub envelope : String → Option PrometheusEnvelope
  pub payload : String → Option (List String)
  pub sample_value : String → Option String
  pub text : String → Option String
  pub series : String → Option MatrixSeries

pub record PrometheusClient : Type 0 where
  pub base_url : String
  pub http : Transport
  pub json : Json
  pub parse_url : String → Option String
  pub with_raw_query : String → List (String × String) → String
  pub max_retries : ℕ
  pub backoff : ℕ

-- The result of get.
pub data Fetched : Type 0 where
  fetched : (payload : String) → Fetched
  context_done : Fetched
  not_built : Fetched
  http_error : (status : ℕ) → Fetched
  undecodable : Fetched
  api_error : (message : String) → Fetched
  retries_exhausted : Fetched

-- A run of get: the result, the number of requests and the time waited between them.
pub record Run : Type 0 where
  pub result : Fetched
  pub requests : ℕ
  pub waited : ℕ

-- `p.backoff * time.Duration(1<<(attempt-1))`, where time.After does not wait for a negative time
unfoldable pub wait_before : ℕ → ℕ → ℕ
wait_before backoff zero = 0
wait_before backoff (suc k) = positive_duration (backoff * 2 ^ k)

-- The part of get that follows a status of 200.
unfoldable pub open_envelope : PrometheusClient → String → Fetched
open_envelope p body = elim (p.json.envelope body) [
  | none ↦ undecodable
  | some e ↦ if not (str_eq e.status "success") then api_error e.error else fetched e.data_
]

-- `none` for an answer after which the loop goes on.
unfoldable pub judge_answer : PrometheusClient → Answer → Option Fetched
judge_answer p no_response = none
judge_answer p (broken_body _) = none
judge_answer p (response status body) =
    if (status == 429) || leb 500 status
    then none
    else if not (status == 200)
    then some (http_error status)
    else some (open_envelope p body)

abbrev pub stop : Fetched → Run
stop r = record { result = r; requests = 0; waited = 0 }

-- The run with one request and a wait ahead of it.
abbrev pub after_request : ℕ → Run → Run
after_request wait r = record {
  result = r.result;
  requests = suc r.requests;
  waited = wait + r.waited;
}

-- The loop of get, from an attempt on, with the number of attempts that are left.
unfoldable pub get_from : PrometheusClient → ℕ → String → ℕ → ℕ → Run
get_from p now url attempt zero = stop retries_exhausted
get_from p now url attempt (suc left) =
    let wait = wait_before p.backoff attempt in
    let rest = get_from p now url (suc attempt) left in
    if not (attempt == 0) && p.http.cancelled now attempt
    then stop context_done
    else if not (p.http.builds url)
    then record { result = not_built; requests = 0; waited = wait }
    else after_request wait
        (elim (judge_answer p (p.http.answer now attempt url)) [ none ↦ rest | some r ↦ stop r ])

-- get
unfoldable pub get : PrometheusClient → ℕ → String → Run
get p now url = get_from p now url 0 p.max_retries
