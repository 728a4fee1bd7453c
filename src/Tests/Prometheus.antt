-- ===== src/Tests/Prometheus.antt =====
-- The client of the Prometheus API with a server that is busy at first.
use chainplane.Prelude.{
  ℕ, ◌≡◌, ◌↔◌, ◌≤◌, ◌<◌, ◌*◌, ◌/◌, ◌-◌, ◌^◌, refl, true, false, none, some, ◌∷◌, [], ◌==◌,
  if◌then◌else◌,
}
use chainplane.Time.{second}
use chainplane.Health.Prometheus.{
  response, Transport, Json, PrometheusClient, fetched, wait_before, open_envelope, judge_answer,
  get_from, get,
}
use chainplane.Health.Prometheus.Bounds.{get_bounds}
use chainplane.Health.Prometheus.Retries.{Decides, get_iff}

abbrev busy_at_first : Transport
busy_at_first = record {
  cancelled = λ now attempt. false;
  builds = λ url. true;
  answer = λ now attempt url. if attempt == 0 then response 503 "busy" else response 200 "7";
}

abbrev plain_json : Json
plain_json = record {
  envelope = λ body. some (record { status = "success"; error = ""; data_ = body });
  payload = λ body. some (body ∷ []);
  sample_value = λ raw. some raw;
  text = λ raw. some raw;
  series = λ raw. none;
}

abbrev client : PrometheusClient
client = record {
  base_url = "http://prometheus:9090";
  http = busy_at_first;
  json = plain_json;
  parse_url = λ url. some url;
  with_raw_query = λ url query. url;
  max_retries = 3;
  backoff = second / 2;
}

second_attempt_counts : (get client 0 "/").result ≡ fetched "7"
unfolding get get_from wait_before judge_answer open_envelope
second_attempt_counts = refl

get_bounds_example :
    ((get client 0 "/").requests ≤ 3) × ((get client 0 "/").waited ≤ second / 2 * (2 ^ (3 - 1) - 1))
get_bounds_example = get_bounds client 0 "/"

get_iff_example :
    ((get client 0 "/").result ≡ fetched "7") ↔ ((k : ℕ) × (k < 3) × Decides client 0 "/" 0 k "7")
get_iff_example = get_iff client 0 "/" "7"
