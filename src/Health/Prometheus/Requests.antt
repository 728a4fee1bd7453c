-- ===== src/Health/Prometheus/Requests.antt =====
-- internal/health/metric.go: the requests of the client, and MetricQuerier by the client. `itoa` is
-- strconv.FormatInt in base 10.
use Prim.Native.String.{◌++◌}
use chainplane.Prelude.{
  ℕ, ◌-◌, ◌*◌, ◌/◌, ◌==◌, not, if◌then◌else◌, String, Bool, false, Option, none, some, List, [],
  ◌∷◌, length,
}
use chainplane.Float.{Float}
use chainplane.Time.{second, minute}
use chainplane.Health.Evaluator.{
  Reply, value, no_metric_data, query_failed, MatrixSeries, MetricQuerier,
}
use chainplane.Health.Prometheus.{
  response, no_response, broken_body, PrometheusClient, Fetched, fetched, get,
}

-- `if err != nil`, on the result of a request.
abbrev pub data_of : Fetched → Option String
data_of (fetched payload) = some payload
data_of _ = none

-- Healthy: the status is looked at, the body only drained.
unfoldable pub healthy : PrometheusClient → ℕ → Bool
healthy p now =
    let url = p.base_url ++ "/-/healthy" in
    if not (p.http.builds url) then false else elim (p.http.answer now 0 url) [
      | no_response ↦ false
      | broken_body status ↦ status == 200
      | response status body ↦ status == 200
    ]

-- instantQuery
unfoldable pub instant_query : PrometheusClient → ℕ → String → Option String
instant_query p now promql = elim (p.parse_url (p.base_url ++ "/api/v1/query")) [
  | none ↦ none
  | some u ↦ data_of (get p now (p.with_raw_query u (("query", promql) ∷ []))).result
]

-- rangeQuery
unfoldable pub range_query :
    PrometheusClient → (ℕ → String) → ℕ → String → ℕ → ℕ → String → Option String
range_query p itoa now promql start end_ step =
    elim (p.parse_url (p.base_url ++ "/api/v1/query_range")) [
      | none ↦ none
      | some u ↦
          data_of
            (get p now (
              p.with_raw_query u (
                ("query", promql)
                ∷ ("start", itoa (start / second))
                ∷ ("end", itoa (end_ / second))
                ∷ ("step", step)
                ∷ []))).result
    ]

-- An error of a step is the error of the query.
abbrev pub or_failed : {A B : Type 0} → Option A → (A → Reply B) → Reply B
or_failed none next = query_failed
or_failed (some a) next = next a

-- The part of RangeValues that decodes the series.
unfoldable pub decode_series : PrometheusClient → List String → Option (List MatrixSeries)
decode_series p [] = some []
decode_series p (raw ∷ raws) =
    let rest = decode_series p raws in
    elim (p.json.series raw) [
      | none ↦ none
      | some s ↦ elim rest [ none ↦ none | some ss ↦ some (s ∷ ss) ]
    ]

-- RangeValues
unfoldable pub range_values :
    PrometheusClient → (ℕ → String) → ℕ → String → ℕ → ℕ → String → Reply (List MatrixSeries)
range_values p itoa now promql start end_ step =
    or_failed (range_query p itoa now promql start end_ step)
      λ body. or_failed (p.json.payload body) λ raws. or_failed (decode_series p raws) value

module _ {F : Type 0} (float : Float F) where
  -- The part of InstantValue that follows the payload: the first series counts.
  abbrev pub read_sample : PrometheusClient → List String → Reply F
  read_sample p [] = no_metric_data
  read_sample p (raw ∷ _) =
      or_failed (p.json.sample_value raw)
        λ v. or_failed (p.json.text v) λ s. or_failed (float.parse s) value

  -- InstantValue
  unfoldable pub instant_value : PrometheusClient → ℕ → String → Reply F
  instant_value p now promql =
      or_failed (instant_query p now promql) λ body. or_failed (p.json.payload body) (read_sample p)

  -- `float64(len(series.Values)) >= expectedPoints*0.8`
  unfoldable pub enough_points : ℕ → ℕ → Bool
  enough_points points minutes =
      let expected = float.over (float.decimal (minutes * 60) 0) (float.decimal 30 0) in
      float.at_least (float.decimal points 0) (float.times expected (float.decimal 8 1))

  -- The part of Sustained that follows the payload.
  abbrev pub judge_points : PrometheusClient → ℕ → List String → Reply Bool
  judge_points p minutes [] = value false
  judge_points p minutes (raw ∷ _) =
      or_failed (p.json.series raw) λ series. value (enough_points (length series.values) minutes)

  -- Sustained
  unfoldable pub sustained : PrometheusClient → (ℕ → String) → ℕ → String → F → ℕ → Reply Bool
  sustained p itoa now promql threshold minutes =
      let expr = promql ++ " > " ++ float.show threshold in
      or_failed (range_query p itoa now expr (now - minutes * minute) now "30s")
        λ body. or_failed (p.json.payload body) (judge_points p minutes)

  -- The client as a MetricQuerier.
  unfoldable pub prometheus_querier : PrometheusClient → (ℕ → String) → MetricQuerier F
  prometheus_querier p itoa = record {
    healthy = healthy p;
    instant_value = instant_value p;
    sustained = sustained p itoa;
    range_values = range_values p itoa;
  }
