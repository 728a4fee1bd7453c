-- ===== src/Health/Evaluator/Firing.antt =====
-- When a trigger fires, and when a pod counts as healthy.
use chainplane.Prelude.{
  ℕ, ◌+◌, ◌-◌, ◌*◌, ◌≡◌, ◌↔◌, ◌⊎◌, refl, inl, inr, String, Bool, true, false, Option, none, some,
  List, arith, Bool-cases,
}
use chainplane.Float.{Float}
use chainplane.Time.{second, minute}
use chainplane.Health.Chain.{BlockchainType}
use chainplane.Health.Trigger.{
  TriggerName, sync_lag, error_rate, latency, crash_loop, disk_usage, is_healthy, no_data_result,
}
use chainplane.Health.Thresholds.{format_metric, sync_lag_threshold, latency_threshold}
use chainplane.Health.Evaluator.{
  Reply, value, no_metric_data, query_failed, panics, MatrixSeries, Checker, sync_lag_query,
  error_rate_query, latency_query, restarts_query, disk_usage_query, first_point, Evaluation,
  with_value, with_sustained, eval, safe_eval, eval_sync_lag, ask_sync_lag, eval_error_rate,
  eval_latency, eval_crash_loop, eval_disk_usage, check_all, with_past,
}

-- An answer that was asked for lets a trigger fire only if it is a value for which the rest does.
with_value_iff :
    {F : Type 0} (reply : Reply F) (threshold : String) (finish : F → Evaluation)
    → ((safe_eval (with_value reply threshold finish)).fired ≡ true)
      ↔ ((v : F) × (reply ≡ value v) × ((safe_eval (finish v)).fired ≡ true))
unfolding no_data_result
with_value_iff (value v) threshold finish = (λ h. (v, refl, h), λ h. ground arith)
with_value_iff no_metric_data threshold finish = (λ h. ground arith, λ h. ground arith)
with_value_iff query_failed threshold finish = (λ h. ground arith, λ h. ground arith)
with_value_iff panics threshold finish = (λ h. ground arith, λ h. ground arith)

with_sustained_iff :
    (reply : Reply Bool) (value_text threshold : String)
    → ((safe_eval (
          with_sustained reply λ fired.
            some (record { fired = fired; value = value_text; threshold = threshold }))).fired
        ≡ true)
      ↔ (reply ≡ value true)
unfolding no_data_result
with_sustained_iff (value fired) value_text threshold = (λ h. ground arith, λ h. ground arith)
with_sustained_iff no_metric_data value_text threshold = (λ h. ground arith, λ h. ground arith)
with_sustained_iff query_failed value_text threshold = (λ h. ground arith, λ h. ground arith)
with_sustained_iff panics value_text threshold = (λ h. ground arith, λ h. ground arith)

module _ {F : Type 0} (float : Float F) (itoa : ℕ → String) (c : Checker F) (now : ℕ) (pod : String)
    (chain : BlockchainType) where
  -- The restarts before the window, for the answer to the range query: an error counts as 0.
  abbrev pub past_restarts : Reply (List MatrixSeries) → Option F
  past_restarts (value series) = some (first_point float itoa c series)
  past_restarts no_metric_data = some (float.decimal 0 0)
  past_restarts query_failed = some (float.decimal 0 0)
  past_restarts panics = none

  abbrev pub window_reply : Reply (List MatrixSeries)
  window_reply =
      let start = now - c.t.crash_loop_window * minute in
      c.m.range_values now (restarts_query float itoa c pod) start (start + 30 * second) "30s"

  -- The condition of each trigger.
  abbrev pub Fires : TriggerName → Type 0
  Fires sync_lag =
      (query : String) × (sync_lag_query chain pod ≡ some query)
      × ((v : F) × (c.m.instant_value now query ≡ value v))
      × (c.m.sustained now query (sync_lag_threshold float c.t chain) c.t.sync_lag_duration
          ≡ value true)
  Fires error_rate =
      (v : F) × (c.m.instant_value now (error_rate_query float itoa c pod) ≡ value v)
      × (float.greater v c.t.error_rate ≡ true)
  Fires latency =
      ((v : F) × (c.m.instant_value now (latency_query float itoa c pod) ≡ value v))
      × (c.m.sustained now (latency_query float itoa c pod) (latency_threshold float c.t chain)
            c.t.latency_duration
          ≡ value true)
  Fires crash_loop =
      (v : F) × (past : F) × (c.m.instant_value now (restarts_query float itoa c pod) ≡ value v)
      × (past_restarts window_reply ≡ some past)
      × (float.at_least (float.minus v past) (float.decimal c.t.crash_loop_restarts 0) ≡ true)
  Fires disk_usage =
      (v : F) × (c.m.instant_value now (disk_usage_query float itoa c pod) ≡ value v)
      × (float.greater v c.t.disk_usage ≡ true)

  abbrev fired_of : TriggerName → Bool
  fired_of n = (safe_eval (eval float itoa c n now pod chain)).fired

  with_past_iff :
      (reply : Reply (List MatrixSeries)) (v : F)
      → ((safe_eval (with_past float itoa c reply v)).fired ≡ true) ↔ (
          (past : F) × (past_restarts reply ≡ some past)
          × (float.at_least (float.minus v past) (float.decimal c.t.crash_loop_restarts 0) ≡ true))
  unfolding no_data_result
  with_past_iff (value series) v =
      (λ h. (first_point float itoa c series, refl, h), λ h. ground arith)
  with_past_iff no_metric_data v = (λ h. (float.decimal 0 0, refl, h), λ h. ground arith)
  with_past_iff query_failed v = (λ h. (float.decimal 0 0, refl, h), λ h. ground arith)
  with_past_iff panics v = (λ h. ground arith, λ h. ground arith)

  -- A value, and a level held for some time.
  held_iff :
      (reply : Reply F) (held : Reply Bool) (text : F → String) (threshold : String)
      → ((safe_eval (
            with_value reply threshold λ v. with_sustained held λ fired.
              some (record { fired = fired; value = text v; threshold = threshold }))).fired
          ≡ true)
        ↔ (((v : F) × (reply ≡ value v)) × (held ≡ value true))
  held_iff reply held text threshold =
      let asked = with_value_iff reply threshold _ in
      let holds = λ (v : F). with_sustained_iff held (text v) threshold in
      (
        λ h. let (v, e, fired) = asked.0 h in ((v, e), (holds v).0 fired),
        λ h. let ((v, e), fired) = h in asked.1 (v, e, (holds v).1 fired),
      )

  -- A value, compared with the one at the start of the window.
  crash_iff :
      (reply : Reply F) (window : Reply (List MatrixSeries)) (threshold : String)
      → ((safe_eval (with_value reply threshold λ v. with_past float itoa c window v)).fired ≡ true)
        ↔ ((v : F) × (past : F) × (reply ≡ value v)
            × (past_restarts window ≡ some past)
            × (float.at_least (float.minus v past) (float.decimal c.t.crash_loop_restarts 0)
                ≡ true))
  crash_iff reply window threshold =
      let asked = with_value_iff reply threshold _ in
      let counted = λ (v : F). with_past_iff window v in
      (
        λ h.
            let (v, e, fired) = asked.0 h in
            let (past, p, reached) = (counted v).0 fired in (v, past, e, p, reached),
        λ h. let (v, past, e, p, reached) = h in asked.1 (v, e, (counted v).1 (past, p, reached)),
      )

  -- The sync lag, for a chain that has a query or none.
  sync_lag_iff :
      (asked : Option String) (threshold : F)
      → ((safe_eval (ask_sync_lag float itoa c now threshold asked)).fired ≡ true) ↔ (
          (query : String) × (asked ≡ some query)
          × ((v : F) × (c.m.instant_value now query ≡ value v))
          × (c.m.sustained now query threshold c.t.sync_lag_duration ≡ value true))
  unfolding ask_sync_lag no_data_result
  sync_lag_iff none threshold =
      (λ h. absurd (ground arith), λ (query, e, _, _). absurd (ground arith))
  sync_lag_iff (some query) threshold =
      let held =
        held_iff (c.m.instant_value now query)
          (c.m.sustained now query threshold c.t.sync_lag_duration) (format_metric float)
          (format_metric float threshold) in
      (
        λ h. let (v, lasts) = held.0 h in (query, refl, v, lasts),
        λ (other, e, v, lasts).
            let same : other ≡ query = ground arith in held.1 (rw same at v, rw same at lasts),
      )

  -- Each trigger fires exactly under its condition.
  pub fired_of-Fires : (n : TriggerName) → (fired_of n ≡ true) ↔ Fires n
  unfolding eval_sync_lag eval_error_rate eval_latency eval_crash_loop eval_disk_usage
  fired_of-Fires sync_lag = sync_lag_iff _ _
  fired_of-Fires error_rate =
      with_value_iff (c.m.instant_value now (error_rate_query float itoa c pod)) _ _
  fired_of-Fires latency = held_iff _ _ _ _
  fired_of-Fires crash_loop = crash_iff _ _ _
  fired_of-Fires disk_usage =
      with_value_iff (c.m.instant_value now (disk_usage_query float itoa c pod)) _ _

  not_fired : {b : Bool} → ¬ (b ≡ true) → b ≡ false
  not_fired {b = true} never = absurd (never refl)
  not_fired {b = false} never = refl

  quiet_iff :
      (is_healthy (check_all float itoa c now pod chain) ≡ true)
      ↔ ((c.m.healthy now ≡ false) ⊎ ((n : TriggerName) → fired_of n ≡ false))
  unfolding check_all is_healthy no_data_result
  quiet_iff = elim (Bool-cases (c.m.healthy now)) [
    | inl e ↦ (
      λ h. inr (elim [
        | sync_lag ↦ ground arith
        | error_rate ↦ ground arith
        | latency ↦ ground arith
        | crash_loop ↦ ground arith
        | disk_usage ↦ ground arith
      ]),
      λ h. elim h [
        | inl off ↦ ground arith
        | inr quiet ↦
            let s = quiet sync_lag in
            let r = quiet error_rate in
            let l = quiet latency in
            let k = quiet crash_loop in let d = quiet disk_usage in ground arith
      ],
    )
    | inr e ↦ (λ h. inl e, λ h. ground arith)
  ]

  -- A pod counts as healthy exactly if the backend cannot be reached, or no trigger's condition
  -- holds.
  pub healthy_iff :
      (is_healthy (check_all float itoa c now pod chain) ≡ true)
      ↔ ((c.m.healthy now ≡ false) ⊎ ((n : TriggerName) → ¬ (Fires n)))
  healthy_iff = (
    λ h. elim (quiet_iff.0 h) [
      | inl off ↦ inl off
      | inr quiet ↦
          inr λ n fires. let f = (fired_of-Fires n).1 fires in let q = quiet n in ground arith
    ],
    λ h. elim h [
      | inl off ↦ quiet_iff.1 (inl off)
      | inr never ↦ quiet_iff.1 (inr λ n. not_fired λ fired. never n ((fired_of-Fires n).0 fired))
    ],
  )
