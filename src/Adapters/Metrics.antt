-- ===== src/Adapters/Metrics.antt =====
-- internal/adapters: reading the Prometheus metrics of nodes line by line. The checks are in the child modules.
pub mod Aptos
pub mod Sui
pub mod Cardano
pub mod Avalanche
use Prim.Native.String.{◌++◌}
use Prim.Native.Nat.{bit_xor}
use chainplane.Prelude.{
  ℕ, ◌+◌, ◌-◌, ◌/◌, ◌%◌, ◌^◌, String, Bool, true, false, Option, none, some, List, [], ◌∷◌, ◌&&◌,
  ◌==◌, not, str_eq, ltb, if◌then◌else◌,
}
use chainplane.Time.{second}
use chainplane.Errors.{Result, ok, err, check_failed}
use chainplane.Adapters.Int64.{lt64, add64, is_positive, to_int32}
use chainplane.Adapters.Status.{SyncStatus}
use chainplane.Adapters.Session.{Node, Query, pure, ◌>>=◌, now}
use chainplane.Adapters.Payloads.{AdapterTools}
use chainplane.Adapters.Rpc.{
  report_pseudo, is_timeout_text, pseudo_block, syncing_pseudo, busy, synced_at,
}
use chainplane.Adapters.Get.{Got, unanswered, got, http_get, http_request, decode_got, decode_whole}
use chainplane.Adapters.Evm.{evm_health_check}
use chainplane.Adapters.OwnRpc.{bare_status}

-- `fields[1]`, if there are two fields or more
abbrev pub second_field : List String → Option String
second_field (_ ∷ f ∷ _) = some f
second_field _ = none

abbrev pub last_field : List String → String → String
last_field [] last = last
last_field (f ∷ fs) last = last_field fs f

module _ {F : Type 0} (tools : AdapterTools F) where
  abbrev pub zero_float : F
  zero_float = tools.floats.float.decimal 0 0

  -- cardanoPromMetric: the second field, by strconv.ParseFloat
  unfoldable pub cardano_prom_metric : String → Option F
  cardano_prom_metric line = elim (second_field (tools.texts.fields line)) [
    | none ↦ none
    | some f ↦ tools.floats.float.parse f
  ]

  -- parsePromMetric: the second field, by fmt.Sscanf
  unfoldable pub parse_prom_metric : String → Option F
  parse_prom_metric line = elim (second_field (tools.texts.fields line)) [
    | none ↦ none
    | some f ↦ tools.floats.scan f
  ]

  -- `if strings.HasPrefix(line, name) { v, _ = … }`: 0 where the line has no number
  abbrev pub set_metric : String → String → F → F
  set_metric name line v =
      if tools.texts.has_prefix line name
      then (elim (cardano_prom_metric line) as (λ _. F) [ none ↦ zero_float | some x ↦ x ])
      else v

  -- The same, where a line without a number changes nothing.
  abbrev pub keep_metric : {A : Type 0} → (String → Option F) → String → String → (F → A) → A → A
  keep_metric metric name line of_metric v =
      if tools.texts.has_prefix line name
      then (elim (metric line) [ none ↦ v | some x ↦ of_metric x ])
      else v

  -- The end of a ratio of heights in per cent, at most 100.
  abbrev pub capped_percent : F → F
  capped_percent p =
      if tools.floats.float.greater p (tools.floats.float.decimal 100 0)
      then tools.floats.float.decimal 100 0
      else p

  abbrev pub percent_of : F → F → F
  percent_of part whole =
      tools.floats.float.times (tools.floats.float.over part whole)
        (tools.floats.float.decimal 100 0)
