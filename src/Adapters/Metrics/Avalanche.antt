-- ===== src/Adapters/Metrics/Avalanche.antt =====
-- internal/adapters/avalanche.go: the health check of Avalanche nodes.
use Prim.Native.String.{◌++◌}
use Prim.Native.Nat.{bit_xor}
use chainplane.Prelude.{
  ℕ, ◌/◌, ◌%◌, ◌^◌, String, Bool, true, false, Option, none, some, List, [], ◌∷◌, ◌&&◌, not, str_eq,
  if◌then◌else◌,
}
use chainplane.Time.{second}
use chainplane.Errors.{Result, ok, err, check_failed}
use chainplane.Adapters.Int64.{add64, is_positive, to_int32}
use chainplane.Adapters.Status.{SyncStatus}
use chainplane.Adapters.Session.{Node, Query, pure, ◌>>=◌, now}
use chainplane.Adapters.Payloads.{AdapterTools}
use chainplane.Adapters.Rpc.{is_timeout_text, busy}
use chainplane.Adapters.Get.{Got, unanswered, http_get, http_request, decode_got}
use chainplane.Adapters.Evm.{evm_health_check}
use chainplane.Adapters.OwnRpc.{bare_status}
use chainplane.Adapters.Metrics.{cardano_prom_metric}

module _ {F : Type 0} (tools : AdapterTools F) where
  -- The variables of avaxBootstrapMetrics behind a line.
  unfoldable pub note_avax_line : ℕ × Bool → String → ℕ × Bool
  note_avax_line seen line = elim (cardano_prom_metric tools line) [
    | none ↦ seen
    | some v ↦ (
      (if tools.texts.has_prefix line "avalanche_snowman_bs_fetched{chain=\"P\"}"
          then tools.floats.to_int64 v
          else seen.0),
      (if tools.texts.has_prefix line "avalanche_snowman_bootstrap_finished{chain=\"P\"}"
          then (tools.floats.float.at_least v (tools.floats.float.decimal 1 0)
              && tools.floats.float.at_least (tools.floats.float.decimal 1 0) v)
          else seen.1),
    )
  ]

  unfoldable pub scan_avax : ℕ × Bool → List String → ℕ × Bool
  scan_avax seen [] = seen
  scan_avax seen (line ∷ rest) = scan_avax (note_avax_line seen line) rest

  module _ (node : Node) (url : String) where
    -- avaxPeerCount
    unfoldable pub avax_peer_count : Query ℕ
    avax_peer_count =
        http_request node (record {
          method = "POST";
          url = url ++ "/ext/info";
          body = tools.json.rpc_request "info.peers" "";
        })
        >>= λ g. pure (elim (decode_got tools.json.avax_peers g) [ none ↦ 0 | some n ↦ to_int32 n ])

    -- avaxBootstrapMetrics
    unfoldable pub avax_bootstrap_metrics : Query (ℕ × Bool)
    avax_bootstrap_metrics = http_get node (url ++ "/ext/metrics") >>= λ g.
        pure (elim (decode_got (λ body. some (tools.texts.lines body)) g) [
          | none ↦ (0, false)
          | some lines ↦ scan_avax (0, false) lines
        ])

    -- The height of a node that bootstraps: the time keeps it moving.
    unfoldable pub avax_height : ℕ × Bool → ℕ → ℕ
    avax_height seen t =
        if not seen.1 && is_positive seen.0 then bit_xor seen.0 (t / second % 2 ^ 16) else seen.0

    -- The report of a node that bootstraps.
    unfoldable pub avax_bootstrapping : Query (Result (SyncStatus F))
    avax_bootstrapping = do
      seen ← avax_bootstrap_metrics
      t ← now node
      peers ← avax_peer_count
      pure (
          ok (record (bare_status tools true peers) {
            current_block = avax_height seen t;
            highest_block = add64 (avax_height seen t) 1;
          }))

    -- The number of peers in a report that is no error.
    unfoldable pub avax_with_peers : Result (SyncStatus F) → Query (Result (SyncStatus F))
    avax_with_peers (err e) = pure (err e)
    avax_with_peers (ok status) =
        avax_peer_count >>= λ peers. pure (ok (record status { peers = peers }))

    -- The part of the check of Avalanche that follows the decoding: the error of the check "bootstrapped", if
    -- there is one.
    unfoldable pub avax_from_health : Option (Option String) → Query (Result (SyncStatus F))
    avax_from_health none = pure (err check_failed)
    avax_from_health (some bootstrapped) =
        if (elim bootstrapped [ none ↦ false | some e ↦ not (str_eq e "") ])
        then avax_bootstrapping
        else (evm_health_check tools node (url ++ "/ext/bc/C/rpc") >>= avax_with_peers)

    unfoldable pub avax_from_answer : Got → Query (Result (SyncStatus F))
    avax_from_answer (unanswered cause _) = pure (
        if is_timeout_text tools.texts cause
        then ok (busy tools (tools.floats.float.decimal 1 0))
        else err check_failed)
    avax_from_answer g = avax_from_health (decode_got tools.json.avax_bootstrap_error g)

    -- HealthCheck of avalancheAdapter
    unfoldable pub avalanche_health_check : Query (Result (SyncStatus F))
    avalanche_health_check = http_get node (url ++ "/ext/health") >>= avax_from_answer
