-- ===== src/Adapters/Metrics/Sui.antt =====
-- internal/adapters/sui.go: the health check of Sui nodes.
use Prim.Native.String.{◌++◌}
use chainplane.Prelude.{ℕ, String, false, none, some, List, [], ◌∷◌, ◌&&◌, ◌==◌, not, if◌then◌else◌}
use chainplane.Errors.{Result, ok, err, check_failed}
use chainplane.Adapters.Int64.{lt64, is_positive, to_int32}
use chainplane.Adapters.Status.{SyncStatus}
use chainplane.Adapters.Session.{Node, Query, pure, ◌>>=◌}
use chainplane.Adapters.Payloads.{AdapterTools}
use chainplane.Adapters.Rpc.{report_pseudo}
use chainplane.Adapters.Get.{Got, unanswered, got, http_get, http_request, decode_whole}
use chainplane.Adapters.Metrics.{
  zero_float, parse_prom_metric, keep_metric, capped_percent, percent_of, report_pseudo,
}

-- The variables of the loop over the metrics of Sui.
pub record SuiMetrics (F : Type 0) : Type 0 where
  pub highest_synced : F
  pub last_executed : F
  pub sui_peers : ℕ

module _ {F : Type 0} (tools : AdapterTools F) where
  -- A line of the metrics of Sui.
  unfoldable pub note_sui_line : SuiMetrics F → String → SuiMetrics F
  note_sui_line m line = if tools.texts.has_prefix line "#" then m else record {
    highest_synced =
        keep_metric tools (parse_prom_metric tools) "highest_synced_checkpoint " line (λ v. v)
          m.highest_synced;
    last_executed =
        keep_metric tools (parse_prom_metric tools) "last_executed_checkpoint " line (λ v. v)
          m.last_executed;
    sui_peers =
        keep_metric tools (parse_prom_metric tools) "sui_quinn_network_peers " line
          (λ v. to_int32 (tools.floats.to_int64 v)) m.sui_peers;
  }

  unfoldable pub scan_sui : SuiMetrics F → List String → SuiMetrics F
  scan_sui m [] = m
  scan_sui m (line ∷ rest) = scan_sui (note_sui_line m line) rest

  -- The height of Sui: the executed checkpoint, or the synced one.
  unfoldable pub sui_height : SuiMetrics F → ℕ
  sui_height m =
      let executed = tools.floats.to_int64 m.last_executed in
      if executed == 0 then tools.floats.to_int64 m.highest_synced else executed

  -- The end of the check of Sui, at the tip of the network.
  unfoldable pub sui_status : ℕ → ℕ → ℕ → SyncStatus F
  sui_status peers current network_tip =
      let tip = if network_tip == 0 then current else network_tip in
      let syncing = lt64 current tip in
      record {
        is_syncing = syncing;
        current_block = current;
        highest_block = if not syncing then current else tip;
        peers = peers;
        progress =
            if is_positive tip
            then capped_percent tools
                (percent_of tools (tools.floats.of_int64 current) (tools.floats.of_int64 tip))
            else zero_float tools;
        stall_exempt = false;
      }

  module _ (node : Node) (url : String) where
    -- suiNetworkTip
    unfoldable pub sui_network_tip : Query ℕ
    sui_network_tip =
        http_request node (record {
          method = "POST";
          url = "https://sui-rpc.publicnode.com";
          body =
              "{\"jsonrpc\":\"2.0\",\"method\":\"suix_getLatestCheckpointSequenceNumber\",\"params\":[],\"id\":1}";
        })
        >>= λ g. pure (elim (decode_whole tools.json.result_text g) [
          | none ↦ 0
          | some n ↦ (tools.texts.parse_int 10 n).0
        ])

    -- The part of the check of Sui that follows the loop.
    unfoldable pub sui_from_metrics : SuiMetrics F → Query (Result (SyncStatus F))
    sui_from_metrics m =
        if tools.floats.float.is_zero m.highest_synced && tools.floats.float.is_zero m.last_executed
        then report_pseudo tools node
        else (sui_network_tip >>= λ tip. pure (ok (sui_status m.sui_peers (sui_height m) tip)))

    unfoldable pub sui_from_answer : Got → Query (Result (SyncStatus F))
    sui_from_answer (got _ body none) = sui_from_metrics (
        scan_sui
          (record {
            highest_synced = zero_float tools;
            last_executed = zero_float tools;
            sui_peers = 0;
          })
          (tools.texts.lines body))
    sui_from_answer (unanswered _ _) = report_pseudo tools node
    sui_from_answer _ = pure (err check_failed)

    -- HealthCheck of suiAdapter
    unfoldable pub sui_health_check : Query (Result (SyncStatus F))
    sui_health_check = elim (tools.texts.hostname url) [
      | none ↦ pure (err check_failed)
      | some host ↦ http_get node ("http://" ++ host ++ ":9184/metrics") >>= sui_from_answer
    ]
