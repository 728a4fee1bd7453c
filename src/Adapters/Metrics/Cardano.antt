-- ===== src/Adapters/Metrics/Cardano.antt =====
-- internal/adapters/cardano.go: the health check of Cardano nodes.
use Prim.Native.String.{◌++◌}
use chainplane.Prelude.{
  ℕ, ◌+◌, ◌-◌, ◌/◌, String, true, false, none, some, List, [], ◌∷◌, ltb, if◌then◌else◌,
}
use chainplane.Time.{second}
use chainplane.Errors.{Result, ok, err, check_failed}
use chainplane.Adapters.Int64.{add64, to_int32}
use chainplane.Adapters.Status.{SyncStatus}
use chainplane.Adapters.Session.{Node, Query, pure, ◌>>=◌, now}
use chainplane.Adapters.Payloads.{AdapterTools}
use chainplane.Adapters.Rpc.{report_pseudo, pseudo_block}
use chainplane.Adapters.Get.{Got, unanswered, got, http_get}
use chainplane.Adapters.OwnRpc.{bare_status}
use chainplane.Adapters.Metrics.{
  zero_float, cardano_prom_metric, set_metric, keep_metric, capped_percent, percent_of,
  report_pseudo,
}

-- The variables of the loop over the metrics of Cardano.
pub record CardanoMetrics (F : Type 0) : Type 0 where
  pub block_num : F
  pub slot_num : F
  pub replay_progress : F
  pub cardano_peers : ℕ

module _ {F : Type 0} (tools : AdapterTools F) where
  -- A line of the metrics of Cardano.
  unfoldable pub note_cardano_line : CardanoMetrics F → String → CardanoMetrics F
  note_cardano_line m line = if tools.texts.has_prefix line "#" then m else record {
    block_num = set_metric tools "cardano_node_metrics_blockNum_int " line m.block_num;
    slot_num = set_metric tools "cardano_node_metrics_slotNum_int " line m.slot_num;
    replay_progress =
        set_metric tools "cardano_node_metrics_blockReplayProgress_real " line m.replay_progress;
    cardano_peers =
        keep_metric tools (cardano_prom_metric tools)
          "cardano_node_metrics_peerSelection_hot_peers_int " line
          (λ v.
            if tools.floats.float.greater v (zero_float tools)
            then to_int32 (tools.floats.to_int64 v)
            else m.cardano_peers)
          m.cardano_peers;
  }

  unfoldable pub scan_cardano : CardanoMetrics F → List String → CardanoMetrics F
  scan_cardano m [] = m
  scan_cardano m (line ∷ rest) = scan_cardano (note_cardano_line m line) rest

  -- cardanoNetworkTip, on whole seconds since the epoch
  unfoldable pub cardano_network_tip : ℕ → ℕ
  cardano_network_tip seconds =
      if ltb seconds 1596059091 then 4924800 else add64 4924800 (seconds - 1596059091)

  -- The end of the check of Cardano, for a block number that is not 0.
  unfoldable pub cardano_status : ℕ → CardanoMetrics F → SyncStatus F
  cardano_status t m =
      let progress =
        capped_percent tools (
          percent_of tools m.slot_num (tools.floats.of_int64 (cardano_network_tip (t / second)))) in
      record {
        is_syncing = tools.floats.float.greater (tools.floats.float.decimal 995 1) progress;
        current_block = tools.floats.to_int64 m.block_num;
        highest_block = tools.floats.to_int64 (
            tools.floats.float.over m.block_num
              (tools.floats.float.over progress (tools.floats.float.decimal 100 0)));
        peers = m.cardano_peers;
        progress = progress;
        stall_exempt = false;
      }

  module _ (node : Node) (url : String) where
    -- The address of the metrics of Cardano.
    unfoldable pub cardano_metrics_url : String
    cardano_metrics_url =
        if tools.texts.contains url "12798"
        then url
        else (elim (tools.texts.at_port url "12798") [ none ↦ url | some u ↦ u ])

    -- The part of the check of Cardano that follows the loop.
    unfoldable pub cardano_from_metrics : CardanoMetrics F → Query (Result (SyncStatus F))
    cardano_from_metrics m =
        if tools.floats.float.is_zero m.block_num
        then (pseudo_block tools node >>= λ p. pure (
            ok (record (bare_status tools true 0) {
              current_block = p;
              highest_block = p + 1;
              progress = m.replay_progress;
            })))
        else (now node >>= λ t. pure (ok (cardano_status t m)))

    unfoldable pub cardano_from_answer : Got → Query (Result (SyncStatus F))
    cardano_from_answer (got _ body none) = cardano_from_metrics (
        scan_cardano
          (record {
            block_num = zero_float tools;
            slot_num = zero_float tools;
            replay_progress = zero_float tools;
            cardano_peers = 0;
          })
          (tools.texts.lines body))
    cardano_from_answer (unanswered _ _) = report_pseudo tools node
    cardano_from_answer _ = pure (err check_failed)

    -- HealthCheck of cardanoAdapter
    unfoldable pub cardano_health_check : Query (Result (SyncStatus F))
    cardano_health_check = http_get node (cardano_metrics_url ++ "/metrics") >>= cardano_from_answer
