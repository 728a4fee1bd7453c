-- ===== src/Adapters/Comet.antt =====
-- internal/adapters/cosmos.go, and the health checks of axelar.go, dymension.go, evmos.go, kava.go, moca.go,
-- osmosis.go and sei.go: nodes with the RPC of CometBFT.
use Prim.Native.String.{◌++◌}
use chainplane.Prelude.{ℕ, ◌-◌, String, Bool, false, Option, none, some, ◌&&◌, ◌==◌, if◌then◌else◌}
use chainplane.Errors.{Result, ok, err, check_failed}
use chainplane.Adapters.Int64.{lt64, add64, to_int32}
use chainplane.Adapters.Status.{SyncStatus}
use chainplane.Adapters.Session.{Node, Query, pure, ◌>>=◌, now}
use chainplane.Adapters.Payloads.{CosmosSyncInfo, AdapterTools}
use chainplane.Adapters.Rpc.{parse_decimal_int64, progress_from_blocks, syncing_pseudo}
use chainplane.Adapters.Get.{Got, http_get, decode_got}

module _ {F : Type 0} (tools : AdapterTools F) (block_time : F) where
  -- `time.Since(blockTime).Seconds()`, where the clock is not behind the block
  abbrev pub lag_seconds : ℕ → ℕ → F
  lag_seconds now at = tools.floats.of_seconds (now - at)

  -- The height that the age of the latest block lets expect.
  unfoldable pub expected_height : ℕ → CosmosSyncInfo → ℕ → ℕ
  expected_height now info height = elim (tools.texts.parse_time_nano info.latest_block_time) [
    | none ↦ height
    | some at ↦
        let lag = lag_seconds now at in
        if tools.floats.float.greater lag block_time
        then add64 height (tools.floats.to_int64 (tools.floats.float.over lag block_time))
        else height
  ]

  -- The end of the check, with the highest block and the number of peers.
  unfoldable pub comet_status : Bool → ℕ → ℕ → ℕ → SyncStatus F
  comet_status syncing height highest peers = record {
    is_syncing = syncing;
    current_block = height;
    highest_block = highest;
    peers = peers;
    progress =
        if syncing
        then progress_from_blocks tools height highest
        else tools.floats.float.decimal 100 0;
    stall_exempt = false;
  }

  module _ (node : Node) (url : String) where
    -- cosmosNetworkTip
    unfoldable pub cosmos_network_tip : Query ℕ
    cosmos_network_tip = http_get node (url ++ "/consensus_state") >>= λ g.
        pure (elim (decode_got tools.json.height_round_step g) [
          | none ↦ 0
          | some step ↦ tools.texts.scan_height_round_step step
        ])

    -- The number of peers, from /net_info.
    unfoldable pub comet_peers : Query ℕ
    comet_peers = http_get node (url ++ "/net_info") >>= λ g.
        pure (elim (decode_got tools.json.n_peers g) [
          | none ↦ 0
          | some n ↦ to_int32 (parse_decimal_int64 tools.texts n)
        ])

    -- The highest block of a node that is syncing.
    unfoldable pub comet_highest : CosmosSyncInfo → ℕ → Query ℕ
    comet_highest info height = do
      t ← now node
      tip ← cosmos_network_tip
      let expected = expected_height t info height
      pure (if lt64 expected tip then tip else expected)

    -- The part of the check that follows the status, at a height that counts.
    unfoldable pub comet_from_height : CosmosSyncInfo → ℕ → Query (Result (SyncStatus F))
    comet_from_height info height = do
      highest ← (if info.catching_up then comet_highest info height else pure height)
      peers ← comet_peers
      pure (ok (comet_status info.catching_up height highest peers))

    -- The part of the check that follows /status.
    unfoldable pub comet_from_status : Option CosmosSyncInfo → Query (Result (SyncStatus F))
    comet_from_status none = pure (err check_failed)
    comet_from_status (some info) =
        let height = parse_decimal_int64 tools.texts info.latest_block_height in
        if (height == 0) && info.catching_up
        then (syncing_pseudo tools node >>= λ status. pure (ok status))
        else comet_from_height info height

    unfoldable pub comet_from_answer : Got → Query (Result (SyncStatus F))
    comet_from_answer g = comet_from_status (decode_got tools.json.cosmos_status g)

    -- HealthCheck of cosmosAdapter
    unfoldable pub comet_health_check : Query (Result (SyncStatus F))
    comet_health_check = http_get node (url ++ "/status") >>= comet_from_answer

module _ {F : Type 0} (tools : AdapterTools F) where
  -- HealthCheck of the adapters, each with its time of a block in seconds
  unfoldable pub cosmos_health_check : Node → String → Query (Result (SyncStatus F))
  cosmos_health_check = comet_health_check tools (tools.floats.float.decimal 65 1)

  unfoldable pub axelar_health_check : Node → String → Query (Result (SyncStatus F))
  axelar_health_check = comet_health_check tools (tools.floats.float.decimal 60 1)

  unfoldable pub dymension_health_check : Node → String → Query (Result (SyncStatus F))
  dymension_health_check = comet_health_check tools (tools.floats.float.decimal 60 1)

  unfoldable pub evmos_health_check : Node → String → Query (Result (SyncStatus F))
  evmos_health_check = comet_health_check tools (tools.floats.float.decimal 20 1)

  unfoldable pub kava_health_check : Node → String → Query (Result (SyncStatus F))
  kava_health_check = comet_health_check tools (tools.floats.float.decimal 65 1)

  unfoldable pub moca_health_check : Node → String → Query (Result (SyncStatus F))
  moca_health_check = comet_health_check tools (tools.floats.float.decimal 20 1)

  unfoldable pub osmosis_health_check : Node → String → Query (Result (SyncStatus F))
  osmosis_health_check = comet_health_check tools (tools.floats.float.decimal 60 1)

  unfoldable pub sei_health_check : Node → String → Query (Result (SyncStatus F))
  sei_health_check = comet_health_check tools (tools.floats.float.decimal 4 1)
