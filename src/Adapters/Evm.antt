-- ===== src/Adapters/Evm.antt =====
-- internal/adapters/evm.go and the health check of ethereum.go: nodes with the Ethereum JSON-RPC.
pub mod Scan
pub mod Stages
pub mod Synced
use chainplane.Prelude.{
  ℕ, String, Bool, true, false, Option, none, some, List, [], ◌∷◌, ◌||◌, ◌&&◌, not, str_eq,
  if◌then◌else◌,
}
use chainplane.Errors.{Result, ok, err, check_failed}
use chainplane.Adapters.Int64.{lt64, is_positive, minus_one, to_int32}
use chainplane.Adapters.Status.{SyncStatus}
use chainplane.Adapters.Session.{Node, Query, pure, ◌>>=◌}
use chainplane.Adapters.Payloads.{GoTexts, SyncStage, EthSyncing, AdapterTools}
use chainplane.Adapters.Rpc.{
  RpcResult, answered, failed, is_context_timeout, progress_from_blocks, busy, synced_at, call_rpc,
}

-- polygonStages
abbrev pub is_polygon_stage : String → Bool
is_polygon_stage name = str_eq name "BorHeimdall" || str_eq name "Translation"

-- postSyncStages
abbrev pub is_post_sync_stage : String → Bool
is_post_sync_stage name =
    str_eq name "IndexStorageHistory"
    || str_eq name "IndexAccountHistory"
    || str_eq name "IndexLogAddressTopics"
    || str_eq name "LogIndex"
    || str_eq name "TxLookup"
    || str_eq name "CallTraces"
    || str_eq name "Finish"

-- The variables of the loops over the stages; `bottleneck` is read by the Ethereum adapter only.
pub record StageScan : Type 0 where
  pub current : ℕ
  pub highest : ℕ
  pub bottleneck : String

abbrev pub no_stages : StageScan
no_stages = record { current = minus_one; highest = 0; bottleneck = "" }

-- A stage that is not excluded, in evmHealthCheck.
unfoldable pub note_stage : StageScan → String → ℕ → StageScan
note_stage scan name n = record scan {
  highest = if lt64 scan.highest n then n else scan.highest;
  current =
      if is_positive n && (lt64 scan.current 0 || lt64 n scan.current) then n else scan.current;
}

-- A stage that is not excluded, in the Ethereum adapter: a height of 0 counts too.
unfoldable pub note_ethereum_stage : StageScan → String → ℕ → StageScan
note_ethereum_stage scan name n =
    let is_lowest = lt64 scan.current 0 || lt64 n scan.current in
    record {
      highest = if lt64 scan.highest n then n else scan.highest;
      current = if is_lowest then n else scan.current;
      bottleneck = if is_lowest then name else scan.bottleneck;
    }

-- `if current < 0 { current = 0 }`
abbrev pub settle : StageScan → StageScan
settle scan = record scan { current = if lt64 scan.current 0 then 0 else scan.current }

module _ (texts : GoTexts) where
  -- hexToInt64
  unfoldable pub hex_to_int64 : String → ℕ
  hex_to_int64 hex =
      let digits = texts.trim_prefix hex "0x" in
      if str_eq digits "" then 0 else texts.scan_hex digits

  -- The loop over the stages in evmHealthCheck.
  unfoldable pub scan_stages : StageScan → List SyncStage → StageScan
  scan_stages scan [] = scan
  scan_stages scan (s ∷ stages) =
      scan_stages
        (if is_polygon_stage s.name then scan else note_stage scan s.name (hex_to_int64 s.block))
        stages

  -- The loop over the stages in the Ethereum adapter.
  unfoldable pub scan_ethereum_stages : StageScan → List SyncStage → StageScan
  scan_ethereum_stages scan [] = scan
  scan_ethereum_stages scan (s ∷ stages) =
      scan_ethereum_stages
        (if is_polygon_stage s.name
          then scan
          else note_ethereum_stage scan s.name (hex_to_int64 s.block))
        stages

  -- The heights of a syncing object in evmHealthCheck, at a block number.
  unfoldable pub evm_heights : EthSyncing → ℕ → ℕ × ℕ
  evm_heights o block = elim o.stages [
    | [] ↦ (block, hex_to_int64 o.highest_block)
    | _ ∷ _ ↦ let scan = settle (scan_stages no_stages o.stages) in (scan.current, scan.highest)
  ]

  -- The heights of a syncing object in the Ethereum adapter.
  unfoldable pub ethereum_heights : EthSyncing → ℕ → ℕ × ℕ
  ethereum_heights o block = elim o.stages [
    | [] ↦ (block, hex_to_int64 o.highest_block)
    | _ ∷ _ ↦
        let scan = settle (scan_ethereum_stages no_stages o.stages) in
        (
          if is_positive scan.highest && is_post_sync_stage scan.bottleneck
              then scan.highest
              else scan.current,
          scan.highest,
        )
  ]

module _ {F : Type 0} (tools : AdapterTools F) where
  -- The report of a node that is syncing, with its height and the highest one.
  unfoldable pub evm_syncing : ℕ → ℕ × ℕ → SyncStatus F
  evm_syncing peers heights = record {
    is_syncing = true;
    current_block = heights.0;
    highest_block = heights.1;
    peers = peers;
    progress = progress_from_blocks tools heights.0 heights.1;
    stall_exempt = true;
  }

  -- `json.Unmarshal(syncResult, &syncingFalse)` without an error, and false
  unfoldable pub says_synced : String → Bool
  says_synced sync = elim (tools.json.bool sync) [ none ↦ false | some b ↦ not b ]

  -- The end of both checks: the report of an answer to eth_syncing.
  unfoldable pub judge_sync : (EthSyncing → ℕ → ℕ × ℕ) → String → ℕ → ℕ → Result (SyncStatus F)
  judge_sync heights sync block peers =
      if says_synced sync
      then ok (synced_at tools block peers)
      else (elim (tools.json.eth_syncing sync) [
        | none ↦ err check_failed
        | some o ↦ ok (evm_syncing peers (heights o block))
      ])

  -- The part of evmPeerCount that follows the call.
  unfoldable pub peers_of : RpcResult → ℕ
  peers_of (failed _) = 0
  peers_of (answered r) = elim (tools.json.text r) [
    | none ↦ 0
    | some hex ↦ to_int32 (hex_to_int64 tools.texts hex)
  ]

  -- The block number in an answer to eth_blockNumber.
  unfoldable pub block_of : RpcResult → Option ℕ
  block_of (failed _) = none
  block_of (answered r) = elim (tools.json.text r) [
    | none ↦ none
    | some hex ↦ some (hex_to_int64 tools.texts hex)
  ]

  module _ (node : Node) (url : String) where
    -- evmPeerCount
    unfoldable pub evm_peer_count : Query ℕ
    evm_peer_count = call_rpc tools node url "net_peerCount" "" >>= λ r. pure (peers_of r)

    -- The part of evmHealthCheck that follows the block number.
    unfoldable pub evm_from_block : String → Option ℕ → Query (Result (SyncStatus F))
    evm_from_block sync none = pure (err check_failed)
    evm_from_block sync (some block) =
        evm_peer_count >>= λ peers. pure (judge_sync (evm_heights tools.texts) sync block peers)

    -- The part of evmHealthCheck that follows eth_syncing.
    unfoldable pub evm_from_sync : RpcResult → Query (Result (SyncStatus F))
    evm_from_sync (failed e) = pure (
        if is_context_timeout tools.texts e
        then ok (busy tools (tools.floats.float.decimal 0 0))
        else err check_failed)
    evm_from_sync (answered sync) =
        call_rpc tools node url "eth_blockNumber" "" >>= λ r. evm_from_block sync (block_of r)

    -- evmHealthCheck
    unfoldable pub evm_health_check : Query (Result (SyncStatus F))
    evm_health_check = call_rpc tools node url "eth_syncing" "" >>= evm_from_sync

    -- The report of the Ethereum adapter where eth_syncing timed out.
    unfoldable pub ethereum_busy : ℕ → SyncStatus F
    ethereum_busy block = record {
      is_syncing = true;
      current_block = block;
      highest_block = block;
      peers = 0;
      progress = tools.floats.float.decimal 100 0;
      stall_exempt = true;
    }

    -- The part of the Ethereum adapter's check that follows eth_blockNumber.
    unfoldable pub ethereum_from_block : RpcResult → ℕ → Query (Result (SyncStatus F))
    ethereum_from_block (failed e) block =
        pure
          (if is_context_timeout tools.texts e then ok (ethereum_busy block) else err check_failed)
    ethereum_from_block (answered sync) block = evm_peer_count >>= λ peers.
        pure (judge_sync (ethereum_heights tools.texts) sync block peers)

    -- The block number, 0 where there is none.
    abbrev pub or_zero : Option ℕ → ℕ
    or_zero none = 0
    or_zero (some block) = block

    -- The part of the Ethereum adapter's check that follows eth_syncing: eth_blockNumber is called anyway.
    unfoldable pub ethereum_from_sync : RpcResult → Query (Result (SyncStatus F))
    ethereum_from_sync sync = call_rpc tools node url "eth_blockNumber" "" >>= λ block.
        ethereum_from_block sync (or_zero (block_of block))

    -- HealthCheck of ethereumAdapter
    unfoldable pub ethereum_health_check : Query (Result (SyncStatus F))
    ethereum_health_check = call_rpc tools node url "eth_syncing" "" >>= ethereum_from_sync
