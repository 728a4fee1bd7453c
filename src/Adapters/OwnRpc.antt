-- ===== src/Adapters/OwnRpc.antt =====
-- internal/adapters, the checks of kusama.go, polkadot.go, starknet.go, filecoin.go, solana.go and xrp.go: nodes
-- with a JSON-RPC of their own.
use chainplane.Prelude.{
  ℕ, String, Bool, true, false, Option, none, some, List, [], ◌∷◌, ◌&&◌, ◌||◌, ◌==◌, not, str_eq,
  if◌then◌else◌,
}
use chainplane.Errors.{Result, ok, err, check_failed}
use chainplane.Adapters.Int64.{lt64, add64, is_positive}
use chainplane.Adapters.Status.{SyncStatus}
use chainplane.Adapters.Session.{Node, Query, pure, ◌>>=◌}
use chainplane.Adapters.Payloads.{
  GoTexts, SystemHealth, SyncHeights, FilecoinSync, XrpInfo, AdapterTools,
}
use chainplane.Adapters.Rpc.{
  report_pseudo, RpcResult, answered, failed, is_context_timeout, progress_from_blocks, synced_at,
  call_rpc,
}

-- The result of a call, decoded; `none` too for a call that failed.
abbrev pub decode_answer : {A : Type 0} → (String → Option A) → RpcResult → Option A
decode_answer decode (failed _) = none
decode_answer decode (answered r) = decode r

-- xrpSyncedStates
abbrev pub is_synced_state : String → Bool
is_synced_state s = str_eq s "full" || str_eq s "proposing" || str_eq s "validating"

module _ (texts : GoTexts) where
  -- polkadotParseHexBlock
  unfoldable pub parse_hex_block : String → ℕ
  parse_hex_block hex = (texts.parse_int 16 (texts.trim_prefix (texts.trim_prefix hex "0x") "0X")).0

-- The loop over the workers in the check of Filecoin: whether one syncs, and the highest target.
unfoldable pub scan_syncs : Bool → ℕ → List FilecoinSync → Bool × ℕ
scan_syncs syncing highest [] = (syncing, highest)
scan_syncs syncing highest (w ∷ ws) = elim w.target [
  | none ↦ scan_syncs syncing highest ws
  | some target ↦
      let active = lt64 w.stage 4 in
      scan_syncs (syncing || active) (if active && lt64 highest target then target else highest) ws
]

module _ {F : Type 0} (tools : AdapterTools F) where
  -- A report without heights.
  unfoldable pub bare_status : Bool → ℕ → SyncStatus F
  bare_status syncing peers = record {
    is_syncing = syncing;
    current_block = 0;
    highest_block = 0;
    peers = peers;
    progress = tools.floats.float.decimal 0 0;
    stall_exempt = false;
  }

  -- A report with the progress from the heights.
  unfoldable pub syncing_to : ℕ → ℕ → ℕ → SyncStatus F
  syncing_to current highest peers = record {
    is_syncing = true;
    current_block = current;
    highest_block = highest;
    peers = peers;
    progress = progress_from_blocks tools current highest;
    stall_exempt = false;
  }

  -- A synced report with its heights.
  unfoldable pub synced_to : ℕ → ℕ → ℕ → SyncStatus F
  synced_to current highest peers = record (synced_at tools current peers) {
    highest_block = highest;
  }

  -- The end of substrateHealthCheck.
  unfoldable pub substrate_status : SystemHealth → SyncHeights → SyncStatus F
  substrate_status health s =
      let highest = if not (is_positive s.highest) then s.current else s.highest in
      if not health.is_syncing
      then synced_to s.current highest health.peers
      else syncing_to s.current highest health.peers

  -- The end of the check of Polkadot.
  unfoldable pub polkadot_status : SystemHealth → ℕ → SyncStatus F
  polkadot_status health block =
      if not health.is_syncing then synced_at tools block health.peers else record {
        is_syncing = true;
        current_block = block;
        highest_block = add64 block 1;
        peers = health.peers;
        progress = tools.floats.float.decimal 0 0;
        stall_exempt = false;
      }

  -- The end of the check of Filecoin.
  unfoldable pub filecoin_status : ℕ → List FilecoinSync → SyncStatus F
  filecoin_status height syncs =
      let (syncing, highest) = scan_syncs false 0 syncs in
      if not syncing || (highest == 0)
      then synced_at tools height 0
      else syncing_to height highest 0

  -- The end of the check of XRP.
  unfoldable pub xrp_status : XrpInfo → SyncStatus F
  xrp_status info =
      let synced = is_synced_state info.server_state && lt64 info.validated_age 60 in
      if (info.validated_seq == 0) || str_eq info.complete_ledgers "empty"
      then record (bare_status true info.peers) { current_block = info.closed_seq }
      else record {
        is_syncing = not synced;
        current_block = info.validated_seq;
        highest_block = info.validated_seq;
        peers = info.peers;
        progress =
            if synced then tools.floats.float.decimal 100 0 else tools.floats.float.decimal 99 0;
        stall_exempt = false;
      }

  module _ (node : Node) (url : String) where
    -- A first call that failed: a timeout stands for a node that is busy.
    abbrev pub report_failed : RpcResult → Query (Result (SyncStatus F))
    report_failed (failed e) =
        if is_context_timeout tools.texts e
        then report_pseudo tools node
        else pure (err check_failed)
    report_failed (answered _) = pure (err check_failed)

    -- A call that failed behind system_health.
    abbrev pub report_health : SystemHealth → Query (Result (SyncStatus F))
    report_health health =
        if health.is_syncing
        then report_pseudo tools node
        else pure (ok (bare_status false health.peers))

    -- The part of substrateHealthCheck that follows system_syncState.
    unfoldable pub substrate_from_state : SystemHealth → RpcResult → Query (Result (SyncStatus F))
    substrate_from_state health (failed _) = report_health health
    substrate_from_state health (answered r) = elim (tools.json.sync_state r) [
      | none ↦ pure (err check_failed)
      | some s ↦ pure (ok (substrate_status health s))
    ]

    -- The part of the check of Polkadot that follows chain_getHeader.
    unfoldable pub polkadot_from_header : SystemHealth → RpcResult → Query (Result (SyncStatus F))
    polkadot_from_header health (failed _) = report_health health
    polkadot_from_header health (answered r) = elim (tools.json.header_number r) [
      | none ↦ pure (err check_failed)
      | some number ↦ pure (ok (polkadot_status health (parse_hex_block tools.texts number)))
    ]

    -- A check that goes on with a second call where system_health can be decoded.
    unfoldable pub health_then :
        (SystemHealth → Query (Result (SyncStatus F))) → RpcResult → Query (Result (SyncStatus F))
    health_then rest (failed e) = report_failed (failed e)
    health_then rest (answered r) = elim (tools.json.system_health r) [
      | none ↦ pure (err check_failed)
      | some health ↦ rest health
    ]

    -- substrateHealthCheck
    unfoldable pub substrate_health_check : Query (Result (SyncStatus F))
    substrate_health_check =
        call_rpc tools node url "system_health" ""
        >>= health_then (λ health.
          call_rpc tools node url "system_syncState" "" >>= substrate_from_state health)

    -- HealthCheck of polkadotAdapter
    unfoldable pub polkadot_health_check : Query (Result (SyncStatus F))
    polkadot_health_check =
        call_rpc tools node url "system_health" ""
        >>= health_then
            (λ health. call_rpc tools node url "chain_getHeader" "" >>= polkadot_from_header health)

    -- The part of the check of Starknet that follows starknet_blockNumber.
    unfoldable pub starknet_from_block : RpcResult → Result (SyncStatus F)
    starknet_from_block r = elim (decode_answer tools.json.int64 r) [
      | none ↦ ok (bare_status false 0)
      | some block ↦ ok (synced_at tools block 0)
    ]

    -- `json.Unmarshal(syncResult, &syncing)` without an error, and false
    abbrev pub is_false : String → Bool
    is_false r = elim (tools.json.bool r) [ none ↦ false | some b ↦ not b ]

    unfoldable pub starknet_from_sync : RpcResult → Query (Result (SyncStatus F))
    starknet_from_sync (failed e) = report_failed (failed e)
    starknet_from_sync (answered r) =
        if is_false r
        then (call_rpc tools node url "starknet_blockNumber" "" >>= λ b.
            pure (starknet_from_block b))
        else (elim (tools.json.starknet_syncing r) [
          | none ↦ report_pseudo tools node
          | some s ↦ pure (ok (syncing_to s.current s.highest 0))
        ])

    -- HealthCheck of starknetAdapter
    unfoldable pub starknet_health_check : Query (Result (SyncStatus F))
    starknet_health_check = call_rpc tools node url "starknet_syncing" "" >>= starknet_from_sync

    -- The part of the check of Filecoin that follows Filecoin.SyncState.
    unfoldable pub filecoin_from_state : ℕ → RpcResult → Result (SyncStatus F)
    filecoin_from_state height r = elim (decode_answer tools.json.active_syncs r) [
      | none ↦ ok (synced_at tools height 0)
      | some syncs ↦ ok (filecoin_status height syncs)
    ]

    unfoldable pub filecoin_from_head : RpcResult → Query (Result (SyncStatus F))
    filecoin_from_head (failed e) = report_failed (failed e)
    filecoin_from_head (answered r) = elim (tools.json.tipset_height r) [
      | none ↦ pure (err check_failed)
      | some height ↦ call_rpc tools node url "Filecoin.SyncState" "" >>= λ s.
          pure (filecoin_from_state height s)
    ]

    -- HealthCheck of filecoinAdapter
    unfoldable pub filecoin_health_check : Query (Result (SyncStatus F))
    filecoin_health_check = call_rpc tools node url "Filecoin.ChainHead" "" >>= filecoin_from_head

    -- The part of the check of Solana that follows getEpochInfo.
    unfoldable pub solana_from_epoch : ℕ → RpcResult → SyncStatus F
    solana_from_epoch slot (failed _) = record (bare_status false 0) { current_block = slot }
    solana_from_epoch slot (answered _) = synced_at tools slot 0

    unfoldable pub solana_from_slot : Option ℕ → Query (Result (SyncStatus F))
    solana_from_slot none = pure (err check_failed)
    solana_from_slot (some slot) =
        call_rpc tools node url "getEpochInfo" "" >>= λ e. pure (ok (solana_from_epoch slot e))

    unfoldable pub solana_from_answer : RpcResult → Query (Result (SyncStatus F))
    solana_from_answer r = solana_from_slot (decode_answer tools.json.int64 r)

    -- HealthCheck of solanaAdapter
    unfoldable pub solana_health_check : Query (Result (SyncStatus F))
    solana_health_check = call_rpc tools node url "getSlot" "finalized" >>= solana_from_answer

    unfoldable pub xrp_from_answer : RpcResult → Query (Result (SyncStatus F))
    xrp_from_answer r = elim (decode_answer tools.json.xrp_info r) [
      | none ↦ pure (err check_failed)
      | some info ↦ pure (ok (xrp_status info))
    ]

    -- HealthCheck of xrpAdapter
    unfoldable pub xrp_health_check : Query (Result (SyncStatus F))
    xrp_health_check = call_rpc tools node url "server_info" "" >>= xrp_from_answer
