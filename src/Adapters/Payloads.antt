-- ===== src/Adapters/Payloads.antt =====
-- The packages that the health checks use, and the payloads that they decode. A field that is missing in
-- a payload has its zero value, as encoding/json leaves it; a raw message is its text.
use chainplane.Prelude.{ℕ, String, Bool, Option, List}
use chainplane.Float.{Float}

-- strings, strconv, fmt, bufio and net/url. Integers are bit patterns. `parse_int` is strconv.ParseInt with a
-- base: the value, which is not 0 for a number out of range, and whether there was no error.
pub record GoTexts : Type 0 where
  pub contains : String → String → Bool
  pub has_prefix : String → String → Bool
  pub trim_prefix : String → String → String
  pub trim_space : String → String
  pub to_lower : String → String
  pub first_bytes : ℕ → String → String
  pub cut_at : String → String → Option (String × String)
  pub fields : String → List String
  pub lines : String → List String
  pub show : ℕ → String
  pub parse_int : ℕ → String → ℕ × Bool
  pub scan_hex : String → ℕ
  pub scan_height_round_step : String → ℕ
  pub scan_tron_block : String → Option ℕ
  pub parse_catchup : String → Option (String × String)
  pub parse_time_nano : String → Option ℕ
  pub hostname : String → Option String
  pub at_port : String → String → Option String
  pub build_error : String → String
  pub json_error : String → String

-- jsonRPCResponse: the raw result, and the code and message of the error.
pub record JsonRpcResponse : Type 0 where
  pub result : String
  pub error : Option (String × String)

-- One of the stages of Erigon in the answer to eth_syncing.
pub record SyncStage : Type 0 where
  pub name : String
  pub block : String

pub record EthSyncing : Type 0 where
  pub highest_block : String
  pub stages : List SyncStage

-- blockchainInfo
pub record BlockchainInfo (F : Type 0) : Type 0 where
  pub blocks : ℕ
  pub headers : ℕ
  pub verification_progress : F

-- `sync_info` of cosmosStatusResponse
pub record CosmosSyncInfo : Type 0 where
  pub latest_block_height : String
  pub latest_block_time : String
  pub catching_up : Bool

-- `data` of beaconSyncingResponse
pub record BeaconSyncing : Type 0 where
  pub head_slot : String
  pub sync_distance : String
  pub is_syncing : Bool

-- The answer to system_health.
pub record SystemHealth : Type 0 where
  pub is_syncing : Bool
  pub peers : ℕ

-- The heights in the answers to system_syncState and starknet_syncing.
pub record SyncHeights : Type 0 where
  pub current : ℕ
  pub highest : ℕ

-- A worker in the answer to Filecoin.SyncState, with the height of its target, if it has one.
pub record FilecoinSync : Type 0 where
  pub stage : ℕ
  pub target : Option ℕ

pub record XrpInfo : Type 0 where
  pub server_state : String
  pub complete_ledgers : String
  pub peers : ℕ
  pub validated_seq : ℕ
  pub validated_age : ℕ
  pub closed_seq : ℕ

-- nearStatusResponse
pub record NearStatus : Type 0 where
  pub latest_block_height : ℕ
  pub syncing : Bool
  pub num_active_peers : ℕ

pub record StellarInfo : Type 0 where
  pub state : String
  pub status : List String
  pub ledger_num : ℕ
  pub authenticated_count : ℕ

pub record TronPeer : Type 0 where
  pub un_fetch_syn_num : ℕ
  pub need_sync_from : Bool
  pub sync_to_fetch_size : ℕ
  pub sync_to_fetch_peek_num : ℕ
  pub block_in_porc_size : ℕ

pub record TronNodeInfo : Type 0 where
  pub block : String
  pub peers : List TronPeer

-- encoding/json, for each shape that a check decodes
pub record NodeJson (F : Type 0) : Type 0 where
  pub rpc_request : String → String → String
  pub rpc_response : String → Option JsonRpcResponse
  pub bool : String → Option Bool
  pub text : String → Option String
  pub int64 : String → Option ℕ
  pub int32 : String → Option ℕ
  pub eth_syncing : String → Option EthSyncing
  pub blockchain_info : String → Option (BlockchainInfo F)
  pub cosmos_status : String → Option CosmosSyncInfo
  pub height_round_step : String → Option String
  pub n_peers : String → Option String
  pub beacon_syncing : String → Option BeaconSyncing
  pub system_health : String → Option SystemHealth
  pub sync_state : String → Option SyncHeights
  pub header_number : String → Option String
  pub starknet_syncing : String → Option SyncHeights
  pub tipset_height : String → Option ℕ
  pub active_syncs : String → Option (List FilecoinSync)
  pub xrp_info : String → Option XrpInfo
  pub near_status : String → Option NearStatus
  pub ledger_version : String → Option String
  pub stellar_info : String → Option StellarInfo
  pub tron_node_info : String → Option TronNodeInfo
  pub result_text : String → Option String
  pub avax_bootstrap_error : String → Option (Option String)
  pub avax_peers : String → Option ℕ

-- Go's float64: the operations of Float, the value of an int64, int64(v) as a bit pattern, and fmt.Sscanf with %f.
pub record GoFloat (F : Type 0) : Type 0 where
  pub float : Float F
  pub of_int64 : ℕ → F
  pub to_int64 : F → ℕ
  pub scan : String → Option F
  pub of_seconds : ℕ → F

-- What every health check takes from outside, beside the node.
pub record AdapterTools (F : Type 0) : Type 0 where
  pub texts : GoTexts
  pub json : NodeJson F
  pub floats : GoFloat F
