-- ===== src/Adapters/Evm/Synced.antt =====
-- When evmHealthCheck reports a synced node.
use chainplane.Prelude.{◌≡◌, ◌≢◌, ◌⊎◌, ◌%◌, ◌^◌, ℕ, String, false, none, some}
use chainplane.Adapters.Status.{SyncStatus}
use chainplane.Adapters.Session.{Node, Session}
use chainplane.Adapters.Payloads.{AdapterTools}
use chainplane.Adapters.Rpc.{RpcResult, answered, call_rpc}

module _ {F : Type 0} (tools : AdapterTools F) (node : Node) (url : String) where
  abbrev asks : String → Session → RpcResult × Session
  asks method s = call_rpc tools node url method "" s

  -- The text is a hexadecimal number, with or without 0x: 0 where there are no digits.
  abbrev pub IsHexValue : String → ℕ → Type 0
  IsHexValue hex n =
      ((tools.texts.trim_prefix hex "0x" ≡ "") × (n ≡ 0))
      ⊎ ((tools.texts.trim_prefix hex "0x" ≢ "")
          × (n ≡ tools.texts.scan_hex (tools.texts.trim_prefix hex "0x")))

  -- The answer has a text, which is a hexadecimal number.
  pub record Tells (answer : RpcResult) (n : ℕ) : Type 0 where
    pub raw : String
    pub is_answered : answer ≡ answered raw
    pub hex : String
    pub is_text : tools.json.text raw ≡ some hex
    pub value : IsHexValue hex n

  -- The number that the answer tells, as an int32, or 0 if it tells none.
  abbrev pub TellsPeers : RpcResult → ℕ → Type 0
  TellsPeers answer peers =
      ((n : ℕ) × Tells answer n × (peers ≡ n % 2 ^ 32))
      ⊎ (((raw : String) → answer ≡ answered raw → tools.json.text raw ≡ none) × (peers ≡ 0))

  -- eth_syncing is answered with false, and eth_blockNumber with a block number; the report has that block as
  -- the height and as the highest one, the peers in the answer to net_peerCount, and a progress of 100.
  pub record IsSyncedReport (s : Session) (status : SyncStatus F) : Type 0 where
    pub sync : String
    pub syncing_answer : (asks "eth_syncing" s).0 ≡ answered sync
    pub is_false : tools.json.bool sync ≡ some false
    pub block : ℕ
    pub block_answer : Tells (asks "eth_blockNumber" (asks "eth_syncing" s).1).0 block
    pub peers_answer :
        TellsPeers
          (asks "net_peerCount" (asks "eth_blockNumber" (asks "eth_syncing" s).1).1).0
          status.peers
    pub not_syncing : status.is_syncing ≡ false
    pub current_is : status.current_block ≡ block
    pub highest_is : status.highest_block ≡ block
    pub progress_is : status.progress ≡ tools.floats.float.decimal 100 0
    pub not_exempt : status.stall_exempt ≡ false
