-- ===== src/Adapters/Rest/Tron.antt =====
-- internal/adapters/tron.go: the health check of TRON nodes.
use Prim.Native.String.{◌++◌}
use chainplane.Prelude.{
  ℕ, String, Bool, true, false, none, some, List, [], ◌∷◌, ◌&&◌, ◌||◌, not, length, if◌then◌else◌,
}
use chainplane.Errors.{Result}
use chainplane.Adapters.Int64.{lt64, add64, sub64, is_positive, to_int32}
use chainplane.Adapters.Status.{SyncStatus}
use chainplane.Adapters.Session.{Node, Query, ◌>>=◌}
use chainplane.Adapters.Payloads.{TronPeer, TronNodeInfo, AdapterTools}
use chainplane.Adapters.Get.{Got, http_get, decode_got}
use chainplane.Adapters.OwnRpc.{bare_status}
use chainplane.Adapters.Rest.{report_of}

-- The variables of the loop over the peers in the check of TRON.
pub record TronScan : Type 0 where
  pub max_remain : ℕ
  pub highest_from_peers : ℕ
  pub active_download : Bool

abbrev pub no_peers : TronScan
no_peers = record { max_remain = 0; highest_from_peers = 0; active_download = false }

-- A peer that the node syncs from.
unfoldable pub note_peer : TronScan → TronPeer → TronScan
note_peer scan p =
    let peer_highest = add64 p.sync_to_fetch_peek_num p.sync_to_fetch_size in
    record {
      max_remain =
          if lt64 scan.max_remain p.un_fetch_syn_num then p.un_fetch_syn_num else scan.max_remain;
      highest_from_peers =
          if lt64 scan.highest_from_peers peer_highest
          then peer_highest
          else scan.highest_from_peers;
      active_download =
          (is_positive p.sync_to_fetch_size || is_positive p.block_in_porc_size)
          || scan.active_download;
    }

unfoldable pub scan_peers : TronScan → List TronPeer → TronScan
scan_peers scan [] = scan
scan_peers scan (p ∷ ps) = scan_peers (if not p.need_sync_from then scan else note_peer scan p) ps

-- max on int64
abbrev pub max64 : ℕ → ℕ → ℕ
max64 a b = if lt64 a b then b else a

-- tronSyncedThreshold
abbrev pub tron_synced_threshold : ℕ
tron_synced_threshold = 100

module _ {F : Type 0} (tools : AdapterTools F) where
  -- The end of the check of TRON, at a block number.
  unfoldable pub tron_status : ℕ → List TronPeer → SyncStatus F
  tron_status current peers =
      let scan = scan_peers no_peers peers in
      let highest = max64 (add64 current scan.max_remain) scan.highest_from_peers in
      let syncing = lt64 tron_synced_threshold (sub64 highest current) in
      record {
        is_syncing = syncing;
        current_block = current;
        highest_block = highest;
        peers = to_int32 (length peers);
        progress =
            if is_positive highest && syncing
            then tools.floats.float.times
                (tools.floats.float.over (tools.floats.of_int64 current)
                  (tools.floats.of_int64 highest))
                (tools.floats.float.decimal 100 0)
            else tools.floats.float.decimal 100 0;
        stall_exempt = scan.active_download && syncing;
      }

  -- The part of the check of TRON that follows the decoding.
  unfoldable pub tron_from_info : TronNodeInfo → SyncStatus F
  tron_from_info info = elim (tools.texts.scan_tron_block info.block) [
    | none ↦ bare_status tools true 0
    | some current ↦ tron_status current info.peers
  ]

  module _ (node : Node) (url : String) where
    unfoldable pub tron_from_answer : Got → Query (Result (SyncStatus F))
    tron_from_answer g = report_of tron_from_info (decode_got tools.json.tron_node_info g)

    -- HealthCheck of tronAdapter
    unfoldable pub tron_health_check : Query (Result (SyncStatus F))
    tron_health_check = http_get node (url ++ "/wallet/getnodeinfo") >>= tron_from_answer
