-- ===== src/Adapters/Rest.antt =====
-- internal/adapters, the checks of ethereum_beacon.go (also for gnosis_beacon.go), near.go and hyperliquid.go: nodes
-- with a plain HTTP API. Those of stellar.go, tron.go and ton.go are in the child modules.
pub mod Stellar
pub mod Tron
pub mod Ton
use Prim.Native.String.{◌++◌}
use Prim.Native.Nat.{bit_xor}
use chainplane.Prelude.{
  ℕ, ◌/◌, ◌%◌, ◌^◌, String, Bool, true, false, Option, none, some, List, [], ◌∷◌, ◌&&◌, ◌||◌, ◌==◌,
  not, str_eq, length, if◌then◌else◌,
}
use chainplane.Time.{second}
use chainplane.Errors.{Result, ok, err, check_failed}
use chainplane.Adapters.Int64.{lt64, add64, sub64, is_positive, to_int32}
use chainplane.Adapters.Status.{SyncStatus}
use chainplane.Adapters.Session.{Node, Query, pure, ◌>>=◌, now}
use chainplane.Adapters.Payloads.{
  GoTexts, BeaconSyncing, NearStatus, StellarInfo, TronPeer, TronNodeInfo, AdapterTools,
}
use chainplane.Adapters.Rpc.{
  report_pseudo, is_timeout_text, parse_decimal_int64, pseudo_block, syncing_pseudo, busy,
  synced_at,
}
use chainplane.Adapters.Get.{Got, unbuilt, unanswered, got, http_get, decode_got, decode_whole}
use chainplane.Adapters.OwnRpc.{bare_status, syncing_to}

-- strconv.ParseInt with base 10, and 0 where it fails.
abbrev pub parse_or_zero : GoTexts → String → ℕ
parse_or_zero texts s = if (texts.parse_int 10 s).1 then (texts.parse_int 10 s).0 else 0

-- A payload that is decoded to a report.
abbrev pub report_of :
    {F A : Type 0} → (A → SyncStatus F) → Option A → Query (Result (SyncStatus F))
report_of status none = pure (err check_failed)
report_of status (some a) = pure (ok (status a))

module _ {F : Type 0} (tools : AdapterTools F) where
  -- The end of beaconHealthCheck.
  unfoldable pub beacon_status : BeaconSyncing → SyncStatus F
  beacon_status s =
      let head = parse_or_zero tools.texts s.head_slot in
      let highest = add64 head (parse_or_zero tools.texts s.sync_distance) in
      record (syncing_to tools head highest 0) { is_syncing = s.is_syncing }

  -- The end of the check of NEAR, at a time.
  unfoldable pub near_status_at : ℕ → NearStatus → SyncStatus F
  near_status_at t s =
      if not s.syncing
      then synced_at tools s.latest_block_height s.num_active_peers
      else (let pseudo = bit_xor s.latest_block_height (t / second % 2 ^ 10) in
          record (bare_status tools true s.num_active_peers) {
            current_block = pseudo;
            highest_block = add64 pseudo 1;
          })

  module _ (node : Node) (url : String) where
    -- beaconHealthCheck
    unfoldable pub beacon_from_answer : Got → Query (Result (SyncStatus F))
    beacon_from_answer (unanswered _ true) = pure (ok (busy tools (tools.floats.float.decimal 0 0)))
    beacon_from_answer g = report_of beacon_status (decode_whole tools.json.beacon_syncing g)

    unfoldable pub beacon_health_check : Query (Result (SyncStatus F))
    beacon_health_check = http_get node (url ++ "/eth/v1/node/syncing") >>= beacon_from_answer

    -- HealthCheck of nearAdapter
    unfoldable pub near_from_answer : Got → Query (Result (SyncStatus F))
    near_from_answer (unanswered _ _) = report_pseudo tools node
    near_from_answer g =
        now node >>= λ t. report_of (near_status_at t) (decode_whole tools.json.near_status g)

    unfoldable pub near_health_check : Query (Result (SyncStatus F))
    near_health_check = http_get node (url ++ "/status") >>= near_from_answer

    -- HealthCheck of hyperliquidAdapter
    unfoldable pub hyperliquid_from_answer : Got → Query (Result (SyncStatus F))
    hyperliquid_from_answer unbuilt = pure (err check_failed)
    hyperliquid_from_answer (unanswered cause _) =
        if is_timeout_text tools.texts cause
        then report_pseudo tools node
        else pure (err check_failed)
    hyperliquid_from_answer (got status _ _) =
        pure (if not (status == 200) then err check_failed else ok (synced_at tools 0 0))

    unfoldable pub hyperliquid_health_check : Query (Result (SyncStatus F))
    hyperliquid_health_check = http_get node (url ++ "/info") >>= hyperliquid_from_answer
