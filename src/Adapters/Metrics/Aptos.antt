-- ===== src/Adapters/Metrics/Aptos.antt =====
-- internal/adapters/aptos.go: the health check of Aptos nodes.
use Prim.Native.String.{◌++◌}
use chainplane.Prelude.{
  ℕ, ◌+◌, String, Option, none, some, List, [], ◌∷◌, ◌&&◌, ◌==◌, if◌then◌else◌,
}
use chainplane.Errors.{Result, ok, err, check_failed}
use chainplane.Adapters.Int64.{to_int32}
use chainplane.Adapters.Status.{SyncStatus}
use chainplane.Adapters.Session.{Node, Query, pure, ◌>>=◌}
use chainplane.Adapters.Payloads.{AdapterTools}
use chainplane.Adapters.Rpc.{syncing_pseudo, synced_at}
use chainplane.Adapters.Get.{Got, http_get, decode_got, decode_whole}
use chainplane.Adapters.Metrics.{second_field, last_field}

module _ {F : Type 0} (tools : AdapterTools F) where
  -- A line of the metrics of Aptos: the connections that it adds.
  unfoldable pub aptos_connections : String → ℕ
  aptos_connections line =
      if tools.texts.contains line "aptos_connections{"
        && tools.texts.contains line "direction=\"inbound\""
      then (elim (second_field (tools.texts.fields line)) [
        | none ↦ 0
        | some _ ↦ elim (tools.floats.float.parse (last_field (tools.texts.fields line) "")) [
          | none ↦ 0
          | some v ↦ to_int32 (tools.floats.to_int64 v)
        ]
      ])
      else 0

  unfoldable pub sum_connections : ℕ → List String → ℕ
  sum_connections peers [] = peers
  sum_connections peers (line ∷ rest) =
      sum_connections (to_int32 (peers + aptos_connections line)) rest

  module _ (node : Node) (url : String) where
    -- aptosPeerCount
    unfoldable pub aptos_peer_count : Query ℕ
    aptos_peer_count = elim (tools.texts.hostname url) [
      | none ↦ pure 0
      | some host ↦ http_get node ("http://" ++ host ++ ":9101/metrics") >>= λ g.
          pure (elim (decode_got (λ body. some (tools.texts.lines body)) g) [
            | none ↦ 0
            | some lines ↦ sum_connections 0 lines
          ])
    ]

    -- The part of the check of Aptos that follows the decoding.
    unfoldable pub aptos_from_version : Option String → Query (Result (SyncStatus F))
    aptos_from_version none = pure (err check_failed)
    aptos_from_version (some version) =
        let current = (tools.texts.parse_int 10 version).0 in
        if current == 0
        then (syncing_pseudo tools node >>= λ status. pure (ok status))
        else (aptos_peer_count >>= λ peers. pure (ok (synced_at tools current peers)))

    unfoldable pub aptos_from_answer : Got → Query (Result (SyncStatus F))
    aptos_from_answer g = aptos_from_version (decode_whole tools.json.ledger_version g)

    -- HealthCheck of aptosAdapter
    unfoldable pub aptos_health_check : Query (Result (SyncStatus F))
    aptos_health_check = http_get node (url ++ "/v1") >>= aptos_from_answer
