-- ===== src/Adapters/Rest/Ton.antt =====
-- internal/adapters/ton.go: the health check of TON nodes.
use Prim.Native.String.{◌++◌}
use chainplane.Prelude.{ℕ, String, true, none, some, ◌==◌, if◌then◌else◌}
use chainplane.Errors.{Result, ok, err, check_failed}
use chainplane.Adapters.Int64.{lt64, sub64}
use chainplane.Adapters.Status.{SyncStatus}
use chainplane.Adapters.Session.{Node, Query, pure, ◌>>=◌}
use chainplane.Adapters.Payloads.{AdapterTools}
use chainplane.Adapters.Rpc.{report_pseudo, parse_decimal_int64, pseudo_block}
use chainplane.Adapters.Get.{Got, unbuilt, unanswered, got, http_get}
use chainplane.Adapters.OwnRpc.{bare_status, syncing_to}

module _ {F : Type 0} (tools : AdapterTools F) where
  -- The end of the check of TON, where both numbers count.
  unfoldable pub ton_status : ℕ → ℕ → SyncStatus F
  ton_status local network = record (syncing_to tools local network 0) {
    is_syncing = lt64 local (sub64 network 5);
  }

  module _ (node : Node) (url : String) where
    -- The part of the check of TON that follows the cut of the answer into two numbers.
    unfoldable pub ton_from_numbers : ℕ → ℕ → Query (Result (SyncStatus F))
    ton_from_numbers local network =
        if network == 0
        then report_pseudo tools node
        else if local == 0
        then (pseudo_block tools node >>= λ p.
            pure (
              ok
                (record (bare_status tools true 0) { current_block = p; highest_block = network })))
        else pure (ok (ton_status local network))

    unfoldable pub ton_from_answer : Got → Query (Result (SyncStatus F))
    ton_from_answer unbuilt = pure (err check_failed)
    ton_from_answer (unanswered _ _) = report_pseudo tools node
    ton_from_answer (got _ body _) =
        elim (tools.texts.cut_at "/" (tools.texts.trim_space (tools.texts.first_bytes 256 body))) [
          | none ↦ report_pseudo tools node
          | some (local, network) ↦
              ton_from_numbers (parse_decimal_int64 tools.texts local)
                (parse_decimal_int64 tools.texts network)
        ]

    -- HealthCheck of tonAdapter
    unfoldable pub ton_health_check : Query (Result (SyncStatus F))
    ton_health_check = elim (tools.texts.hostname url) [
      | none ↦ pure (err check_failed)
      | some host ↦ http_get node ("http://" ++ host ++ ":8081") >>= ton_from_answer
    ]
