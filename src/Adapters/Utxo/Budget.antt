-- ===== src/Adapters/Utxo/Budget.antt =====
-- The requests and waits of the health check of a node of the Bitcoin family.
use chainplane.Prelude.{◌*◌, String, Option, none, some, inl, inr, arith, Bool-cases}
use chainplane.Time.{second}
use chainplane.Errors.{ok}
use chainplane.Adapters.Session.{Node, pure}
use chainplane.Adapters.Payloads.{AdapterTools, BlockchainInfo}
use chainplane.Adapters.Rpc.{RpcResult, answered, failed}
use chainplane.Adapters.Spending.{
  Spends, pure-Spends, then-Spends, call_rpc-Spends, call_rpc_with_retry-Spends, after_call,
}
use chainplane.Adapters.Utxo.{
  UtxoAdapter, ask_info, utxo_from_info, utxo_from_answer, utxo_health_check, utxo_status,
  connections_of,
}

module _ {F : Type 0} (tools : AdapterTools F) (node : Node) (url : String) (u : UtxoAdapter) where
  ask_info-Spends : Spends 3 (6 * second) (ask_info tools node url u)
  unfolding ask_info
  ask_info-Spends s = elim (Bool-cases u.use_retry) [
    | inl retry ↦ rw retry (call_rpc_with_retry-Spends tools node url "getblockchaininfo" "" s)
    | inr once ↦
        let one = call_rpc-Spends tools node url "getblockchaininfo" "" s in
        rw once (omega (arith, one.0), omega (arith, one.1))
  ]

  from_info-Spends :
      (info : Option (BlockchainInfo F)) → Spends 1 0 (utxo_from_info tools node url u info)
  unfolding utxo_from_info
  from_info-Spends none = λ s. (omega arith, omega arith)
  from_info-Spends (some info) =
      after_call 0 0 tools node url "getconnectioncount" ""
        (λ r. pure (ok (utxo_status tools u info (connections_of tools r))))
        (λ r. pure-Spends 0 0 (ok (utxo_status tools u info (connections_of tools r))))

  from_answer-Spends : (r : RpcResult) → Spends 1 0 (utxo_from_answer tools node url u r)
  unfolding utxo_from_answer
  from_answer-Spends (failed e) = λ s. (omega arith, omega arith)
  from_answer-Spends (answered r) = from_info-Spends (tools.json.blockchain_info r)

  -- A health check of a node of the Bitcoin family sends at most four requests, and waits at most six seconds
  -- between them.
  pub utxo_health_check-Spends : Spends 4 (6 * second) (utxo_health_check tools node url u)
  unfolding utxo_health_check
  utxo_health_check-Spends =
      then-Spends 3 (6 * second) 1 0 (ask_info tools node url u) (utxo_from_answer tools node url u)
        ask_info-Spends from_answer-Spends
