-- ===== src/Adapters/Down.antt =====
-- A node that answers no request, and what a check makes of its first request to it.
pub mod Calls
pub mod Requests
use chainplane.Prelude.{
  ◌≡◌, refl, inl, inr, ℕ, zero, suc, ◌*◌, ◌%◌, ◌^◌, String, Bool, true, false, Bool-cases,
  Option-cases, if◌then◌else◌, ◌&&◌,
}
use chainplane.Errors.{Result, ok, err, check_failed}
use chainplane.Adapters.Status.{SyncStatus}
use chainplane.Adapters.Session.{
  HttpRequest, no_response, Node, Session, Query, proceed, ◌>>=◌, send,
}
use chainplane.Adapters.Payloads.{AdapterTools}
use chainplane.Adapters.Rpc.{
  RpcResult, RpcError, answered, failed, judge_answer, call_rpc, is_context_timeout,
  is_transient_rpc_error, is_timeout_text, syncing_at, busy, syncing_pseudo, pseudo_block,
  wait_then, or_retry, retry_from, call_rpc_with_retry,
}
use chainplane.Adapters.Get.{Got, unbuilt, unanswered, got, got_of, http_request}
use chainplane.Adapters.Evm.{
  evm_from_sync, evm_health_check, ethereum_busy, ethereum_from_block, ethereum_from_sync,
  ethereum_health_check,
}
use chainplane.Adapters.Comet.{
  comet_from_answer, comet_from_status, comet_health_check, cosmos_health_check,
  axelar_health_check, dymension_health_check, evmos_health_check, kava_health_check,
  moca_health_check, osmosis_health_check, sei_health_check,
}
use chainplane.Adapters.Utxo.{
  UtxoAdapter, CredentialTexts, RpcCredentials, ask_info, utxo_from_answer, utxo_health_check,
  authenticated_url, health_check_with_credentials,
}
use chainplane.Adapters.OwnRpc.{
  health_then, substrate_health_check, polkadot_health_check, starknet_from_sync,
  starknet_health_check, filecoin_from_head, filecoin_health_check, solana_from_answer,
  solana_from_slot, solana_health_check, xrp_from_answer, xrp_health_check, report_failed,
}
use chainplane.Adapters.Rest.{
  beacon_from_answer, beacon_health_check, near_from_answer, near_health_check,
  hyperliquid_from_answer, hyperliquid_health_check,
}
use chainplane.Adapters.Rest.Stellar.{stellar_from_answer, stellar_health_check}
use chainplane.Adapters.Rest.Ton.{ton_from_answer, ton_health_check}
use chainplane.Adapters.Rest.Tron.{tron_from_answer, tron_health_check}
use chainplane.Adapters.Metrics.Aptos.{aptos_from_answer, aptos_from_version, aptos_health_check}
use chainplane.Adapters.Metrics.Avalanche.{
  avax_from_answer, avax_from_health, avalanche_health_check,
}
use chainplane.Adapters.Metrics.Cardano.{cardano_from_answer, cardano_health_check}
use chainplane.Adapters.Metrics.Sui.{sui_from_answer, sui_health_check}
use chainplane.Adapters.Checks.{
  AdapterKind, health_check, evm, ethereum, cosmos, axelar, dymension, evmos, kava, moca, osmosis,
  sei, substrate, polkadot, starknet, filecoin, solana, xrp, beacon, near, hyperliquid, stellar,
  tron, ton, aptos, sui, cardano, avalanche, plasma, utxo, utxo_with_credentials,
}

-- No request has an answer.
abbrev pub IsDown : Node → Type 0
IsDown node = (n : ℕ) (r : HttpRequest) → (cause : String) × (node.answer n r ≡ no_response cause)

-- The check failed, or it reports a node that is syncing.
abbrev pub IsUnsynced : {F : Type 0} → Result (SyncStatus F) → Type 0
IsUnsynced (err _) = Unit {0}
IsUnsynced (ok status) = status.is_syncing ≡ true

abbrev pub IsFailed : RpcResult → Type 0
IsFailed (failed _) = Unit {0}
IsFailed (answered _) = ⊥

abbrev pub IsUnanswered : Got → Type 0
IsUnanswered unbuilt = Unit {0}
IsUnanswered (unanswered _ _) = Unit {0}
IsUnanswered (got _ _ _) = ⊥

module _ {A : Type 0} (P : A → Type 0) where
  -- What holds behind every failure holds behind a call that failed.
  pub failed_then :
      (k : RpcResult → Query A) (r : RpcResult × Session)
      → IsFailed r.0
      → ((e : RpcError) (s : Session) → P (k (failed e) s).0)
      → P (proceed k r).0
  failed_then k (failed e, s) h after = after e s
  failed_then k (answered _, s) h after = absurd h

  pub unanswered_then :
      (k : Got → Query A) (r : Got × Session)
      → IsUnanswered r.0
      → ((s : Session) → P (k unbuilt s).0)
      → ((cause : String) (done : Bool) (s : Session) → P (k (unanswered cause done) s).0)
      → P (proceed k r).0
  unanswered_then k (unbuilt, s) h early after = early s
  unanswered_then k (unanswered cause done, s) h early after = after cause done s
  unanswered_then k (got _ _ _, s) h early after = absurd h

  -- Either branch of a test.
  pub if_both : (b : Bool) (x y : A) → P x → P y → P (if b then x else y)
  if_both true x y p q = p
  if_both false x y p q = q

module _ {F : Type 0} (tools : AdapterTools F) (node : Node) (down : IsDown node) where
  pub call_rpc-IsFailed :
      (url method params : String) (s : Session)
      → IsFailed (call_rpc tools node url method params s).0
  unfolding call_rpc send judge_answer
  call_rpc-IsFailed url method params s =
      let (cause, h) =
        down s.requests
          (record { method = "POST"; url = url; body = tools.json.rpc_request method params }) in
      elim (Bool-cases (node.builds url)) [
        | inr unbuilt_is ↦ rw unbuilt_is tt
        | inl built ↦
            rw (built, h)
              (elim (Bool-cases (node.is_done s.requests)) [
                | inl done ↦ rw done tt
                | inr on ↦ rw on tt
              ])
      ]

  pub http_request-IsUnanswered :
      (r : HttpRequest) (s : Session) → IsUnanswered (http_request node r s).0
  unfolding http_request send got_of
  http_request-IsUnanswered r s =
      let (cause, h) = down s.requests r in
      elim (Bool-cases (node.builds r.url)) [
        | inr unbuilt_is ↦ rw unbuilt_is tt
        | inl built ↦ rw (built, h) tt
      ]

  pub wait_then-IsFailed :
      (delay : ℕ) (e : RpcError) (rest : Query RpcResult)
      → ((s : Session) → IsFailed (rest s).0)
      → (s : Session) → IsFailed (wait_then tools node delay (failed e) rest s).0
  unfolding wait_then
  wait_then-IsFailed delay e rest h s = elim (Bool-cases (node.is_done_waiting s.requests)) [
    | inl done ↦ rw done tt
    | inr waits ↦ rw waits (h _)
  ]

  pub or_retry-IsFailed :
      (delay : ℕ) (e : RpcError) (rest : Query RpcResult)
      → ((s : Session) → IsFailed (rest s).0)
      → (s : Session) → IsFailed (or_retry tools node delay rest (failed e) s).0
  unfolding or_retry
  or_retry-IsFailed delay e rest h s = elim (Bool-cases (is_transient_rpc_error tools.texts e)) [
    | inl transient ↦ rw transient (wait_then-IsFailed delay e rest h s)
    | inr lasting ↦ rw lasting tt
  ]

  pub retry_from-IsFailed :
      (url method params : String) (left delay : ℕ) (s : Session)
      → IsFailed (retry_from tools node url method params delay left s).0
  unfolding retry_from
  retry_from-IsFailed url method params zero delay s = call_rpc-IsFailed url method params s
  retry_from-IsFailed url method params (suc left) delay s =
      let rest = retry_from tools node url method params (delay * 2 % 2 ^ 64) left in
      failed_then IsFailed (or_retry tools node delay rest)
        (call_rpc tools node url method params s) (call_rpc-IsFailed url method params s)
        (λ e s'.
          or_retry-IsFailed delay e rest
            (retry_from-IsFailed url method params left (delay * 2 % 2 ^ 64)) s')

  pub report_failed-IsUnsynced :
      (url : String) (e : RpcError) (s : Session)
      → IsUnsynced (report_failed tools node url (failed e) s).0
  unfolding syncing_pseudo pseudo_block syncing_at
  report_failed-IsUnsynced url e s = elim (Bool-cases (is_context_timeout tools.texts e)) [
    | inl timeout ↦ rw timeout refl
    | inr other ↦ rw other tt
  ]

  -- A check whose first request is a call.
  pub behind_call :
      (url method params : String) (k : RpcResult → Query (Result (SyncStatus F))) (s : Session)
      → ((e : RpcError) (s : Session) → IsUnsynced (k (failed e) s).0)
      → IsUnsynced ((call_rpc tools node url method params >>= k) s).0
  behind_call url method params k s =
      failed_then IsUnsynced k _ (call_rpc-IsFailed url method params s)

  -- A check whose first request is a plain one.
  pub behind_request :
      (r : HttpRequest) (k : Got → Query (Result (SyncStatus F))) (s : Session)
      → ((s : Session) → IsUnsynced (k unbuilt s).0)
      → ((cause : String) (done : Bool) (s : Session) → IsUnsynced (k (unanswered cause done) s).0)
      → IsUnsynced ((http_request node r >>= k) s).0
  behind_request r k s = unanswered_then IsUnsynced k _ (http_request-IsUnanswered r s)

  -- Busy where the test holds, and else an error.
  pub busy-IsUnsynced :
      (b : Bool) (progress : F)
      → IsUnsynced (
          let r : Result (SyncStatus F) =
            if b then ok (busy tools progress) else err check_failed in
          r)
  unfolding busy
  busy-IsUnsynced b progress = if_both IsUnsynced b _ _ refl tt
