-- ===== src/Adapters/Down/Calls.antt =====
-- The checks of a node that answers no request, where they begin with a call of JSON-RPC.
use chainplane.Prelude.{refl, inl, inr, String, Bool-cases, Option-cases, ◌&&◌}
use chainplane.Errors.{ok, err, check_failed}
use chainplane.Adapters.Session.{Node, Session}
use chainplane.Adapters.Payloads.{AdapterTools}
use chainplane.Adapters.Rpc.{is_context_timeout, is_transient_rpc_error, call_rpc_with_retry}
use chainplane.Adapters.Evm.{
  evm_from_sync, evm_health_check, ethereum_busy, ethereum_from_block, ethereum_from_sync,
  ethereum_health_check,
}
use chainplane.Adapters.Comet.{comet_from_answer, comet_from_status, comet_health_check}
use chainplane.Adapters.Utxo.{
  UtxoAdapter, CredentialTexts, RpcCredentials, ask_info, utxo_from_answer, utxo_health_check,
  authenticated_url, health_check_with_credentials,
}
use chainplane.Adapters.OwnRpc.{
  health_then, substrate_health_check, polkadot_health_check, starknet_from_sync,
  starknet_health_check, filecoin_from_head, filecoin_health_check, solana_from_answer,
  solana_from_slot, solana_health_check, xrp_from_answer, xrp_health_check,
}
use chainplane.Adapters.Down.{
  failed_then, if_both, IsDown, IsUnsynced, IsFailed, call_rpc-IsFailed, retry_from-IsFailed,
  report_failed-IsUnsynced, behind_call, behind_request, busy-IsUnsynced,
}

module _ {F : Type 0} (tools : AdapterTools F) (node : Node) (down : IsDown node) where
  pub evm-IsUnsynced :
      (url : String) (s : Session) → IsUnsynced (evm_health_check tools node url s).0
  unfolding evm_health_check evm_from_sync
  evm-IsUnsynced url s =
      behind_call tools node down url _ _ (evm_from_sync tools node url) s
        (λ e s'. busy-IsUnsynced tools node down (is_context_timeout tools.texts e) _)

  pub comet-IsUnsynced :
      (block_time : F) (url : String) (s : Session)
      → IsUnsynced (comet_health_check tools block_time node url s).0
  unfolding comet_health_check comet_from_answer comet_from_status
  comet-IsUnsynced block_time url s =
      behind_request tools node down _ (comet_from_answer tools block_time node url) s (λ _. tt)
        (λ _ _ _. tt)

  pub ask_info-IsFailed :
      (url : String) (u : UtxoAdapter) (s : Session) → IsFailed (ask_info tools node url u s).0
  unfolding ask_info call_rpc_with_retry
  ask_info-IsFailed url u s = elim (Bool-cases u.use_retry) [
    | inl retry ↦ rw retry (retry_from-IsFailed tools node down url _ _ 2 _ s)
    | inr once ↦ rw once (call_rpc-IsFailed tools node down url _ _ s)
  ]

  pub utxo-IsUnsynced :
      (url : String) (u : UtxoAdapter) (s : Session)
      → IsUnsynced (utxo_health_check tools node url u s).0
  unfolding utxo_health_check utxo_from_answer
  utxo-IsUnsynced url u s =
      failed_then IsUnsynced (utxo_from_answer tools node url u) _ (ask_info-IsFailed url u s)
        λ e s'.
          busy-IsUnsynced tools node down (u.use_retry && is_transient_rpc_error tools.texts e) _

  pub ethereum-IsUnsynced :
      (url : String) (s : Session) → IsUnsynced (ethereum_health_check tools node url s).0
  unfolding ethereum_health_check ethereum_from_sync ethereum_from_block ethereum_busy
  ethereum-IsUnsynced url s =
      behind_call tools node down url _ _ (ethereum_from_sync tools node url) s λ e s'.
        if_both (IsUnsynced {F = F}) (is_context_timeout tools.texts e)
          (ok (ethereum_busy tools node url _)) (err check_failed) refl tt

  pub substrate-IsUnsynced :
      (url : String) (s : Session) → IsUnsynced (substrate_health_check tools node url s).0
  unfolding substrate_health_check health_then
  substrate-IsUnsynced url s =
      behind_call tools node down url _ _ (health_then tools node url _) s
        (λ e s'. report_failed-IsUnsynced tools node down url e s')

  pub polkadot-IsUnsynced :
      (url : String) (s : Session) → IsUnsynced (polkadot_health_check tools node url s).0
  unfolding polkadot_health_check health_then
  polkadot-IsUnsynced url s =
      behind_call tools node down url _ _ (health_then tools node url _) s
        (λ e s'. report_failed-IsUnsynced tools node down url e s')

  pub starknet-IsUnsynced :
      (url : String) (s : Session) → IsUnsynced (starknet_health_check tools node url s).0
  unfolding starknet_health_check starknet_from_sync
  starknet-IsUnsynced url s =
      behind_call tools node down url _ _ (starknet_from_sync tools node url) s
        (λ e s'. report_failed-IsUnsynced tools node down url e s')

  pub filecoin-IsUnsynced :
      (url : String) (s : Session) → IsUnsynced (filecoin_health_check tools node url s).0
  unfolding filecoin_health_check filecoin_from_head
  filecoin-IsUnsynced url s =
      behind_call tools node down url _ _ (filecoin_from_head tools node url) s
        (λ e s'. report_failed-IsUnsynced tools node down url e s')

  pub solana-IsUnsynced :
      (url : String) (s : Session) → IsUnsynced (solana_health_check tools node url s).0
  unfolding solana_health_check solana_from_answer solana_from_slot
  solana-IsUnsynced url s =
      behind_call tools node down url _ _ (solana_from_answer tools node url) s (λ _ _. tt)

  pub xrp-IsUnsynced :
      (url : String) (s : Session) → IsUnsynced (xrp_health_check tools node url s).0
  unfolding xrp_health_check xrp_from_answer
  xrp-IsUnsynced url s =
      behind_call tools node down url _ _ (xrp_from_answer tools node url) s (λ _ _. tt)

  pub credentials-IsUnsynced :
      (url : String) (u : UtxoAdapter) (c : CredentialTexts) (creds : RpcCredentials) (s : Session)
      → IsUnsynced (health_check_with_credentials tools c node url u creds s).0
  unfolding health_check_with_credentials
  credentials-IsUnsynced url u c creds s = elim (Option-cases (authenticated_url c url creds)) [
    | inl bad ↦ rw (bad, health_check_with_credentials) tt
    | inr (auth_url, h) ↦ rw (h, health_check_with_credentials) (utxo-IsUnsynced auth_url u s)
  ]
