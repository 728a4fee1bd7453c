-- ===== src/Adapters/Down/Requests.antt =====
-- The checks of a node that answers no request, where they begin with a plain request.
use chainplane.Prelude.{refl, inl, inr, String, true, false, Bool-cases, Option-cases}
use chainplane.Adapters.Session.{Node, Session}
use chainplane.Adapters.Payloads.{AdapterTools}
use chainplane.Adapters.Rpc.{is_timeout_text, syncing_at, busy, syncing_pseudo, pseudo_block}
use chainplane.Adapters.Get.{unanswered}
use chainplane.Adapters.Rest.{
  beacon_from_answer, beacon_health_check, near_from_answer, near_health_check,
  hyperliquid_from_answer, hyperliquid_health_check,
}
use chainplane.Adapters.Rest.Stellar.{stellar_from_answer, stellar_health_check}
use chainplane.Adapters.Rest.Ton.{ton_from_answer, ton_health_check}
use chainplane.Adapters.Rest.Tron.{tron_from_answer, tron_health_check}
use chainplane.Adapters.Metrics.Aptos.{aptos_from_answer, aptos_from_version, aptos_health_check}
use chainplane.Adapters.Metrics.Avalanche.{
  avax_from_answer, avax_from_health, avalanche_health_check,
}
use chainplane.Adapters.Metrics.Cardano.{cardano_from_answer, cardano_health_check}
use chainplane.Adapters.Metrics.Sui.{sui_from_answer, sui_health_check}
use chainplane.Adapters.Down.{IsDown, IsUnsynced, behind_request, busy-IsUnsynced}

module _ {F : Type 0} (tools : AdapterTools F) (node : Node) (down : IsDown node) where
  pub beacon-IsUnsynced :
      (url : String) (s : Session) → IsUnsynced (beacon_health_check tools node url s).0
  unfolding beacon_health_check beacon_from_answer busy
  beacon-IsUnsynced url s =
      behind_request tools node down _ (beacon_from_answer tools node url) s (λ _. tt)
        λ cause done s'.
          elim done
            as (λ d. IsUnsynced (beacon_from_answer tools node url (unanswered cause d) s').0) [
              | true ↦ refl
              | false ↦ tt
            ]

  pub near-IsUnsynced :
      (url : String) (s : Session) → IsUnsynced (near_health_check tools node url s).0
  unfolding near_health_check near_from_answer syncing_pseudo pseudo_block syncing_at
  near-IsUnsynced url s =
      behind_request tools node down _ (near_from_answer tools node url) s (λ _. tt) (λ _ _ _. refl)

  pub hyperliquid-IsUnsynced :
      (url : String) (s : Session) → IsUnsynced (hyperliquid_health_check tools node url s).0
  unfolding hyperliquid_health_check hyperliquid_from_answer syncing_pseudo pseudo_block syncing_at
  hyperliquid-IsUnsynced url s =
      behind_request tools node down _ (hyperliquid_from_answer tools node url) s (λ _. tt)
        λ cause _ s'. elim (Bool-cases (is_timeout_text tools.texts cause)) [
          | inl timeout ↦ rw timeout refl
          | inr other ↦ rw other tt
        ]

  pub stellar-IsUnsynced :
      (url : String) (s : Session) → IsUnsynced (stellar_health_check tools node url s).0
  unfolding stellar_health_check stellar_from_answer
  stellar-IsUnsynced url s =
      behind_request tools node down _ (stellar_from_answer tools node url) s (λ _. tt)
        λ cause _ s'. busy-IsUnsynced tools node down (is_timeout_text tools.texts cause) _

  pub tron-IsUnsynced :
      (url : String) (s : Session) → IsUnsynced (tron_health_check tools node url s).0
  unfolding tron_health_check tron_from_answer
  tron-IsUnsynced url s =
      behind_request tools node down _ (tron_from_answer tools node url) s (λ _. tt) (λ _ _ _. tt)

  pub ton-IsUnsynced :
      (url : String) (s : Session) → IsUnsynced (ton_health_check tools node url s).0
  unfolding ton_health_check ton_from_answer syncing_pseudo pseudo_block syncing_at
  ton-IsUnsynced url s = elim (Option-cases (tools.texts.hostname url)) [
    | inl bad ↦ rw (bad, ton_health_check) tt
    | inr (host, h) ↦
        rw (h, ton_health_check)
          (behind_request tools node down _ (ton_from_answer tools node url) s (λ _. tt)
            (λ _ _ _. refl))
  ]

  pub aptos-IsUnsynced :
      (url : String) (s : Session) → IsUnsynced (aptos_health_check tools node url s).0
  unfolding aptos_health_check aptos_from_answer aptos_from_version
  aptos-IsUnsynced url s =
      behind_request tools node down _ (aptos_from_answer tools node url) s (λ _. tt) (λ _ _ _. tt)

  pub sui-IsUnsynced :
      (url : String) (s : Session) → IsUnsynced (sui_health_check tools node url s).0
  unfolding sui_health_check sui_from_answer syncing_pseudo pseudo_block syncing_at
  sui-IsUnsynced url s = elim (Option-cases (tools.texts.hostname url)) [
    | inl bad ↦ rw (bad, sui_health_check) tt
    | inr (host, h) ↦
        rw (h, sui_health_check)
          (behind_request tools node down _ (sui_from_answer tools node url) s (λ _. tt)
            (λ _ _ _. refl))
  ]

  pub cardano-IsUnsynced :
      (url : String) (s : Session) → IsUnsynced (cardano_health_check tools node url s).0
  unfolding cardano_health_check cardano_from_answer syncing_pseudo pseudo_block syncing_at
  cardano-IsUnsynced url s =
      behind_request tools node down _ (cardano_from_answer tools node url) s (λ _. tt)
        (λ _ _ _. refl)

  pub avalanche-IsUnsynced :
      (url : String) (s : Session) → IsUnsynced (avalanche_health_check tools node url s).0
  unfolding avalanche_health_check avax_from_answer avax_from_health
  avalanche-IsUnsynced url s =
      behind_request tools node down _ (avax_from_answer tools node url) s (λ _. tt)
        λ cause _ s'. busy-IsUnsynced tools node down (is_timeout_text tools.texts cause) _
