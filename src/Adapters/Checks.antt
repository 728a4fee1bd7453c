-- ===== src/Adapters/Checks.antt =====
-- internal/adapters: HealthCheck of whichever adapter.
use chainplane.Prelude.{String}
use chainplane.Errors.{Result, err, check_failed}
use chainplane.Adapters.Status.{SyncStatus}
use chainplane.Adapters.Session.{Node, Query, pure}
use chainplane.Adapters.Payloads.{AdapterTools}
use chainplane.Adapters.Evm.{evm_health_check, ethereum_health_check}
use chainplane.Adapters.Comet.{
  cosmos_health_check, axelar_health_check, dymension_health_check, evmos_health_check,
  kava_health_check, moca_health_check, osmosis_health_check, sei_health_check,
}
use chainplane.Adapters.Utxo.{
  UtxoAdapter, RpcCredentials, CredentialTexts, utxo_health_check, health_check_with_credentials,
}
use chainplane.Adapters.OwnRpc.{
  substrate_health_check, polkadot_health_check, starknet_health_check, filecoin_health_check,
  solana_health_check, xrp_health_check,
}
use chainplane.Adapters.Rest.{beacon_health_check, near_health_check, hyperliquid_health_check}
use chainplane.Adapters.Rest.Stellar.{stellar_health_check}
use chainplane.Adapters.Rest.Ton.{ton_health_check}
use chainplane.Adapters.Rest.Tron.{tron_health_check}
use chainplane.Adapters.Metrics.Aptos.{aptos_health_check}
use chainplane.Adapters.Metrics.Avalanche.{avalanche_health_check}
use chainplane.Adapters.Metrics.Cardano.{cardano_health_check}
use chainplane.Adapters.Metrics.Sui.{sui_health_check}

-- The implementations of ChainAdapter by their health checks: `evm` stands for all adapters that call
-- evmHealthCheck, `substrate` and `beacon` for two each, and the last two for the Bitcoin family.
pub data AdapterKind : Type 0 where
  evm ethereum cosmos axelar dymension evmos kava moca osmosis sei substrate polkadot starknet
        filecoin solana :
      AdapterKind
  xrp beacon near hyperliquid stellar tron ton aptos sui cardano avalanche plasma : AdapterKind
  utxo : UtxoAdapter → AdapterKind
  utxo_with_credentials : UtxoAdapter → CredentialTexts → RpcCredentials → AdapterKind

-- HealthCheck, or HealthCheckWithCredentials
unfoldable pub health_check :
    {F : Type 0} → AdapterTools F → Node → String → AdapterKind → Query (Result (SyncStatus F))
health_check tools node url evm = evm_health_check tools node url
health_check tools node url ethereum = ethereum_health_check tools node url
health_check tools node url cosmos = cosmos_health_check tools node url
health_check tools node url axelar = axelar_health_check tools node url
health_check tools node url dymension = dymension_health_check tools node url
health_check tools node url evmos = evmos_health_check tools node url
health_check tools node url kava = kava_health_check tools node url
health_check tools node url moca = moca_health_check tools node url
health_check tools node url osmosis = osmosis_health_check tools node url
health_check tools node url sei = sei_health_check tools node url
health_check tools node url substrate = substrate_health_check tools node url
health_check tools node url polkadot = polkadot_health_check tools node url
health_check tools node url starknet = starknet_health_check tools node url
health_check tools node url filecoin = filecoin_health_check tools node url
health_check tools node url solana = solana_health_check tools node url
health_check tools node url xrp = xrp_health_check tools node url
health_check tools node url beacon = beacon_health_check tools node url
health_check tools node url near = near_health_check tools node url
health_check tools node url hyperliquid = hyperliquid_health_check tools node url
health_check tools node url stellar = stellar_health_check tools node url
health_check tools node url tron = tron_health_check tools node url
health_check tools node url ton = ton_health_check tools node url
health_check tools node url aptos = aptos_health_check tools node url
health_check tools node url sui = sui_health_check tools node url
health_check tools node url cardano = cardano_health_check tools node url
health_check tools node url avalanche = avalanche_health_check tools node url
health_check tools node url plasma = pure (err check_failed)
health_check tools node url (utxo u) = utxo_health_check tools node url u
health_check tools node url (utxo_with_credentials u c creds) =
    health_check_with_credentials tools c node url u creds
