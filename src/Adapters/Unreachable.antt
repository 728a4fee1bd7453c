-- ===== src/Adapters/Unreachable.antt =====
-- Whichever adapter checks it, a node that answers no request is not reported as synced.
use chainplane.Prelude.{String}
use chainplane.Adapters.Session.{Node, Session}
use chainplane.Adapters.Payloads.{AdapterTools}
use chainplane.Adapters.Comet.{
  cosmos_health_check, axelar_health_check, dymension_health_check, evmos_health_check,
  kava_health_check, moca_health_check, osmosis_health_check, sei_health_check,
}
use chainplane.Adapters.Checks.{
  AdapterKind, health_check, evm, ethereum, cosmos, axelar, dymension, evmos, kava, moca, osmosis,
  sei, substrate, polkadot, starknet, filecoin, solana, xrp, beacon, near, hyperliquid, stellar,
  tron, ton, aptos, sui, cardano, avalanche, plasma, utxo, utxo_with_credentials,
}
use chainplane.Adapters.Down.{IsDown, IsUnsynced}
use chainplane.Adapters.Down.Calls.{
  evm-IsUnsynced, comet-IsUnsynced, utxo-IsUnsynced, ethereum-IsUnsynced, substrate-IsUnsynced,
  polkadot-IsUnsynced, starknet-IsUnsynced, filecoin-IsUnsynced, solana-IsUnsynced, xrp-IsUnsynced,
  credentials-IsUnsynced,
}
use chainplane.Adapters.Down.Requests.{
  beacon-IsUnsynced, near-IsUnsynced, hyperliquid-IsUnsynced, stellar-IsUnsynced, tron-IsUnsynced,
  ton-IsUnsynced, aptos-IsUnsynced, sui-IsUnsynced, cardano-IsUnsynced, avalanche-IsUnsynced,
}

module _ {F : Type 0} (tools : AdapterTools F) (node : Node) (down : IsDown node) where
  -- Whichever adapter checks it, a node that answers no request is not reported as synced: the check fails, or
  -- its report says that the node is syncing.
  pub health_check-IsUnsynced :
      (kind : AdapterKind) (url : String) (s : Session)
      → IsUnsynced (health_check tools node url kind s).0
  unfolding health_check cosmos_health_check axelar_health_check dymension_health_check
      evmos_health_check kava_health_check moca_health_check osmosis_health_check sei_health_check
  health_check-IsUnsynced evm url s = evm-IsUnsynced tools node down url s
  health_check-IsUnsynced ethereum url s = ethereum-IsUnsynced tools node down url s
  health_check-IsUnsynced cosmos url s = comet-IsUnsynced tools node down _ url s
  health_check-IsUnsynced axelar url s = comet-IsUnsynced tools node down _ url s
  health_check-IsUnsynced dymension url s = comet-IsUnsynced tools node down _ url s
  health_check-IsUnsynced evmos url s = comet-IsUnsynced tools node down _ url s
  health_check-IsUnsynced kava url s = comet-IsUnsynced tools node down _ url s
  health_check-IsUnsynced moca url s = comet-IsUnsynced tools node down _ url s
  health_check-IsUnsynced osmosis url s = comet-IsUnsynced tools node down _ url s
  health_check-IsUnsynced sei url s = comet-IsUnsynced tools node down _ url s
  health_check-IsUnsynced substrate url s = substrate-IsUnsynced tools node down url s
  health_check-IsUnsynced polkadot url s = polkadot-IsUnsynced tools node down url s
  health_check-IsUnsynced starknet url s = starknet-IsUnsynced tools node down url s
  health_check-IsUnsynced filecoin url s = filecoin-IsUnsynced tools node down url s
  health_check-IsUnsynced solana url s = solana-IsUnsynced tools node down url s
  health_check-IsUnsynced xrp url s = xrp-IsUnsynced tools node down url s
  health_check-IsUnsynced beacon url s = beacon-IsUnsynced tools node down url s
  health_check-IsUnsynced near url s = near-IsUnsynced tools node down url s
  health_check-IsUnsynced hyperliquid url s = hyperliquid-IsUnsynced tools node down url s
  health_check-IsUnsynced stellar url s = stellar-IsUnsynced tools node down url s
  health_check-IsUnsynced tron url s = tron-IsUnsynced tools node down url s
  health_check-IsUnsynced ton url s = ton-IsUnsynced tools node down url s
  health_check-IsUnsynced aptos url s = aptos-IsUnsynced tools node down url s
  health_check-IsUnsynced sui url s = sui-IsUnsynced tools node down url s
  health_check-IsUnsynced cardano url s = cardano-IsUnsynced tools node down url s
  health_check-IsUnsynced avalanche url s = avalanche-IsUnsynced tools node down url s
  health_check-IsUnsynced plasma url s = tt
  health_check-IsUnsynced (utxo u) url s = utxo-IsUnsynced tools node down url u s
  health_check-IsUnsynced (utxo_with_credentials u c creds) url s =
      credentials-IsUnsynced tools node down url u c creds s
