-- ===== src/Api/Webhook/Tables.antt =====
-- api/v1alpha2/chaininstance_webhook.go: the tables of the webhook. A name of a chain constant stands
-- for its text.
use chainplane.Prelude.{String, List, [], ◌∷◌}
use chainplane.Api.{Chain, Quantity}

-- chainConstraints; "0" is the quantity of a field that is not set.
pub record ChainConstraints : Type 0 where
  pub min_storage : Quantity
  pub min_memory : Quantity

abbrev row : Chain → Quantity → Quantity → Chain × ChainConstraints
row chain storage memory = (chain, record { min_storage = storage; min_memory = memory })

-- validationRegistry
unfoldable pub validation_registry : List (Chain × ChainConstraints)
validation_registry =
    row "ethereum" "50Gi" "4Gi"
    ∷ row "ethereum-archive" "2Ti" "8Gi"
    ∷ row "bitcoin" "500Gi" "0"
    ∷ row "solana" "500Gi" "64Gi"
    ∷ row "bsc" "1Ti" "16Gi"
    ∷ row "tron" "500Gi" "16Gi"
    ∷ row "polygon" "500Gi" "8Gi"
    ∷ row "avalanche" "500Gi" "8Gi"
    ∷ row "litecoin" "100Gi" "0"
    ∷ row "xrp" "100Gi" "0"
    ∷ row "stellar" "100Gi" "0"
    ∷ row "dash" "50Gi" "0"
    ∷ row "ton" "100Gi" "8Gi"
    ∷ row "cosmos" "500Gi" "8Gi"
    ∷ row "near" "500Gi" "8Gi"
    ∷ row "sui" "500Gi" "8Gi"
    ∷ row "aptos" "500Gi" "8Gi"
    ∷ row "cardano" "100Gi" "8Gi"
    ∷ row "arbitrum" "2Ti" "16Gi"
    ∷ row "optimism" "1Ti" "16Gi"
    ∷ row "base" "2Ti" "16Gi"
    ∷ row "berachain" "500Gi" "8Gi"
    ∷ row "cronos" "1Ti" "8Gi"
    ∷ row "ronin" "1Ti" "8Gi"
    ∷ row "celo" "500Gi" "8Gi"
    ∷ row "fantom" "2Ti" "16Gi"
    ∷ row "gnosis" "500Gi" "8Gi"
    ∷ row "mantle" "1Ti" "16Gi"
    ∷ row "blast" "500Gi" "8Gi"
    ∷ row "mode" "500Gi" "8Gi"
    ∷ row "zora" "500Gi" "8Gi"
    ∷ row "taiko" "500Gi" "8Gi"
    ∷ row "zksync" "1Ti" "16Gi"
    ∷ row "linea" "1Ti" "8Gi"
    ∷ row "scroll" "500Gi" "8Gi"
    ∷ row "dogecoin" "100Gi" "0"
    ∷ row "osmosis" "1Ti" "8Gi"
    ∷ row "sei" "500Gi" "8Gi"
    ∷ row "evmos" "500Gi" "8Gi"
    ∷ row "kava" "1Ti" "8Gi"
    ∷ row "polkadot" "500Gi" "8Gi"
    ∷ row "starknet" "500Gi" "8Gi"
    ∷ row "filecoin" "2Ti" "32Gi"
    ∷ row "moonbeam" "2000Gi" "16Gi"
    ∷ row "moonriver" "1000Gi" "8Gi"
    ∷ row "polygon-zkevm" "500Gi" "8Gi"
    ∷ row "manta-pacific" "500Gi" "8Gi"
    ∷ row "metis" "500Gi" "8Gi"
    ∷ row "fraxtal" "300Gi" "8Gi"
    ∷ row "lisk" "200Gi" "4Gi"
    ∷ row "kroma" "300Gi" "8Gi"
    ∷ row "bob" "200Gi" "4Gi"
    ∷ row "boba-eth" "200Gi" "4Gi"
    ∷ row "soneium" "200Gi" "4Gi"
    ∷ row "swell" "200Gi" "4Gi"
    ∷ row "superseed" "100Gi" "4Gi"
    ∷ row "ink" "100Gi" "4Gi"
    ∷ row "morph" "200Gi" "4Gi"
    ∷ row "abstract" "200Gi" "4Gi"
    ∷ row "megaeth" "200Gi" "8Gi"
    ∷ row "zero-network" "100Gi" "4Gi"
    ∷ row "zircuit" "200Gi" "4Gi"
    ∷ row "immutable-zkevm" "300Gi" "8Gi"
    ∷ row "worldchain" "200Gi" "4Gi"
    ∷ row "unichain" "200Gi" "4Gi"
    ∷ row "lens" "100Gi" "4Gi"
    ∷ row "plume" "100Gi" "4Gi"
    ∷ row "hemi" "200Gi" "4Gi"
    ∷ row "ethereum-beacon" "2000Gi" "16Gi"
    ∷ row "gnosis-beacon" "500Gi" "8Gi"
    ∷ row "axelar" "500Gi" "8Gi"
    ∷ row "dymension" "300Gi" "8Gi"
    ∷ row "aurora" "500Gi" "8Gi"
    ∷ row "harmony" "2000Gi" "8Gi"
    ∷ row "rootstock" "200Gi" "4Gi"
    ∷ row "telos" "300Gi" "8Gi"
    ∷ row "klaytn" "2000Gi" "16Gi"
    ∷ row "shibarium" "200Gi" "4Gi"
    ∷ row "core" "500Gi" "8Gi"
    ∷ row "haqq" "500Gi" "8Gi"
    ∷ row "hashkey" "200Gi" "4Gi"
    ∷ row "ethereum-classic" "1000Gi" "8Gi"
    ∷ row "bittorrent" "500Gi" "8Gi"
    ∷ row "gravity-alpha" "200Gi" "4Gi"
    ∷ row "moca" "100Gi" "4Gi"
    ∷ row "everclear" "100Gi" "4Gi"
    ∷ row "doma" "100Gi" "4Gi"
    ∷ row "cronos-zkevm" "200Gi" "4Gi"
    ∷ row "sonic" "500Gi" "8Gi"
    ∷ row "goat" "200Gi" "4Gi"
    ∷ row "katana" "100Gi" "4Gi"
    ∷ row "mezo" "100Gi" "4Gi"
    ∷ row "plasma" "100Gi" "4Gi"
    ∷ row "playnance" "100Gi" "4Gi"
    ∷ row "kusama" "2000Gi" "16Gi"
    ∷ row "hyperliquid" "2000Gi" "32Gi"
    ∷ row "monad" "500Gi" "16Gi"
    ∷ row "opbnb" "500Gi" "8Gi"
    ∷ row "fuse" "300Gi" "4Gi"
    ∷ row "thundercore" "500Gi" "8Gi"
    ∷ row "wemix" "500Gi" "8Gi"
    ∷ row "viction" "500Gi" "8Gi"
    ∷ []

-- supportedNetworks
unfoldable pub supported_networks : List String
supported_networks = "mainnet" ∷ "testnet" ∷ "devnet" ∷ []

-- supportedChainNames
unfoldable pub supported_chain_names : List String
supported_chain_names =
    "ethereum" ∷ "ethereum-archive" ∷ "bitcoin" ∷ "solana" ∷ "bsc" ∷ "tron" ∷ "polygon"
    ∷ "avalanche" ∷ "litecoin" ∷ "xrp" ∷ "stellar" ∷ "dash" ∷ "ton" ∷ "cosmos" ∷ "near" ∷ "sui"
    ∷ "aptos" ∷ "cardano" ∷ "arbitrum" ∷ "optimism" ∷ "base" ∷ "berachain" ∷ "cronos" ∷ "ronin"
    ∷ "celo" ∷ "fantom" ∷ "gnosis" ∷ "mantle" ∷ "blast" ∷ "mode" ∷ "zora" ∷ "taiko" ∷ "zksync"
    ∷ "linea" ∷ "scroll" ∷ "dogecoin" ∷ "osmosis" ∷ "sei" ∷ "evmos" ∷ "kava" ∷ "polkadot"
    ∷ "starknet" ∷ "filecoin" ∷ "fraxtal" ∷ "lisk" ∷ "kroma" ∷ "bob" ∷ "boba-eth" ∷ "soneium"
    ∷ "swell" ∷ "superseed" ∷ "ink" ∷ "morph" ∷ "abstract" ∷ "megaeth" ∷ "zero-network" ∷ "zircuit"
    ∷ "immutable-zkevm" ∷ "worldchain" ∷ "unichain" ∷ "lens" ∷ "plume" ∷ "hemi" ∷ "axelar"
    ∷ "dymension" ∷ "aurora" ∷ "harmony" ∷ "rootstock" ∷ "telos" ∷ "klaytn" ∷ "shibarium" ∷ "core"
    ∷ "haqq" ∷ "hashkey" ∷ "ethereum-classic" ∷ "bittorrent" ∷ "gravity-alpha" ∷ "moca"
    ∷ "everclear" ∷ "doma" ∷ "cronos-zkevm" ∷ "sonic" ∷ "goat" ∷ "katana" ∷ "mezo" ∷ "plasma"
    ∷ "playnance" ∷ "kusama" ∷ "hyperliquid" ∷ "monad" ∷ "ethereum-beacon" ∷ "gnosis-beacon"
    ∷ "opbnb" ∷ "fuse" ∷ "thundercore" ∷ "wemix" ∷ "viction" ∷ []
