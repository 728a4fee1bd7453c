-- ===== src/Health/Chain.antt =====
-- internal/health/chain.go
use chainplane.Prelude.{String, ◌||◌, str_eq, if◌then◌else◌}
use chainplane.Api.{Chain}

-- BlockchainType
abbrev pub BlockchainType : Type 0
BlockchainType = String

abbrev pub ethereum : BlockchainType
ethereum = "ethereum"

abbrev pub solana : BlockchainType
solana = "solana"

abbrev pub chain_ethereum : Chain
chain_ethereum = "ethereum"

abbrev pub chain_ethereum_archive : Chain
chain_ethereum_archive = "ethereum-archive"

abbrev pub chain_solana : Chain
chain_solana = "solana"

-- ChainToBlockchainType, with the table chainMapping
unfoldable pub chain_to_blockchain_type : Chain → BlockchainType
chain_to_blockchain_type c =
    if str_eq c chain_ethereum || str_eq c chain_ethereum_archive
    then ethereum
    else if str_eq c chain_solana
    then solana
    else ethereum
