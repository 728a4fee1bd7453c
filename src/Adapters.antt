-- ===== src/Adapters.antt =====
-- internal/adapters: the health checks of the nodes of each chain, over HTTP. The node, the context, the
-- clock, and the packages for texts, numbers and JSON are parameters.
pub mod Int64
pub mod Status
pub mod Session
pub mod Payloads
pub mod Rpc
pub mod Evm
pub mod Get
pub mod Comet
pub mod Utxo
pub mod OwnRpc
pub mod Rest
pub mod Metrics
pub mod Checks
pub mod Down
pub mod Unreachable
pub mod Spending
