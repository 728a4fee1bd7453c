-- ===== src/Tests.antt =====
-- Concrete inputs at which the theorems are applied, and runs of the operations on them.
mod Data
mod Adapters
mod Evaluator
mod Prometheus
mod Webhook
mod Catalog
mod Clients
mod Replacement
mod NodeHealth
mod Operator
mod Health
mod Traffic
mod Registry
mod Versioncheck
