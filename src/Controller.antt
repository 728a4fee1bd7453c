-- ===== src/Controller.antt =====
-- internal/controller
pub mod Conditions
pub mod NodeHealth
pub mod HealthStatus
pub mod Upgrade
pub mod VersionCatalog
