-- ===== src/Registry.antt =====
-- internal/registry
pub mod Semver
pub mod Http
pub mod Formats
pub mod TagsList
pub mod DockerHub
pub mod Client
