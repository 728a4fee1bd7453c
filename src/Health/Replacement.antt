-- ===== src/Health/Replacement.antt =====
-- internal/health/replacement.go: the blue/green replacement of a pod.
mod Defs
mod Helpers
mod Workflow
pub mod Annotations
pub mod Pods
pub mod Laws
pub mod Start
pub mod StartFailed
pub mod Monitor
pub mod Unmonitored
pub mod Complete
pub mod Rollback
pub mod Restored
unfoldable pub use Defs.*
unfoldable pub use Helpers.*
unfoldable pub use Workflow.*
