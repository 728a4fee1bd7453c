-- ===== src/Health.antt =====
-- internal/health: the triggers, the evaluator, and the replacement of a pod.
pub mod Chain
pub mod Trigger
pub mod Thresholds
pub mod Evaluator
pub mod Prometheus
pub mod Replacement
pub mod Traffic
