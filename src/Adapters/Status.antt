-- ===== src/Adapters/Status.antt =====
-- internal/adapters/interface.go: what a health check reports.
use chainplane.Prelude.{ℕ, Bool}

-- SyncStatus. The numbers are the bit patterns of an int64 and, for the peers, of an int32.
pub record SyncStatus (F : Type 0) : Type 0 where
  pub is_syncing : Bool
  pub current_block : ℕ
  pub highest_block : ℕ
  pub peers : ℕ
  pub progress : F
  pub stall_exempt : Bool
