-- ===== src/Controller/HealthStatus.antt =====
-- internal/controller/reconcile_health.go: the detectors of stalls and of block lag, and the restart of a node that stays
-- degraded. Logging and metrics are left out. An annotation map is never nil here, so
-- ensureAnnotations has nothing to do.
pub mod Stall
pub mod Restart
pub mod Marks
pub mod Eta
pub mod Syncing
pub mod Estimate
pub mod Refresh
pub mod Phases
pub mod Settled
pub mod Outage
use Prim.Native.String.{◌++◌}
use chainplane.Prelude.{
  ℕ, ◌+◌, ◌-◌, ◌*◌, ◌/◌, ◌^◌, ◌≡◌, String, Bool, true, false, Option, none, some, not, ltb, ◌==◌,
  str_eq, Map, get, insert, erase, if◌then◌else◌,
}
use chainplane.Errors.{Error, Result, ok, err, is_not_found}
use chainplane.Api.{
  Chain, ChainInstance, ChainInstanceStatus, NodePhase, ConditionStatus, healthy, degraded,
  status_true, status_false,
}
use chainplane.Time.{second, minute, TimeFormat}
use chainplane.Adapters.Int64.{signed, lt64, sub64, sign_extend, mul64}
use chainplane.Kube.{
  Action, Pod, pure, raise, gets, attempt, modify, ◌>>=◌, ◌>>◌, get_pod, delete_pod,
  update_instance, patch_status,
}
use chainplane.Controller.Conditions.{
  condition_ready, condition_syncing, condition_degraded, set_condition, lag_threshold,
  sync_stall_threshold,
}

abbrev pub annotation_degraded_since : String
annotation_degraded_since = "chains.chainplane.io/degraded-since"

abbrev pub annotation_sync_stall_since : String
annotation_sync_stall_since = "chains.chainplane.io/sync-stall-since"

abbrev pub annotation_last_sync_block : String
annotation_last_sync_block = "chains.chainplane.io/last-sync-block"

abbrev pub default_degraded_timeout_minutes : ℕ
default_degraded_timeout_minutes = 15

-- What the controller takes from outside: the standard library's texts of times and of numbers, which are
-- the bit patterns of an int64, and the public tip of a chain at a time, which is fetched over HTTP and may fail.
pub record Environment : Type 0 where
  pub time : TimeFormat
  pub show : ℕ → String
  pub show-injective : (a b : ℕ) → show a ≡ show b → a ≡ b
  pub show_error : Error → String
  pub show_duration : ℕ → String
  pub public_tip : ℕ → Chain → Option ℕ

-- persistAnnotations: the status that is not written yet survives the answer of the server.
unfoldable pub persist_annotations : Action (Unit {0})
persist_annotations = do
  node ← gets (λ w. w.node)
  update_instance
  modify (λ w. record w { node = record w.node { status = node.status } })

abbrev pub annotate : (Map String → Map String) → Action (Unit {0})
annotate change =
    modify (λ w. record w { node = record w.node { annotations = change w.node.annotations } })

abbrev pub set_status : (ChainInstance → ChainInstance) → Action (Unit {0})
set_status change = modify (λ w. record w { node = change w.node })

-- The text of the current time, in whole seconds.
abbrev pub stamp_at : Environment → ℕ → String
stamp_at e now = e.time.format (now / second)

-- A change of the tracking that is not a stall; a failure to persist it is logged only.
unfoldable pub track : (Map String → Map String) → Action (Option String)
track change = do annotate change; _ ← attempt persist_annotations; pure none

abbrev pub stall_message : Environment → ChainInstance → ℕ → String
stall_message e node block =
    "Height frozen at block "
    ++ e.show block
    ++ " for >"
    ++ e.show_duration (sync_stall_threshold node.spec.chain)
    ++ " (10 block-times for "
    ++ node.spec.chain
    ++ ")"

-- The end of detectHeightStall, for a height that was seen frozen before.
unfoldable pub judge_stall : Environment → ℕ → String → Action (Option String)
judge_stall e block since = do
  node ← gets (λ w. w.node)
  now ← gets (λ w. w.now)
  elim (e.time.parse since) [
    | none ↦ track (insert annotation_sync_stall_since (stamp_at e now))
    | some at ↦
        if ltb now (at * second + sync_stall_threshold node.spec.chain)
        then pure none
        else pure (some (stall_message e node block))
  ]

-- The tracking of a height that has advanced.
abbrev pub start_tracking : String → Map String → Map String
start_tracking block m =
    erase annotation_sync_stall_since (insert annotation_last_sync_block block m)

-- detectHeightStall: the message of a stall, if there is one.
unfoldable pub detect_height_stall : Environment → ℕ → Action (Option String)
detect_height_stall e block = do
  node ← gets (λ w. w.node)
  now ← gets (λ w. w.now)
  if not (str_eq (get node.annotations annotation_last_sync_block) (e.show block))
      then track (start_tracking (e.show block))
      else if str_eq (get node.annotations annotation_sync_stall_since) ""
      then track (insert annotation_sync_stall_since (stamp_at e now))
      else judge_stall e block (get node.annotations annotation_sync_stall_since)

-- checkBlockLag: whether the node lags, and by how many blocks; tip and height are bit patterns of an int64.
unfoldable pub check_block_lag : Environment → ℕ → ChainInstance → ℕ → Bool × ℕ
check_block_lag e now node block = elim (e.public_tip now node.spec.chain) [
  | none ↦ (false, 0)
  | some tip ↦
      let lag = if lt64 (sub64 tip block) 0 then 0 else sub64 tip block in
      (lt64 (lag_threshold node) lag, lag)
]

-- The timeout in minutes, by the bit pattern of an int32.
abbrev pub degraded_timeout : ChainInstance → ℕ
degraded_timeout node = elim node.spec.health.degraded_timeout_minutes [
  | none ↦ default_degraded_timeout_minutes
  | some n ↦ n
]

-- time.Duration(timeout) * time.Minute, by its bit pattern
unfoldable pub restart_delay : ChainInstance → ℕ
restart_delay node = mul64 (sign_extend (degraded_timeout node)) minute

-- The delete of restartIfDegradedTooLong.
unfoldable pub restart_pod : String → Action (Unit {0})
restart_pod name = do
  delete_pod name
  annotate (erase annotation_degraded_since)
  persist_annotations

unfoldable pub restart_fetched : String → Result Pod → Action (Unit {0})
restart_fetched name (ok _) = restart_pod name
restart_fetched name (err x) = if is_not_found x then pure tt else raise x

-- The start of the tracking of a degraded node.
unfoldable pub note_degraded : Environment → Action (Unit {0})
note_degraded e = do
  now ← gets (λ w. w.now)
  annotate (insert annotation_degraded_since (stamp_at e now))
  persist_annotations

-- What restartIfDegradedTooLong does for a node that is tracked already. The delay has a sign: both sides of
-- the comparison have 2 ^ 63 added.
unfoldable pub restart_tracked : Environment → String → Action (Unit {0})
restart_tracked e since = do
  node ← gets (λ w. w.node)
  now ← gets (λ w. w.now)
  elim (e.time.parse since) [
    | none ↦ note_degraded e
    | some at ↦
        if ltb (now + 2 ^ 63) (at * second + signed (restart_delay node))
        then pure tt
        else attempt (get_pod (node.name ++ "-0")) >>= restart_fetched (node.name ++ "-0")
  ]

-- restartIfDegradedTooLong
unfoldable pub restart_if_degraded_too_long : Environment → Action (Unit {0})
restart_if_degraded_too_long e = do
  node ← gets (λ w. w.node)
  if degraded_timeout node == 0
      then pure tt
      else (elim (node.annotations annotation_degraded_since) [
        | none ↦ note_degraded e
        | some since ↦ restart_tracked e since
      ])

-- clearDegradedTracking
unfoldable pub clear_degraded_tracking : Action (Unit {0})
clear_degraded_tracking = do
  node ← gets (λ w. w.node)
  elim (node.annotations annotation_degraded_since) [
    | none ↦ pure tt
    | some _ ↦ (do
      annotate (erase annotation_degraded_since)
      _ ← attempt persist_annotations
      pure tt)
  ]
