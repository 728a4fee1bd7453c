-- ===== src/Controller/HealthStatus/Syncing.antt =====
-- internal/controller/reconcile_health.go: the status of a node that reports that it is syncing.
use Prim.Native.String.{◌++◌}
use chainplane.Adapters.Status.{SyncStatus}
use chainplane.Prelude.{
  ℕ, String, Bool, Option, none, some, List, [], ◌∷◌, not, ◌&&◌, str_eq, if◌then◌else◌,
}
use chainplane.Api.{ChainInstance, syncing, status_true, status_false}
use chainplane.Kube.{Action, pure, gets, attempt, ◌>>=◌, ◌>>◌}
use chainplane.Controller.Conditions.{
  condition_ready, condition_syncing, condition_degraded, set_condition,
}
use chainplane.Controller.HealthStatus.{
  Environment, set_status, detect_height_stall, restart_if_degraded_too_long,
}
use chainplane.Controller.HealthStatus.Marks.{
  with_phase, with_progress, with_eta, with_observed_generation, degrade,
}
use chainplane.Controller.HealthStatus.Eta.{SyncTools, estimate_sync_eta}

module _ {F : Type 0} (tools : SyncTools F) (e : Environment) where
  -- One round of the loop of avaxBootstrapProgress, from the progress found before.
  abbrev pub scan_line : Option F → String → Option F
  scan_line pct line = elim (tools.after_mark line) [
    | none ↦ pct
    | some text ↦ elim (tools.scan_float text) [ none ↦ pct | some p ↦ some p ]
  ]

  -- The loop of avaxBootstrapProgress over the lines.
  unfoldable pub last_progress : Option F → List String → Option F
  last_progress pct [] = pct
  last_progress pct (line ∷ lines) = last_progress (scan_line pct line) lines

  -- avaxBootstrapProgress, with none for -1
  unfoldable pub avax_bootstrap_progress : ℕ → ChainInstance → Option F
  avax_bootstrap_progress now node = elim (tools.log_lines now node) [
    | none ↦ none
    | some lines ↦ last_progress none lines
  ]

  -- The start of applySyncingStatus.
  unfoldable pub enriched : ℕ → ChainInstance → F → F
  enriched now node progress =
      if str_eq node.spec.chain "avalanche" && tools.float.is_zero progress
      then (elim (avax_bootstrap_progress now node) [
        | none ↦ progress
        | some pct ↦ if tools.float.at_least pct (tools.float.decimal 0 0) then pct else progress
      ])
      else progress

  -- The verb %.1f%%.
  abbrev pub percent : F → String
  percent v = tools.float.fixed 1 v ++ "%"

  -- markStalled
  unfoldable pub mark_stalled : F → String → ℕ → Action (Unit {0})
  mark_stalled progress message now = do
    set_status λ node. with_observed_generation (
        with_progress (percent progress ++ " (stalled)") (
          set_condition condition_syncing status_true "Syncing"
            (percent progress ++ " complete (stalled)") now
            (degrade "SyncStall" message message now node)))
    _ ← attempt (restart_if_degraded_too_long e)
    pure tt

  -- The three conditions of a node that is syncing.
  unfoldable pub marked_syncing : F → ℕ → ChainInstance → ChainInstance
  marked_syncing progress now node =
      set_condition condition_degraded status_false "Syncing" "Node is syncing" now (
        set_condition condition_ready status_false "Syncing" "Node is syncing" now (
          set_condition condition_syncing status_true "Syncing" (percent progress ++ " complete")
            now node))

  abbrev pub capped : F → F
  capped progress =
      let cap = tools.float.decimal 999 1 in
      if tools.float.greater progress cap then cap else progress

  -- The progress, of at most 99.9, and the estimate, if there is one.
  unfoldable pub note_progress : F → ℕ → ℕ → Action (Unit {0})
  note_progress progress block now = do
    set_status (with_progress (percent (capped progress)))
    eta ← estimate_sync_eta tools e progress block now
    if not (str_eq eta "") then set_status (with_eta eta) else pure tt

  -- The part of applySyncingStatus for a node that is not stalled.
  unfoldable pub keep_syncing : Bool → F → ℕ → ℕ → Action (Unit {0})
  keep_syncing preserve progress block now = do
    set_status (with_phase syncing)
    if preserve then pure tt else note_progress progress block now
    set_status (marked_syncing progress now)

  -- preserveProgress
  abbrev pub preserves : F → String → Bool
  preserves progress shown =
      tools.float.is_zero progress && (not (str_eq shown "") && not (str_eq shown "0.0%"))

  -- The stall check, unless the adapter signals exemption.
  unfoldable pub check_stall : SyncStatus F → Action (Option String)
  check_stall s = if s.stall_exempt then pure none else detect_height_stall e s.current_block

  -- applySyncingStatus
  unfoldable pub apply_syncing_status : SyncStatus F → ℕ → Action (Unit {0})
  apply_syncing_status s now = do
    node ← gets (λ w. w.node)
    let progress = enriched now node s.progress
    let preserve = preserves progress node.status.sync_progress
    stalled ← check_stall s
    elim stalled [
      | some message ↦ mark_stalled progress message now
      | none ↦ keep_syncing preserve progress s.current_block now
    ]
