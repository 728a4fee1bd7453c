-- ===== src/Controller/HealthStatus/Outage.antt =====
-- refreshStatus with the health check of the node's adapter ahead of it.
use Prim.Native.String.{◌++◌}
use chainplane.Prelude.{
  ltb, ◌&&◌, ◌^◌, ◌≡◌, ◌⊎◌, refl, inl, inr, ℕ, String, Bool, true, false, some, Option-cases,
  if◌then◌else◌, arith,
}
use chainplane.Errors.{Result, ok, err}
use chainplane.Adapters.Status.{SyncStatus}
use chainplane.Adapters.Session.{Node, Session}
use chainplane.Adapters.Payloads.{AdapterTools}
use chainplane.Adapters.Checks.{AdapterKind, health_check}
use chainplane.Adapters.Down.{IsDown, IsUnsynced}
use chainplane.Adapters.Unreachable.{health_check-IsUnsynced}
use chainplane.Api.{ChainInstance, ChainInstanceStatus, degraded, syncing, status_false}
use chainplane.Kube.{Action, World}
use chainplane.Kube.Inversion.{bind-ok}
use chainplane.Controller.Conditions.{set_condition, condition_ready}
use chainplane.Controller.HealthStatus.{Environment, set_status}
use chainplane.Controller.HealthStatus.Marks.{with_phase, with_observed_generation, degrade}
use chainplane.Controller.HealthStatus.Eta.{SyncTools}
use chainplane.Controller.HealthStatus.Syncing.{
  mark_stalled, keep_syncing, check_stall, enriched, apply_syncing_status,
}
use chainplane.Controller.HealthStatus.Refresh.{
  apply_degraded_from_error, apply_healthy_or_syncing, apply_report, apply_fully_synced_status,
  follow_up, refresh_status,
}
use chainplane.Controller.HealthStatus.Phases.{Agrees, Shows, degrade-phase, restart-status}
use chainplane.Controller.HealthStatus.Settled.{
  refresh-Agrees, patched, follow_up-status, note_progress-phase, marked_syncing-phase,
  check_stall-ok,
}

abbrev IsUnwell : ChainInstanceStatus → Type 0
IsUnwell s = (s.phase ≡ degraded) ⊎ (s.phase ≡ syncing)

first_branch :
    (b : Bool) (m k : Action (Unit {0})) (w : World)
    → b ≡ true
    → IsUnwell (m w).1.node.status
    → IsUnwell ((if b then m else k) w).1.node.status
first_branch true m k w h p = p
first_branch false m k w h p = absurd (ground arith)

module _ {F : Type 0} (tools : SyncTools F) (e : Environment) where
  mark_stalled-phase :
      (progress : F) (message : String) (now : ℕ) (w : World)
      → (mark_stalled tools e progress message now w).1.node.status.phase ≡ degraded
  unfolding mark_stalled set_condition degrade
  mark_stalled-phase progress message now w = rw restart-status refl

  keep_syncing-phase :
      (preserve : Bool) (progress : F) (block now : ℕ) (w : World)
      → (keep_syncing tools e preserve progress block now w).1.node.status.phase ≡ syncing
  unfolding keep_syncing
  keep_syncing-phase true progress block now w = marked_syncing-phase tools e progress now _ refl
  keep_syncing-phase false progress block now w =
      let (v, run, phase) =
        note_progress-phase tools e progress block now (set_status (with_phase syncing) w).1 in
      rw run (marked_syncing-phase tools e progress now v.node phase)

  syncing-IsUnwell :
      (s : SyncStatus F) (now : ℕ) (w : World)
      → IsUnwell (apply_syncing_status tools e s now w).1.node.status
  unfolding apply_syncing_status
  syncing-IsUnwell s now w =
      let v = (check_stall tools e s w).1 in
      let progress = enriched tools e now w.node s.progress in
      let (stalled, h) = check_stall-ok tools e s w in
      elim (Option-cases stalled) [
        | inl none_is ↦ rw (h, none_is) (inr (keep_syncing-phase _ progress s.current_block now v))
        | inr (m, some_is) ↦ rw (h, some_is) (inl (mark_stalled-phase progress m now v))
      ]

  -- A report that is no synced one does not make the node healthy.
  report-IsUnwell :
      (report : Result (SyncStatus F)) (now : ℕ) (w : World)
      → IsUnsynced report
      → IsUnwell (apply_report tools e report now w).1.node.status
  unfolding apply_report apply_degraded_from_error apply_healthy_or_syncing
  report-IsUnwell (err x) now w h = inl (degrade-phase _ _ _ now w.node)
  report-IsUnwell (ok s) now w h =
      first_branch s.is_syncing (apply_syncing_status tools e s now)
        (apply_fully_synced_status e s.current_block now) _ h (syncing-IsUnwell s now _)

-- The node is degraded or syncing, and not ready.
abbrev pub IsNotReady : ChainInstanceStatus → Type 0
IsNotReady s = IsUnwell s × Shows condition_ready status_false s

Agrees-IsNotReady : (s : ChainInstanceStatus) → Agrees s → IsUnwell s → IsNotReady s
Agrees-IsNotReady s (inl (p, _, _)) u = absurd (ground arith)
Agrees-IsNotReady s (inr (inl (p, ready, _))) u = (u, ready)
Agrees-IsNotReady s (inr (inr (p, ready, _))) u = (u, ready)

-- A refresh with a report that is no synced one leaves a node that is not ready.
refresh-IsNotReady :
    {F : Type 0} (tools : SyncTools F) (e : Environment) (report : Result (SyncStatus F))
    (w w' : World)
    → IsUnsynced report
    → refresh_status tools e report w ≡ (ok tt, w')
    → (w'.stored ≡ some w'.node) × IsNotReady w'.node.status
unfolding refresh_status
refresh-IsNotReady tools e report w w' unsynced h =
    let (stored, agrees) = refresh-Agrees tools e report w w' h in
    let (_, v, e₁, h₁) = bind-ok (apply_report tools e report w.now) _ w h in
    let u = record v { node = with_observed_generation v.node } in
    let (_, t, e₂, h₂) = bind-ok (follow_up e) _ u h₁ in
    let (same, status_is) = patched t w' h₂ in
    let unwell : IsUnwell v.node.status =
      rw e₁ at (report-IsUnwell tools e report w.now w unsynced) in
    let kept : t.node.status ≡ u.node.status = rw e₂ at (follow_up-status e u) in
    (stored, Agrees-IsNotReady w'.node.status agrees (rw (status_is, kept) unwell))

abbrev pub no_requests : Session
no_requests = record { requests = 0; waited = 0 }

abbrev pub default_rpc_port : ℕ
default_rpc_port = 8545

-- rpcPort: the port of the spec, where it is above 0 as an int32
unfoldable pub rpc_port_of : ChainInstance → ℕ
rpc_port_of node =
    let port = node.spec.rpc_port in
    if ltb 0 port && ltb port (2 ^ 31) then port else default_rpc_port

-- rpcURL, for a node of a namespace
unfoldable pub rpc_url : (ℕ → String) → String → ChainInstance → String
rpc_url show namespace node =
    "http://" ++ node.name ++ "." ++ namespace ++ ".svc.cluster.local:" ++ show (rpc_port_of node)

-- refreshStatus, with the adapter, the namespace of the node, and the HTTP requests of its health check
unfoldable pub check_and_refresh :
    {F : Type 0}
    → SyncTools F
    → Environment
    → AdapterTools F
    → Node
    → AdapterKind
    → String
    → Action (Unit {0})
check_and_refresh tools e adapter_tools node kind namespace w =
    refresh_status tools e
      (health_check adapter_tools node (rpc_url e.show namespace w.node) kind no_requests).0 w

-- If the node answers no request, then whichever adapter checks it, a refreshStatus that succeeds leaves the
-- server with the caller's copy, in which the phase is Degraded or Syncing, and the condition Ready is false.
pub outage-IsNotReady :
    {F : Type 0} (tools : SyncTools F) (e : Environment) (adapter_tools : AdapterTools F)
    (node : Node) (kind : AdapterKind) (namespace : String) (w w' : World)
    → IsDown node
    → check_and_refresh tools e adapter_tools node kind namespace w ≡ (ok tt, w')
    → (w'.stored ≡ some w'.node) × IsNotReady w'.node.status
unfolding check_and_refresh
outage-IsNotReady tools e adapter_tools node kind namespace w w' down h =
    refresh-IsNotReady tools e _ w w'
      (health_check-IsUnsynced adapter_tools node down kind _ no_requests) h
