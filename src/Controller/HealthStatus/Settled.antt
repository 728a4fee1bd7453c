-- ===== src/Controller/HealthStatus/Settled.antt =====
-- The phase and the conditions that a refresh of the status leaves behind agree.
use Prim.Native.String.{◌++◌}
use chainplane.Adapters.Status.{SyncStatus}
use chainplane.Prelude.{
  ◌≡◌, ◌≢◌, refl, ap, inl, inr, ℕ, String, Bool, true, false, Option, some, none, arith, eq_iff,
  Option-cases, Bool-cases, not, str_eq, if◌then◌else◌,
}
use chainplane.Errors.{Result, ok, err}
use chainplane.Api.{ChainInstance, ChainInstanceStatus, status_true, status_false, syncing}
use chainplane.Kube.{Action, World, patch_status}
use chainplane.Kube.Inversion.{bind-ok}
use chainplane.Controller.Conditions.{
  set_condition, condition_ready, condition_degraded, condition_syncing,
}
use chainplane.Controller.HealthStatus.{Environment, set_status}
use chainplane.Controller.HealthStatus.Marks.{with_phase, with_progress, with_eta}
use chainplane.Controller.HealthStatus.Eta.{SyncTools}
use chainplane.Controller.HealthStatus.Estimate.{estimate_sync_eta-Quiet}
use chainplane.Controller.HealthStatus.Syncing.{
  percent, capped, mark_stalled, marked_syncing, note_progress, keep_syncing, check_stall, enriched,
  apply_syncing_status,
}
use chainplane.Controller.HealthStatus.Refresh.{
  apply_degraded_from_error, apply_fully_synced_status, apply_healthy_or_syncing, apply_report,
  follow_up, refresh_status,
}
use chainplane.Controller.HealthStatus.Phases.{
  Agrees, Agrees-same, set_condition-Shows, set_condition_keeps, degrade-Agrees, restart-status,
  clear-status, detect-ok, synced-Agrees,
}

pub marked_syncing-phase :
    {F : Type 0} (tools : SyncTools F) (e : Environment) (progress : F) (now : ℕ)
    (node : ChainInstance)
    → node.status.phase ≡ syncing
    → (marked_syncing tools e progress now node).status.phase ≡ syncing
unfolding marked_syncing set_condition
marked_syncing-phase tools e progress now node h = h

ready_other : condition_ready ≢ condition_degraded
ready_other = ground (arith, eq_iff condition_degraded condition_ready)

-- Another condition does not change whether the status agrees.
other_condition-Agrees :
    (kind reason message : String) (now : ℕ) (node : ChainInstance)
    → condition_ready ≢ kind
    → condition_degraded ≢ kind
    → Agrees node.status
    → Agrees (set_condition kind status_true reason message now node).status
unfolding set_condition
other_condition-Agrees kind reason message now node r d (inl (p, a, b)) = inl (
  p,
  set_condition_keeps kind condition_ready status_true status_true reason message now node r a,
  set_condition_keeps kind condition_degraded status_true status_false reason message now node d b,
)
other_condition-Agrees kind reason message now node r d (inr (inl (p, a, b))) = inr (
    inl (
      p,
      set_condition_keeps kind condition_ready status_true status_false reason message now node r a,
      set_condition_keeps kind condition_degraded status_true status_true reason message now node d
          b,
    ))
other_condition-Agrees kind reason message now node r d (inr (inr (p, a, b))) = inr (
    inr (
      p,
      set_condition_keeps kind condition_ready status_true status_false reason message now node r a,
      set_condition_keeps kind condition_degraded status_true status_false reason message now node d
          b,
    ))

if-Agrees :
    (b : Bool) (m k : Action (Unit {0})) (w : World)
    → Agrees (m w).1.node.status
    → Agrees (k w).1.node.status
    → Agrees ((if b then m else k) w).1.node.status
if-Agrees true m k w h l = h
if-Agrees false m k w h l = l

syncing_other : (condition_ready ≢ condition_syncing) × (condition_degraded ≢ condition_syncing)
syncing_other = (
  ground (arith, eq_iff condition_ready condition_syncing),
  ground (arith, eq_iff condition_degraded condition_syncing),
)

module _ {F : Type 0} (tools : SyncTools F) (e : Environment) where
  marked_syncing-Agrees :
      (progress : F) (now : ℕ) (node : ChainInstance)
      → node.status.phase ≡ syncing
      → Agrees (marked_syncing tools e progress now node).status
  unfolding marked_syncing
  marked_syncing-Agrees progress now node h = inr (
      inr (
        marked_syncing-phase tools e progress now node h,
        set_condition_keeps condition_degraded condition_ready status_false status_false _ _ now _
            ready_other (set_condition-Shows condition_ready status_false _ _ now _),
        set_condition-Shows condition_degraded status_false _ _ now _,
      ))

  -- The progress is noted without an error, and the phase stays.
  pub note_progress-phase :
      (progress : F) (block now : ℕ) (w : World)
      → (v : World) × (note_progress tools e progress block now w ≡ (ok tt, v))
        × (v.node.status.phase ≡ w.node.status.phase)
  unfolding note_progress
  note_progress-phase progress block now w =
      let u = (set_status (with_progress (percent tools e (capped tools e progress))) w).1 in
      let q = estimate_sync_eta-Quiet tools e progress block now u in
      elim (Bool-cases (not (str_eq q.result ""))) [
        | inl some_eta ↦ (
          record q.after { node = with_eta q.result q.after.node },
          rw (q.run, some_eta) refl,
          ap (λ (s : ChainInstanceStatus). s.phase) q.kept,
        )
        | inr no_eta ↦
            (q.after, rw (q.run, no_eta) refl, ap (λ (s : ChainInstanceStatus). s.phase) q.kept)
      ]

  keep_syncing-Agrees :
      (preserve : Bool) (progress : F) (block now : ℕ) (w : World)
      → Agrees (keep_syncing tools e preserve progress block now w).1.node.status
  unfolding keep_syncing
  keep_syncing-Agrees true progress block now w = marked_syncing-Agrees progress now _ refl
  keep_syncing-Agrees false progress block now w =
      let (v, run, phase) =
        note_progress-phase progress block now (set_status (with_phase syncing) w).1 in
      rw run (marked_syncing-Agrees progress now v.node phase)

  mark_stalled-Agrees :
      (progress : F) (message : String) (now : ℕ) (w : World)
      → Agrees (mark_stalled tools e progress message now w).1.node.status
  unfolding mark_stalled
  mark_stalled-Agrees progress message now w =
      let (r, d) = syncing_other in
      rw restart-status (
        other_condition-Agrees condition_syncing "Syncing"
          (percent tools e progress ++ " complete (stalled)") now _ r d
          (degrade-Agrees "SyncStall" message message now w.node))

  pub check_stall-ok :
      (s : SyncStatus F) (w : World) → (x : Option String) × ((check_stall tools e s w).0 ≡ ok x)
  unfolding check_stall
  check_stall-ok s w = elim (Bool-cases s.stall_exempt) [
    | inl exempt ↦ (none, rw exempt refl)
    | inr watched ↦ rw watched (detect-ok e s.current_block w)
  ]

  syncing-Agrees :
      (s : SyncStatus F) (now : ℕ) (w : World)
      → Agrees (apply_syncing_status tools e s now w).1.node.status
  unfolding apply_syncing_status
  syncing-Agrees s now w =
      let v = (check_stall tools e s w).1 in
      let progress = enriched tools e now w.node s.progress in
      let (stalled, h) = check_stall-ok s w in
      elim (Option-cases stalled) [
        | inl none_is ↦ rw (h, none_is) (keep_syncing-Agrees _ progress s.current_block now v)
        | inr (m, some_is) ↦ rw (h, some_is) (mark_stalled-Agrees progress m now v)
      ]

  report-Agrees :
      (report : Result (SyncStatus F)) (now : ℕ) (w : World)
      → Agrees (apply_report tools e report now w).1.node.status
  unfolding apply_report apply_degraded_from_error apply_healthy_or_syncing
  report-Agrees (err x) now w = degrade-Agrees _ _ _ now w.node
  report-Agrees (ok s) now w =
      if-Agrees s.is_syncing (apply_syncing_status tools e s now)
        (apply_fully_synced_status e s.current_block now) _ (syncing-Agrees s now _)
        (synced-Agrees e s.current_block now _)

pub follow_up-status : (e : Environment) (w : World) → (follow_up e w).1.node.status ≡ w.node.status
unfolding follow_up
follow_up-status e w = ground (arith, restart-status e w, clear-status w)

pub patched :
    (w w' : World)
    → patch_status w ≡ (ok tt, w')
    → (w'.stored ≡ some w'.node) × (w'.node.status ≡ w.node.status)
unfolding patch_status
patched w w' h = (ground arith, ground arith)

-- If refreshStatus succeeds, whatever the health check answered and whatever calls failed on the way,
-- then the server has the caller's copy, and in it the phase and the conditions agree: the node is
-- healthy, ready and not degraded, or degraded, marked so, and not ready, or syncing, not ready and not
-- degraded.
pub refresh-Agrees :
    {F : Type 0} (tools : SyncTools F) (e : Environment) (report : Result (SyncStatus F))
    (w w' : World)
    → refresh_status tools e report w ≡ (ok tt, w')
    → (w'.stored ≡ some w'.node) × Agrees w'.node.status
unfolding refresh_status
refresh-Agrees tools e report w w' h =
    let (_, v, e₁, h₁) = bind-ok (apply_report tools e report w.now) _ w h in
    let u = record v {
      node = record v.node {
        status = record v.node.status { observed_generation = v.node.generation };
      };
    } in
    let (_, t, e₂, h₂) = bind-ok (follow_up e) _ u h₁ in
    let (same, status_is) = patched t w' h₂ in
    let agrees : Agrees v.node.status = rw e₁ at (report-Agrees tools e report w.now w) in
    let kept : t.node.status ≡ u.node.status = rw e₂ at (follow_up-status e u) in
    (same, rw (status_is, kept) (Agrees-same v.node.status u.node.status refl refl agrees))
