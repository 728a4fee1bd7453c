-- ===== src/Controller/HealthStatus/Phases.antt =====
-- The phase and the conditions that the branches of a node that does not sync leave behind agree.
use chainplane.Prelude.{
  ◌≡◌, ◌≢◌, ◌⊎◌, refl, ap, ◌∙◌, inl, inr, ℕ, String, Bool, true, false, Option, some, arith, eq_iff,
  Option-cases,
}
use chainplane.Errors.{Result, ok}
use chainplane.Api.{
  ChainInstance, ChainInstanceStatus, Condition, ConditionStatus, status_true, status_false,
  healthy, degraded, syncing,
}
use chainplane.Kube.{World, update_instance, get_pod, delete_pod}
use chainplane.Kube.Inversion.{run_cases}
use chainplane.Controller.Conditions.{
  find_condition, set_condition, condition_ready, condition_degraded,
}
use chainplane.Controller.Conditions.Laws.{set_condition-Says, set_condition_others}
use chainplane.Controller.HealthStatus.{
  Environment, judge_stall, track, restart_if_degraded_too_long, restart_tracked, restart_fetched,
  restart_pod, note_degraded, persist_annotations, clear_degraded_tracking, detect_height_stall,
}
use chainplane.Controller.HealthStatus.Marks.{degrade}
use chainplane.Controller.HealthStatus.Refresh.{
  apply_lag, marked_well, mark_synced, apply_synced, mark_height_stall, apply_fully_synced_status,
}

-- The status has a condition of the kind with the given status.
abbrev pub Shows : String → ConditionStatus → ChainInstanceStatus → Type 0
Shows kind status s =
    (c : Condition) × (find_condition s.conditions kind ≡ some c) × (c.status ≡ status)

pub Shows-same :
    (kind : String) (status : ConditionStatus) (s t : ChainInstanceStatus)
    → t.conditions ≡ s.conditions
    → Shows kind status s
    → Shows kind status t
Shows-same kind status s t e (c, found, is) = (c, rw e found, is)

-- A healthy node is ready and not degraded; a degraded one is degraded and not ready; one that is
-- syncing is neither.
abbrev pub Agrees : ChainInstanceStatus → Type 0
Agrees s =
    ((s.phase ≡ healthy)
      × Shows condition_ready status_true s
      × Shows condition_degraded status_false s)
    ⊎ (((s.phase ≡ degraded)
          × Shows condition_ready status_false s
          × Shows condition_degraded status_true s)
        ⊎ ((s.phase ≡ syncing)
            × Shows condition_ready status_false s
            × Shows condition_degraded status_false s))

pub set_condition-Shows :
    (kind : String) (status : ConditionStatus) (reason message : String) (now : ℕ)
    (node : ChainInstance)
    → Shows kind status (set_condition kind status reason message now node).status
set_condition-Shows kind status reason message now node =
    let (c, found, says) = set_condition-Says kind status reason message now node in
    (c, found, says.status_is)

pub set_condition_keeps :
    (kind other : String) (status kept : ConditionStatus) (reason message : String) (now : ℕ)
    (node : ChainInstance)
    → other ≢ kind
    → Shows other kept node.status
    → Shows other kept (set_condition kind status reason message now node).status
set_condition_keeps kind other status kept reason message now node ne (c, found, is) =
    (c, set_condition_others kind status reason message now node other ne ∙ found, is)

pub degraded_other : condition_degraded ≢ condition_ready
degraded_other = ground (arith, eq_iff condition_degraded condition_ready)

pub degrade-phase :
    (reason message ready_message : String) (now : ℕ) (node : ChainInstance)
    → (degrade reason message ready_message now node).status.phase ≡ degraded
unfolding degrade set_condition
degrade-phase reason message ready_message now node = refl

pub degrade-Agrees :
    (reason message ready_message : String) (now : ℕ) (node : ChainInstance)
    → Agrees (degrade reason message ready_message now node).status
unfolding degrade
degrade-Agrees reason message ready_message now node = inr (
    inl (
      degrade-phase reason message ready_message now node,
      set_condition-Shows condition_ready status_false reason ready_message now _,
      set_condition_keeps condition_ready condition_degraded status_false status_true reason
          ready_message now _ degraded_other
          (set_condition-Shows condition_degraded status_true reason message now _),
    ))

well-phase :
    (now : ℕ) (node : ChainInstance)
    → node.status.phase ≡ healthy
    → (marked_well now node).status.phase ≡ healthy
unfolding marked_well set_condition
well-phase now node h = h

apply_lag-Agrees :
    (e : Environment) (now : ℕ) (lagging : Bool) (lag : ℕ) (node : ChainInstance)
    → node.status.phase ≡ healthy
    → Agrees (apply_lag e now lagging lag node).status
unfolding apply_lag marked_well
apply_lag-Agrees e now true lag node h = degrade-Agrees _ _ _ now _
apply_lag-Agrees e now false lag node h = inl (
  well-phase now node h,
  set_condition-Shows condition_ready status_true _ _ now _,
  set_condition_keeps condition_ready condition_degraded status_true status_false _ _ now _
      degraded_other (set_condition-Shows condition_degraded status_false _ _ now _),
)

mark_synced-phase : (now : ℕ) (node : ChainInstance) → (mark_synced now node).status.phase ≡ healthy
unfolding mark_synced set_condition
mark_synced-phase now node = refl

apply_synced-Agrees :
    (e : Environment) (block now : ℕ) (node : ChainInstance)
    → Agrees (apply_synced e block now node).status
unfolding apply_synced
apply_synced-Agrees e block now node =
    apply_lag-Agrees e now _ _ (mark_synced now node) (mark_synced-phase now node)

-- What persists annotations, restarts or clears keeps the status of the caller's copy.
persist-status : (w : World) → (persist_annotations w).1.node.status ≡ w.node.status
unfolding persist_annotations update_instance
persist-status w = ground arith

pub restart-status :
    (e : Environment) (w : World) → (restart_if_degraded_too_long e w).1.node.status ≡ w.node.status
unfolding restart_if_degraded_too_long restart_tracked restart_fetched restart_pod note_degraded
    persist_annotations update_instance get_pod delete_pod
restart-status e w = ground arith

pub clear-status : (w : World) → (clear_degraded_tracking w).1.node.status ≡ w.node.status
unfolding clear_degraded_tracking persist_annotations update_instance
clear-status w = ground arith

pub detect-ok :
    (e : Environment) (block : ℕ) (w : World)
    → (x : Option String) × ((detect_height_stall e block w).0 ≡ ok x)
unfolding detect_height_stall judge_stall track
detect-ok e block w = elim (run_cases (detect_height_stall e block) w) [
  | inl (x, v, h) ↦ (x, ap (λ (r : Result (Option String) × World). r.0) h)
  | inr (x, v, h) ↦ absurd (ground arith)
]

stall-Agrees :
    (e : Environment) (message : String) (now : ℕ) (w : World)
    → Agrees (mark_height_stall e message now w).1.node.status
unfolding mark_height_stall
stall-Agrees e message now w =
    rw restart-status (degrade-Agrees "HeightStall" message message now w.node)

-- applyFullySyncedStatus, whatever calls fail: it leaves a node that is healthy, ready and not
-- degraded, or one that is degraded, marked so, and not ready.
pub synced-Agrees :
    (e : Environment) (block now : ℕ) (w : World)
    → Agrees (apply_fully_synced_status e block now w).1.node.status
unfolding apply_fully_synced_status
synced-Agrees e block now w =
    let v = (detect_height_stall e block w).1 in
    let (stalled, h) = detect-ok e block w in
    elim (Option-cases stalled) [
      | inl none_is ↦ rw (h, none_is) (apply_synced-Agrees e block now v.node)
      | inr (m, some_is) ↦ rw (h, some_is) (stall-Agrees e m now v)
    ]

-- A status that agrees still does with another observed generation.
pub Agrees-same :
    (s t : ChainInstanceStatus)
    → t.phase ≡ s.phase
    → t.conditions ≡ s.conditions
    → Agrees s
    → Agrees t
Agrees-same s t p c (inl (a, r, d)) = inl (
  p ∙ a,
  Shows-same condition_ready status_true s t c r,
  Shows-same condition_degraded status_false s t c d,
)
Agrees-same s t p c (inr (inl (a, r, d))) = inr (
    inl (
      p ∙ a,
      Shows-same condition_ready status_false s t c r,
      Shows-same condition_degraded status_true s t c d,
    ))
Agrees-same s t p c (inr (inr (a, r, d))) = inr (
    inr (
      p ∙ a,
      Shows-same condition_ready status_false s t c r,
      Shows-same condition_degraded status_false s t c d,
    ))
