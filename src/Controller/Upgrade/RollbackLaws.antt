-- ===== src/Controller/Upgrade/RollbackLaws.antt =====
-- What a rollback of the upgrade reconciler has written, and what the next pass makes of it.
use chainplane.Prelude.{
  ◌/◌, ◌≡◌, ◌≢◌, refl, sym, ◌∙◌, inl, inr, String, true, false, Option, none, some, List, [], ◌∷◌,
  arith, eq_iff, get, str_eq, if◌then◌else◌, Bool-cases,
}
use chainplane.Errors.{ok}
use chainplane.Api.{
  ChainInstance, ChainInstanceSpec, ConditionStatus, status_true, status_false, degraded,
}
use chainplane.Time.{second, TimeFormat}
use chainplane.Kube.{World, StatefulSet, Container, patch_status, patch_stateful_set}
use chainplane.Kube.Inversion.{bind-ok}
use chainplane.Controller.Conditions.{condition_ready}
use chainplane.Controller.Upgrade.{
  annotation_last_image, annotation_previous_image, condition_upgrading, main_container_name,
  persist_condition, resolve_image_for_upgrade, restore_image, mark_degraded, rollback,
  roll_back_set, set_main_image, is_recorded, reconcile_upgrade, verify_rollout_health,
  is_upgrading, is_rolled_out, finish_rollout,
}
use chainplane.Controller.Upgrade.Rollout.{
  IsCurrent, HasStatus, Persisted, persist-Persisted, upgrade-Restarting,
}

-- The image of the first container that has the main name.
pub main_image : List Container → Option String
main_image [] = none
main_image (c ∷ cs) =
    let rest = main_image cs in if str_eq c.name main_container_name then some c.image else rest

main_image-set_main_image :
    (image : String) (cs : List Container)
    → main_image cs ≢ none
    → main_image (set_main_image image cs) ≡ some image
unfolding main_image
main_image-set_main_image image [] h = absurd (h refl)
main_image-set_main_image image (c ∷ cs) h = elim (Bool-cases (str_eq c.name main_container_name)) [
  | inl e ↦ ground arith
  | inr e ↦ let rest = main_image-set_main_image image cs (λ x. h (ground arith)) in ground arith
]

-- The set runs an image and records it as the last one.
pub record RolledBack (image : String) (before after : StatefulSet) : Type 0 where
  pub recorded : get after.annotations annotation_last_image ≡ image
  pub runs : main_image before.containers ≢ none → main_image after.containers ≡ some image

restore-RolledBack :
    (time : TimeFormat) (s : StatefulSet) (w w' : World)
    → restore_image time (get s.annotations annotation_previous_image) w ≡ (ok tt, w')
    → w.stateful_set ≡ some s
    → get s.annotations annotation_previous_image ≢ ""
    → (s' : StatefulSet) × (w'.stateful_set ≡ some s')
      × RolledBack (get s.annotations annotation_previous_image) s s'
      × (w'.node ≡ w.node)
      × (w'.stored ≡ w.stored)
unfolding restore_image patch_stateful_set
restore-RolledBack time s w w' h there named =
    let previous = get s.annotations annotation_previous_image in
    (
      roll_back_set previous (time.format (w.now / second)) s,
      ground (arith, eq_iff previous ""),
      record { recorded = refl; runs = main_image-set_main_image previous s.containers },
      ground (arith, eq_iff previous ""),
      ground (arith, eq_iff previous ""),
    )

degrade-ok :
    (w w' : World)
    → mark_degraded w ≡ (ok tt, w')
    → (w'.stateful_set ≡ w.stateful_set)
      × (w'.node.status.phase ≡ degraded)
      × (w'.node.status.conditions ≡ w.node.status.conditions)
      × ((spec : ChainInstanceSpec) → IsCurrent spec w → IsCurrent spec w')
unfolding mark_degraded patch_status
degrade-ok w w' h = (
  ground arith,
  ground arith,
  ground arith,
  λ spec i. record { stored = ground arith; spec_is = ground arith },
)

IsCurrent-same :
    (spec : ChainInstanceSpec) (w w' : World)
    → w'.node ≡ w.node
    → w'.stored ≡ w.stored
    → IsCurrent spec w
    → IsCurrent spec w'
IsCurrent-same spec w w' n s i = record { stored = ground arith; spec_is = ground arith }

-- rollback: if it succeeds, the caller's copy is the server's, and the StatefulSet is there and
-- records a previous image, then the set records that image as the last one, its main container,
-- if it has one, runs it, the condition Upgrading is false, and the phase is Degraded.
pub rollback-RolledBack :
    (time : TimeFormat) (s : StatefulSet) (w w' : World)
    → w.stored ≡ some w.node
    → w.stateful_set ≡ some s
    → get s.annotations annotation_previous_image ≢ ""
    → rollback time s w ≡ (ok tt, w')
    → (s' : StatefulSet) × (w'.stateful_set ≡ some s')
      × RolledBack (get s.annotations annotation_previous_image) s s'
      × HasStatus condition_upgrading status_false w'
      × (w'.node.status.phase ≡ degraded)
      × IsCurrent w.node.spec w'
unfolding rollback
rollback-RolledBack time s w w' cur there named h =
    let (_, v, e, h₁) =
      bind-ok (restore_image time (get s.annotations annotation_previous_image)) _ w h in
    let (_, u, e₁, h₂) =
      bind-ok
        (persist_condition condition_upgrading status_false "RollbackTriggered"
          "CrashLoopBackOff detected, rolled back to previous version")
        _ v h₁ in
    let (s', set, rolled, node, stored) = restore-RolledBack time s w v e there named in
    let p = persist-Persisted condition_upgrading status_false _ _ v u e₁ in
    let (c, found, is) = p.written in
    let (set', phase, conds, keep) = degrade-ok u w' h₂ in
    (
      s',
      set' ∙ p.set ∙ set,
      rolled,
      (c, rw conds found, is),
      phase,
      keep w.node.spec (
          p.current w.node.spec
            (IsCurrent-same w.node.spec w v node stored (record { stored = cur; spec_is = refl }))),
    )

resolve-spec :
    (n m : ChainInstance)
    → n.spec ≡ m.spec
    → resolve_image_for_upgrade n ≡ resolve_image_for_upgrade m
unfolding resolve_image_for_upgrade
resolve-spec n m e = rw e

not_recorded :
    (n : ChainInstance) (s : StatefulSet)
    → get s.annotations annotation_last_image ≢ resolve_image_for_upgrade n
    → is_recorded n s ≡ false
unfolding is_recorded
not_recorded n s ne =
    ground (arith, eq_iff (get s.annotations annotation_last_image) (resolve_image_for_upgrade n))

-- A rollback is undone by the next pass: if the caller's copy is the server's, the StatefulSet is
-- there and records a previous image other than the one that the resource asks for, a rollback
-- succeeds, and then a pass of reconcileUpgrade does, then the set records the image that the
-- resource asks for again, and the condition Upgrading is true.
pub rollback_restarts :
    (time : TimeFormat) (s : StatefulSet) (w v u : World)
    → w.stored ≡ some w.node
    → w.stateful_set ≡ some s
    → get s.annotations annotation_previous_image ≢ ""
    → get s.annotations annotation_previous_image ≢ resolve_image_for_upgrade w.node
    → rollback time s w ≡ (ok tt, v)
    → reconcile_upgrade time v ≡ (ok tt, u)
    → (s' : StatefulSet) × (u.stateful_set ≡ some s')
      × (get s'.annotations annotation_last_image ≡ resolve_image_for_upgrade w.node)
      × HasStatus condition_upgrading status_true u
rollback_restarts time s w v u cur there named other h k =
    let (s₁, set₁, rolled, _, _, current) = rollback-RolledBack time s w v cur there named h in
    let image = resolve-spec v.node w.node current.spec_is in
    let stale = not_recorded v.node s₁ (λ e. other (sym rolled.recorded ∙ e ∙ image)) in
    let (s₂, set₂, restarting, upgrading, _) =
      upgrade-Restarting time s₁ v u current.stored set₁ stale k in
    (s₂, set₂, restarting.image_is ∙ image, upgrading)

HasStatus-kept :
    (kind other : String) (status written : ConditionStatus) (w w' : World)
    → Persisted other written w w'
    → kind ≢ other
    → HasStatus kind status w
    → HasStatus kind status w'
HasStatus-kept kind other status written w w' p ne (c, found, is) =
    (c, p.others kind ne ∙ found, is)

-- verifyRolloutHealth: if it succeeds while the last upgrade is under way and every replica is
-- ready and of the new revision, then the condition Upgrading is false and Ready is true.
pub verify_complete :
    (time : TimeFormat) (s : StatefulSet) (w w' : World)
    → is_upgrading w.node ≡ true
    → is_rolled_out s ≡ true
    → verify_rollout_health time s w ≡ (ok tt, w')
    → HasStatus condition_upgrading status_false w' × HasStatus condition_ready status_true w'
unfolding verify_rollout_health finish_rollout
verify_complete time s w w' up out h =
    let done : finish_rollout w ≡ (ok tt, w') = ground arith in
    let (_, v, e, h₁) =
      bind-ok
        (persist_condition condition_upgrading status_false "RolloutComplete"
          "All replicas are ready after upgrade")
        _ w done in
    let p = persist-Persisted condition_upgrading status_false _ _ w v e in
    let q = persist-Persisted condition_ready status_true _ _ v w' h₁ in
    (
      HasStatus-kept condition_upgrading condition_ready status_false status_true v w' q
          (ground (arith, eq_iff condition_upgrading condition_ready)) p.written,
      q.written,
    )
