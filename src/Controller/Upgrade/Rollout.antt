-- ===== src/Controller/Upgrade/Rollout.antt =====
-- What a pass of the upgrade reconciler that succeeds has written.
use chainplane.Prelude.{
  ℕ, ◌/◌, ◌≡◌, ◌≢◌, refl, sym, ap, suc, ◌∙◌, inl, inr, String, false, some, List, arith, eq_iff,
  get, Option-cases, Bool-cases,
}
use chainplane.Errors.{ok}
use chainplane.Api.{ChainInstance, ChainInstanceSpec, Condition, ConditionStatus, status_true}
use chainplane.Time.{second, TimeFormat}
use chainplane.Kube.{World, StatefulSet, patch_status, patch_stateful_set, get_stateful_set}
use chainplane.Kube.Inversion.{bind-ok}
use chainplane.Controller.Conditions.{find_condition, new_condition, upsert, same_status}
use chainplane.Controller.Conditions.Laws.{
  find_condition-upsert, find_condition-upsert_other, same_status-eq,
}
use chainplane.Controller.Upgrade.{
  annotation_last_image, annotation_last_client, annotation_previous_image, annotation_restarted_at,
  condition_upgrading, rewritten, persist_condition, resolve_image_for_upgrade,
  start_rolling_restart, restore_image, mark_degraded, rollback, roll_back_set, mark_upgrade,
  set_main_image, is_recorded, upgrade_set, upgrade_fetched, reconcile_upgrade, main_container_name,
}

-- The caller's copy is what the server has, and the server's specification is the given one.
pub record IsCurrent (spec : ChainInstanceSpec) (w : World) : Type 0 where
  pub stored : w.stored ≡ some w.node
  pub spec_is : w.node.spec ≡ spec

-- The caller's copy has a condition of the kind with the status.
abbrev pub HasStatus : String → ConditionStatus → World → Type 0
HasStatus kind status w =
    (c : Condition) × (find_condition w.node.status.conditions kind ≡ some c) × (c.status ≡ status)

-- What a write of a condition leaves behind.
pub record Persisted (kind : String) (status : ConditionStatus) (w w' : World) : Type 0 where
  pub set : w'.stateful_set ≡ w.stateful_set
  pub time : w'.now ≡ w.now
  pub written : HasStatus kind status w'
  pub others :
      (other : String)
      → other ≢ kind
      → find_condition w'.node.status.conditions other
        ≡ find_condition w.node.status.conditions other
  pub current : (spec : ChainInstanceSpec) → IsCurrent spec w → IsCurrent spec w'

rewritten-kind : (new c : Condition) → new.kind ≡ c.kind → (rewritten new c).kind ≡ c.kind
unfolding rewritten
rewritten-kind new c h = ground arith

rewritten-status : (new c : Condition) → (rewritten new c).status ≡ new.status
unfolding rewritten
rewritten-status new c = elim (Bool-cases (same_status c.status new.status)) [
  | inl h ↦ let same = same_status-eq c.status new.status h in ground arith
  | inr h ↦ ground arith
]

upsert-status :
    (kind : String) (new : Condition) (cs : List Condition)
    → new.kind ≡ kind
    → (c : Condition) × (find_condition (upsert kind (rewritten new) new cs) kind ≡ some c)
      × (c.status ≡ new.status)
upsert-status kind new cs k =
    let found =
      find_condition-upsert kind (rewritten new) new k (λ c e. rewritten-kind new c (k ∙ sym e) ∙ e)
        cs in
    elim (Option-cases (find_condition cs kind)) [
      | inl e ↦ (new, rw e at found, refl)
      | inr (c, e) ↦ (rewritten new c, rw e at found, rewritten-status new c)
    ]

pub persist-Persisted :
    (kind : String) (status : ConditionStatus) (reason message : String) (w w' : World)
    → persist_condition kind status reason message w ≡ (ok tt, w')
    → Persisted kind status w w'
unfolding persist_condition patch_status
persist-Persisted kind status reason message w w' h =
    let new = new_condition w.node.generation kind status reason message w.now in
    let (c, found, is) = upsert-status kind new w.node.status.conditions refl in
    record {
      set = ground arith;
      time = ground arith;
      written = (c, ground arith, is);
      others = λ other ne.
          let kept =
            find_condition-upsert_other kind (rewritten new) new refl
              (λ x e. rewritten-kind new x (sym e) ∙ e) w.node.status.conditions other ne in
          ground arith;
      current = λ spec i. record { stored = ground arith; spec_is = ground arith };
    }

-- The set asks for an image and a client, and was told at a time to restart its pods.
pub record Restarting (image client stamp : String) (before after : StatefulSet) : Type 0 where
  pub image_is : get after.annotations annotation_last_image ≡ image
  pub client_is : get after.annotations annotation_last_client ≡ client
  pub previous_is :
      get before.annotations annotation_last_image ≢ ""
      → get after.annotations annotation_previous_image
        ≡ get before.annotations annotation_last_image
  pub stamped : get after.template_annotations annotation_restarted_at ≡ stamp
  pub same_containers : after.containers ≡ before.containers

patch_set-ok :
    (change : StatefulSet → StatefulSet) (s : StatefulSet) (w w' : World)
    → patch_stateful_set change w ≡ (ok tt, w')
    → w.stateful_set ≡ some s
    → (w'.stateful_set ≡ some (change s)) × (w'.node ≡ w.node) × (w'.stored ≡ w.stored)
unfolding patch_stateful_set
patch_set-ok change s w w' h e = ground arith

marked-Restarting :
    (image client stamp stamp' : String) (s : StatefulSet)
    → stamp ≡ stamp'
    → Restarting image client stamp' s (record s {
      annotations =
          mark_upgrade image client (get s.annotations annotation_last_image) s.annotations;
      template_annotations =
          chainplane.Controller.Upgrade.mark_restart stamp s.template_annotations;
    })
marked-Restarting image client stamp stamp' s e = record {
  image_is = refl;
  client_is = refl;
  previous_is = λ ne. ground (arith, eq_iff (get s.annotations annotation_last_image) "");
  stamped = e;
  same_containers = refl;
}

restart-Restarting :
    (time : TimeFormat) (image client : String) (s : StatefulSet) (spec : ChainInstanceSpec)
    (w w' : World)
    → start_rolling_restart time image client (get s.annotations annotation_last_image) w
      ≡ (ok tt, w')
    → w.stateful_set ≡ some s
    → IsCurrent spec w
    → (s' : StatefulSet) × (w'.stateful_set ≡ some s')
      × Restarting image client (time.format (w.now / second)) s s'
      × HasStatus condition_upgrading status_true w'
      × IsCurrent spec w'
unfolding start_rolling_restart
restart-Restarting time image client s spec w w' h there cur =
    let (_, v, e, h₁) =
      bind-ok
        (persist_condition condition_upgrading status_true "RollingRestart"
          "Image or client changed, rolling restart in progress")
        _ w h in
    let p = persist-Persisted condition_upgrading status_true _ _ w v e in
    let (set, same, kept) = patch_set-ok _ s v w' h₁ (p.set ∙ there) in
    let c = p.current spec cur in
    (
      _,
      set,
      marked-Restarting image client _ _ s (ap (λ (t : ℕ). time.format (t / second)) p.time),
      rw same p.written,
      record {
        stored = kept ∙ c.stored ∙ ap some (sym same);
        spec_is = ap (λ (n : ChainInstance). n.spec) same ∙ c.spec_is;
      },
    )

-- reconcileUpgrade: if the caller's copy is the server's, the StatefulSet is there and records
-- another image or client than the resource asks for, and the pass succeeds, then the set
-- records the image and the client that the resource asks for, keeps the image that it recorded
-- before, if any, as the previous one, is told to restart its pods now, keeps its containers,
-- and the condition Upgrading is true.
pub upgrade-Restarting :
    (time : TimeFormat) (s : StatefulSet) (w w' : World)
    → w.stored ≡ some w.node
    → w.stateful_set ≡ some s
    → is_recorded w.node s ≡ false
    → reconcile_upgrade time w ≡ (ok tt, w')
    → (s' : StatefulSet) × (w'.stateful_set ≡ some s')
      × Restarting
          (resolve_image_for_upgrade w.node)
          w.node.spec.client
          (time.format (w.now / second))
          s
          s'
      × HasStatus condition_upgrading status_true w'
      × IsCurrent w.node.spec w'
unfolding reconcile_upgrade upgrade_fetched upgrade_set get_stateful_set
upgrade-Restarting time s w w' cur there new h =
    restart-Restarting time (resolve_image_for_upgrade w.node) w.node.spec.client s w.node.spec
      (record w { calls = suc w.calls }) w' (ground arith) there
      (record { stored = cur; spec_is = refl })
