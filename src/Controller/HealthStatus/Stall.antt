-- ===== src/Controller/HealthStatus/Stall.antt =====
-- detectHeightStall: when it reports a stall.
use chainplane.Prelude.{
  ◌+◌, ◌*◌, ◌/◌, ◌≡◌, ◌≢◌, ◌≤◌, ◌↔◌, ap, subst, inl, inr, ℕ, String, none, some, arith, eq_iff, get,
  ltb, if◌then◌else◌, Option-cases,
}
use chainplane.Errors.{ok}
use chainplane.Api.{ChainInstanceSpec}
use chainplane.Time.{second}
use chainplane.Kube.{World, IsCalm, update_instance}
use chainplane.Controller.Conditions.{sync_stall_threshold}
use chainplane.Controller.HealthStatus.{
  Environment, annotation_last_sync_block, annotation_sync_stall_since, detect_height_stall,
  judge_stall, track, persist_annotations, stall_message,
}

-- The caller's copy says since when the given height has been frozen.
pub record IsFrozenSince (e : Environment) (block at : ℕ) (w : World) : Type 0 where
  pub height : get w.node.annotations annotation_last_sync_block ≡ e.show block
  pub since : e.time.parse (get w.node.annotations annotation_sync_stall_since) ≡ some at

-- A text that a time was written as is not empty.
stamp_named : (e : Environment) (s : ℕ) → e.time.format s ≢ ""
stamp_named e s h = absurd (ground (arith, e.time.parse-format s, e.time.parse-empty))

frozen-judged :
    (e : Environment) (block at : ℕ) (w : World)
    → IsFrozenSince e block at w
    → (detect_height_stall e block w).0 ≡ (
        if ltb w.now (at * second + sync_stall_threshold w.node.spec.chain)
        then ok none
        else ok (some (stall_message e w.node block)))
unfolding detect_height_stall judge_stall track
frozen-judged e block at w f =
    let since = f.since in
    let height = f.height in
    let empty = e.time.parse-empty in
    ground (
      arith,
      eq_iff (get w.node.annotations annotation_last_sync_block) (e.show block),
      eq_iff (get w.node.annotations annotation_sync_stall_since) "",
    )

-- detectHeightStall reports a stall exactly when the annotations say since when the reported
-- height has been frozen, and that is at least the chain's stall threshold ago.
pub stall_iff :
    (e : Environment) (block : ℕ) (w : World)
    → ((m : String) × ((detect_height_stall e block w).0 ≡ ok (some m))) ↔ (
        (at : ℕ) × IsFrozenSince e block at w
        × (at * second + sync_stall_threshold w.node.spec.chain ≤ w.now))
unfolding detect_height_stall judge_stall track
stall_iff e block w = (
  λ (m, h).
      elim (Option-cases (e.time.parse (get w.node.annotations annotation_sync_stall_since))) [
        | inl none_is ↦ absurd (ground arith)
        | inr (at, some_is) ↦ (
          at,
          record {
            height =
                ground (
                  arith,
                  eq_iff (get w.node.annotations annotation_last_sync_block) (e.show block),
                );
            since = some_is;
          },
          ground arith,
        )
      ],
  λ (at, f, late). (stall_message e w.node block, ground (arith, frozen-judged e block at w f)),
)

-- The state in which the next reconcile sees the node, after some time.
abbrev pub later : ℕ → World → World
later t w = record w { now = t }

-- The first observation of a height, by a caller whose calls do not fail.
abbrev pub observed : Environment → ℕ → World → World
observed e block w = (detect_height_stall e block w).1

-- The height is the last one recorded, and it has not been seen frozen.
record IsSeen (e : Environment) (block : ℕ) (spec : ChainInstanceSpec) (w : World) : Type 0 where
  height : get w.node.annotations annotation_last_sync_block ≡ e.show block
  fresh : get w.node.annotations annotation_sync_stall_since ≡ ""
  calm : IsCalm w
  stored : w.stored ≡ some w.node
  spec_is : w.node.spec ≡ spec

advanced-IsSeen :
    (e : Environment) (block : ℕ) (w : World)
    → IsCalm w
    → w.stored ≡ some w.node
    → get w.node.annotations annotation_last_sync_block ≢ e.show block
    → IsSeen e block w.node.spec (observed e block w)
unfolding detect_height_stall track persist_annotations update_instance
advanced-IsSeen e block w calm current new = record {
  height = ground (
    arith,
    calm w.calls,
    eq_iff (get w.node.annotations annotation_last_sync_block) (e.show block),
  );
  fresh = ground (
    arith,
    calm w.calls,
    eq_iff (get w.node.annotations annotation_last_sync_block) (e.show block),
  );
  calm = λ k. ground (
    arith,
    calm k,
    calm w.calls,
    eq_iff (get w.node.annotations annotation_last_sync_block) (e.show block),
  );
  stored = ground (
    arith,
    calm w.calls,
    eq_iff (get w.node.annotations annotation_last_sync_block) (e.show block),
  );
  spec_is = ground (
    arith,
    calm w.calls,
    eq_iff (get w.node.annotations annotation_last_sync_block) (e.show block),
  );
}

frozen-IsFrozenSince :
    (e : Environment) (block : ℕ) (spec : ChainInstanceSpec) (w : World)
    → IsSeen e block spec w
    → IsFrozenSince e block (w.now / second) (observed e block w)
      × ((observed e block w).node.spec ≡ spec)
unfolding detect_height_stall track persist_annotations update_instance
frozen-IsFrozenSince e block spec w s =
    let height = s.height in
    let fresh = s.fresh in
    let stored = s.stored in
    let spec_is = s.spec_is in
    let parsed = e.time.parse-format (w.now / second) in
    let calm = s.calm w.calls in
    let same = eq_iff (get w.node.annotations annotation_last_sync_block) (e.show block) in
    let empty = eq_iff (get w.node.annotations annotation_sync_stall_since) "" in
    (
      record {
        height = ground (arith, calm, same, empty);
        since = ground (arith, calm, same, empty);
      },
      ground (arith, calm, same, empty),
    )

-- Three observations of one height by a caller whose copy is the server's and whose calls do not
-- fail, of which the first sees the height advance: at the last one detectHeightStall reports a
-- stall if and only if the chain's stall threshold has passed since the second one, whose time
-- counts in whole seconds.
pub stall_watch :
    (e : Environment) (block t₁ t₂ : ℕ) (w : World)
    → IsCalm w
    → w.stored ≡ some w.node
    → get w.node.annotations annotation_last_sync_block ≢ e.show block
    → let v = observed e block w in
      let u = observed e block (later t₁ v) in
      (detect_height_stall e block (later t₂ u)).0 ≡ (
        if ltb t₂ (t₁ / second * second + sync_stall_threshold w.node.spec.chain)
        then ok none
        else ok (some (stall_message e (later t₂ u).node block)))
stall_watch e block t₁ t₂ w calm current new =
    let seen = advanced-IsSeen e block w calm current new in
    let v = later t₁ (observed e block w) in
    let (frozen, spec_is) = frozen-IsFrozenSince e block w.node.spec v (record {
      height = seen.height;
      fresh = seen.fresh;
      calm = seen.calm;
      stored = seen.stored;
      spec_is = seen.spec_is;
    }) in
    let u = later t₂ (observed e block v) in
    let chain_is = ap (λ (s : ChainInstanceSpec). s.chain) spec_is in
    subst
      (λ c. (detect_height_stall e block u).0 ≡ (
        if ltb t₂ (t₁ / second * second + sync_stall_threshold c)
        then ok none
        else ok (some (stall_message e u.node block))))
      chain_is
      (frozen-judged e block (t₁ / second) u
        (record { height = frozen.height; since = frozen.since }))
