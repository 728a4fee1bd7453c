-- ===== src/Controller/HealthStatus/Restart.antt =====
-- restartIfDegradedTooLong: when it deletes the pod, and that it deletes no other.
use Prim.Native.String.{◌++◌}
use chainplane.Prelude.{
  ◌-◌, if◌then◌else◌, ltb, ◌+◌, ◌*◌, ◌/◌, ◌%◌, ◌^◌, ◌⊎◌, ◌≡◌, ◌≢◌, ◌≤◌, ◌↔◌, sym, ◌∙◌, inl, inr, ℕ,
  suc, String, none, some, arith, eq_iff, eq_refl, Option-cases,
}
use chainplane.Time.{second, minute}
use chainplane.Adapters.Int64.{signed, sign_extend}
use chainplane.Api.{ChainInstance}
use chainplane.Kube.{World, Pod, IsCalm, update_instance, get_pod, delete_pod}
use chainplane.Controller.HealthStatus.{
  Environment, annotation_degraded_since, degraded_timeout, restart_delay, note_degraded,
  restart_pod, restart_fetched, restart_tracked, restart_if_degraded_too_long, persist_annotations,
}

-- The node has been tracked as degraded for at least its timeout.
pub record IsOverdue (e : Environment) (w : World) : Type 0 where
  pub enabled : degraded_timeout w.node ≢ 0
  pub since : String
  pub tracked : w.node.annotations annotation_degraded_since ≡ some since
  pub at : ℕ
  pub read : e.time.parse since ≡ some at
  pub late : at * second + signed (restart_delay w.node) ≤ w.now + 2 ^ 63

-- Whatever calls fail: restartIfDegradedTooLong takes away no pod but the first one of the node.
pub restart_others :
    (e : Environment) (w : World) (j : String)
    → j ≢ w.node.name ++ "-0"
    → (restart_if_degraded_too_long e w).1.pods j ≡ w.pods j
unfolding restart_if_degraded_too_long restart_tracked restart_fetched restart_pod note_degraded
    persist_annotations update_instance get_pod delete_pod
restart_others e w j ne = ground (arith, eq_iff j (w.node.name ++ "-0"))

module _ (e : Environment) (w : World) (p : Pod)
    (there : w.pods (w.node.name ++ "-0") ≡ some p) where
  IsOverdue-gone :
      IsOverdue e w
      → IsCalm w
      → (restart_if_degraded_too_long e w).1.pods (w.node.name ++ "-0") ≡ none
  unfolding restart_if_degraded_too_long restart_tracked restart_fetched restart_pod
      persist_annotations update_instance get_pod delete_pod
  IsOverdue-gone o calm =
      ground (arith, o.enabled, calm w.calls, calm (suc w.calls), eq_refl (w.node.name ++ "-0"))

  gone-IsOverdue :
      (restart_if_degraded_too_long e w).1.pods (w.node.name ++ "-0") ≡ none → IsOverdue e w
  unfolding restart_if_degraded_too_long restart_tracked restart_fetched restart_pod note_degraded
      persist_annotations update_instance get_pod delete_pod
  gone-IsOverdue h = elim (Option-cases (w.node.annotations annotation_degraded_since)) [
    | inl none_is ↦ absurd (ground arith)
    | inr (since, some_is) ↦ elim (Option-cases (e.time.parse since)) [
      | inl unread ↦ absurd (ground arith)
      | inr (at, read) ↦ record {
        enabled = λ x. ground arith;
        since = since;
        tracked = some_is;
        at = at;
        read = read;
        late = ground arith;
      }
    ]
  ]

-- If no call fails and the node's first pod is there: restartIfDegradedTooLong deletes it exactly
-- when the restart is enabled and the node has been tracked as degraded for at least its timeout.
pub restart-gone_iff :
    (e : Environment) (w : World) (p : Pod)
    → IsCalm w
    → w.pods (w.node.name ++ "-0") ≡ some p
    → ((restart_if_degraded_too_long e w).1.pods (w.node.name ++ "-0") ≡ none) ↔ IsOverdue e w
restart-gone_iff e w p calm there =
    (gone-IsOverdue e w p there, λ o. IsOverdue-gone e w p there o calm)

-- A node whose tracking has begun at a time.
record IsTracked (e : Environment) (start : ℕ) (w w' : World) : Type 0 where
  since : w'.node.annotations annotation_degraded_since ≡ some (e.time.format (start / second))
  timeout : degraded_timeout w'.node ≡ degraded_timeout w.node
  delay : restart_delay w'.node ≡ restart_delay w.node
  name_is : w'.node.name ≡ w.node.name
  pods : w'.pods ≡ w.pods
  calm : IsCalm w'

note-IsTracked :
    (e : Environment) (w : World)
    → IsCalm w
    → w.stored ≡ some w.node
    → degraded_timeout w.node ≢ 0
    → w.node.annotations annotation_degraded_since ≡ none
    → IsTracked e w.now w (restart_if_degraded_too_long e w).1
unfolding restart_if_degraded_too_long note_degraded persist_annotations update_instance
    restart_delay
note-IsTracked e w calm current enabled untracked = record {
  since = ground (arith, calm w.calls, enabled);
  timeout = ground (arith, calm w.calls, enabled);
  delay = ground (arith, calm w.calls, enabled);
  name_is = ground (arith, calm w.calls, enabled);
  pods = ground (arith, calm w.calls, enabled);
  calm = λ k. ground (arith, calm k, calm w.calls, enabled);
}

tracked-IsOverdue_iff :
    (e : Environment) (start t : ℕ) (w v : World)
    → IsTracked e start w v
    → degraded_timeout w.node ≢ 0
    → IsOverdue e (record v { now = t })
      ↔ (start / second * second + signed (restart_delay w.node) ≤ t + 2 ^ 63)
tracked-IsOverdue_iff e start t w v i enabled =
    let parsed = e.time.parse-format (start / second) in
    let since = i.since in
    let timeout = i.timeout in
    let delay = i.delay in
    (
      λ o. let tracked = o.tracked in let read = o.read in let late = o.late in ground arith,
      λ h. record {
        enabled = λ x. enabled (sym timeout ∙ x);
        since = e.time.format (start / second);
        tracked = since;
        at = start / second;
        read = parsed;
        late = ground arith;
      },
    )

-- The timeout of the node, an int32 by its bit pattern: the one in its resource, or 15 minutes.
abbrev pub HasTimeout : ChainInstance → ℕ → Type 0
HasTimeout node minutes =
    (node.spec.health.degraded_timeout_minutes ≡ some minutes)
    ⊎ ((node.spec.health.degraded_timeout_minutes ≡ none) × (minutes ≡ 15))

HasTimeout-degraded_timeout :
    (node : ChainInstance) (minutes : ℕ) → HasTimeout node minutes → degraded_timeout node ≡ minutes
HasTimeout-degraded_timeout node minutes (inl h) = ground arith
HasTimeout-degraded_timeout node minutes (inr (h, e)) = ground arith

-- An int32 times a minute as an int64, which wraps around, with 2 ^ 63 added.
abbrev pub shifted_delay : ℕ → ℕ
shifted_delay minutes =
    ((if ltb minutes (2 ^ 31) then minutes else minutes + (2 ^ 64 - 2 ^ 32)) * (60 * second)
      + 2 ^ 63)
    % 2 ^ 64

-- Up to 153722867 minutes, the product is exact.
shifted_delay_exact :
    (minutes : ℕ) → minutes ≤ 153722867 → shifted_delay minutes ≡ minutes * (60 * second) + 2 ^ 63
shifted_delay_exact minutes h = ground arith

restart_delay-shifted_delay :
    (node : ChainInstance) (minutes : ℕ)
    → degraded_timeout node ≡ minutes
    → signed (restart_delay node) ≡ shifted_delay minutes
unfolding restart_delay
restart_delay-shifted_delay node minutes h = rw h (wrapped (sign_extend minutes * minute))
  where
    wrapped : (x : ℕ) → (x % 2 ^ 64 + 2 ^ 63) % 2 ^ 64 ≡ (x + 2 ^ 63) % 2 ^ 64
    wrapped x = omega arith

-- Two passes over a degraded node, by a caller whose copy is the server's and whose calls do not
-- fail, where the timeout is not 0, the node is not tracked yet and its first pod is there: the
-- second pass deletes that pod if and only if the time from the first, whose time counts in whole
-- seconds, to the second is no less than the timeout, an int32, times a minute, as an int64: the
-- product wraps around, and a negative one is no delay at all.
pub degraded_watch :
    (e : Environment) (t minutes : ℕ) (w : World) (p : Pod)
    → IsCalm w
    → w.stored ≡ some w.node
    → HasTimeout w.node minutes
    → minutes ≢ 0
    → w.node.annotations annotation_degraded_since ≡ none
    → w.pods (w.node.name ++ "-0") ≡ some p
    → let v = record (restart_if_degraded_too_long e w).1 { now = t } in
      ((restart_if_degraded_too_long e v).1.pods (w.node.name ++ "-0") ≡ none)
      ↔ (w.now / second * second + shifted_delay minutes ≤ t + 2 ^ 63)
degraded_watch e t minutes w p calm current has nonzero untracked there =
    let v = record (restart_if_degraded_too_long e w).1 { now = t } in
    let timeout = HasTimeout-degraded_timeout w.node minutes has in
    let delay = restart_delay-shifted_delay w.node minutes timeout in
    let enabled : degraded_timeout w.node ≢ 0 = λ x. nonzero (sym timeout ∙ x) in
    let i = note-IsTracked e w calm current enabled untracked in
    let (to, from) =
      tracked-IsOverdue_iff e w.now t w (restart_if_degraded_too_long e w).1 i enabled in
    let present : v.pods (v.node.name ++ "-0") ≡ some p = rw (i.name_is, i.pods) there in
    let (gone, overdue) = restart-gone_iff e v p i.calm present in
    let same : v.node.name ++ "-0" ≡ w.node.name ++ "-0" = rw i.name_is in
    (λ h. rw delay at (to (gone (rw same h))), λ h. rw (sym same) (overdue (from (rw delay h))))
