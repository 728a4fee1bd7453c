-- ===== src/Health/Traffic/Drained.antt =====
-- A drain that succeeds has taken the pod out of service and given its connections their time.
use chainplane.Prelude.{
  ℕ, zero, suc, ◌+◌, ◌-◌, ◌*◌, ◌≡◌, ◌≤◌, ◌⊎◌, refl, ap, ◌∙◌, inl, inr, String, Option, none, some,
  min, arith, eq_refl, get, leb, Map, Bool-cases, Option-cases,
}
use chainplane.Errors.{Error, ok, err}
use chainplane.Time.{second}
use chainplane.Kube.{World, Pod, get_pod, patch_pod_label, wait}
use chainplane.Kube.Inversion.{run_cases, bind-ok}
use chainplane.Health.Replacement.{label_ready}
use chainplane.Health.Traffic.{
  drain_log_interval, drain_duration, rounds, set_pod_label, log_drain_status, wait_until,
  wait_with_progress, drain_marked, drain,
}
use chainplane.Health.Traffic.Switch.{IsOut}
use chainplane.Health.Traffic.Progress.{wait_with_progress-Ended}

wait_all_pods : (d : ℕ) (w : World) → (wait d w).1.pods ≡ w.pods
unfolding wait
wait_all_pods d w = ground arith

wait_until_pods : (fuel deadline : ℕ) (w : World) → (wait_until fuel deadline w).1.pods ≡ w.pods
unfolding wait_until
wait_until_pods zero deadline w = refl
wait_until_pods (suc fuel) deadline w = elim (Bool-cases (leb deadline w.now)) [
  | inl e ↦ rw e refl
  | inr e ↦
      let d = min drain_log_interval (deadline - w.now) in
      let kept = wait_all_pods d w in
      rw e (elim (run_cases (wait d) w) [
        | inl (_, v, ran) ↦ rw ran (wait_until_pods fuel deadline v ∙ rw ran at kept)
        | inr (x, v, ran) ↦ rw ran (rw ran at kept)
      ])
]

log_keeps :
    (pod : String) (w : World)
    → ((log_drain_status pod w).1.pods ≡ w.pods) × ((log_drain_status pod w).1.now ≡ w.now)
unfolding log_drain_status get_pod
log_keeps pod w = ground arith

-- The label is set, or the pod was not there.
labelled :
    (pod : String) (w v : World)
    → set_pod_label pod label_ready "false" w ≡ (ok tt, v)
    → ((p : Pod) × (v.pods pod ≡ some p) × (get p.labels label_ready ≡ "false")) × (v.now ≡ w.now)
unfolding set_pod_label get_pod patch_pod_label
labelled pod w v h = elim (Option-cases (v.pods pod)) [
  | inl e ↦ absurd (ground (arith, eq_refl pod))
  | inr (p, e) ↦ ((p, e, ground (arith, eq_refl pod)), ground arith)
]

waited_pods : (d : ℕ) (w : World) → (wait_with_progress d w).1.pods ≡ w.pods
unfolding wait_with_progress
waited_pods d w = wait_until_pods (rounds d) (w.now + d) w

-- The part of Drain behind the label.
marked-waits :
    (deadline : Option ℕ) (pod : String) (v w' : World)
    → drain_marked deadline pod (ok tt) v ≡ (ok tt, w')
    → (w'.pods ≡ v.pods) × (v.now + drain_duration deadline v.now ≤ w'.now)
unfolding drain_marked
marked-waits deadline pod v w' h =
    let (_, u, e₁, h₁) = bind-ok (log_drain_status pod) _ v h in
    let (pods, now) = log_keeps pod v in
    let d = drain_duration deadline u.now in
    let run : wait_with_progress d u ≡ (ok tt, w') = ground arith in
    let ended = wait_with_progress-Ended d u in
    let kept = waited_pods d u in (ground arith, ground arith)

gone :
    (deadline : Option ℕ) (pod : String) (x : Error) (w v w' : World)
    → set_pod_label pod label_ready "false" w ≡ (err x, v)
    → drain_marked deadline pod (err x) v ≡ (ok tt, w')
    → w'.pods pod ≡ none
unfolding drain_marked set_pod_label get_pod patch_pod_label
gone deadline pod x w v w' e h = elim (Option-cases (w'.pods pod)) [
  | inl is_none ↦ is_none
  | inr (p, is_some) ↦ absurd (ground arith)
]

-- The time that a drain gives to connections, of a context with a deadline or without one.
abbrev pub connection_time : Option ℕ → ℕ → ℕ
connection_time none now = 30 * second
connection_time (some deadline) now = min (30 * second) (deadline - now)

drain_duration-connection_time :
    (deadline : Option ℕ) (now : ℕ) → drain_duration deadline now ≡ connection_time deadline now
drain_duration-connection_time none now = refl
drain_duration-connection_time (some deadline) now = ground arith

-- If Drain succeeds, the pod is gone, or it is labelled not ready and the time for its connections
-- has passed: 30 seconds, or what was left of the deadline, if there is one and that is less.
pub drain-Drained :
    (deadline : Option ℕ) (pod : String) (w w' : World)
    → drain deadline pod w ≡ (ok tt, w')
    → (w'.pods pod ≡ none) ⊎ (IsOut pod w' × (w.now + connection_time deadline w.now ≤ w'.now))
unfolding drain
drain-Drained deadline pod w w' h = elim (run_cases (set_pod_label pod label_ready "false") w) [
  | inl (_, v, e) ↦
      let ((p, there, out), now) = labelled pod w v e in
      let marked : drain_marked deadline pod (ok tt) v ≡ (ok tt, w') = ground arith in
      let (pods, late) = marked-waits deadline pod v w' marked in
      let same = drain_duration-connection_time deadline w.now in
      inr (inr (p, ap (λ (m : Map Pod). m pod) pods ∙ there, out), rw same at (rw now at late))
  | inr (x, v, e) ↦ inl (gone deadline pod x w v w' e (ground arith))
]
