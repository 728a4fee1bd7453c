-- ===== src/Health/Replacement/Monitor.antt =====
-- MonitorReplacement: when it reports the replacement pod ready, and when it gives up.
use chainplane.Prelude.{
  ap, ◌∙◌, if◌then◌else◌, ◌≡◌, ◌≢◌, ◌↔◌, refl, ◌⊎◌, inl, inr, Bool, true, false, none, some, arith,
  eq_iff, Option-cases, Bool-cases, List-cases, All, List, [], ◌∷◌, ℕ, ◌+◌, ◌*◌, ◌<◌, str_eq,
}
use chainplane.Errors.{Error, Result, ok, err, replacement_timeout}
use chainplane.Time.{second}
use chainplane.Kube.{World, Pod, ContainerStatus, get_pod}
use chainplane.Health.Chain.{chain_to_blockchain_type}
use chainplane.Health.Trigger.{is_healthy}
use chainplane.Health.Replacement.Defs.{
  ReplacementManager, verifying, annotation_phase, annotation_pod, annotation_started_at,
  node_annotation,
}
use chainplane.Health.Replacement.Helpers.{all_ready, containers_ready}
use chainplane.Health.Replacement.Annotations.{Unchanged}
use chainplane.Health.Replacement.Workflow.{
  sync_timed_out, verify_pod, fetch_and_verify, verify_fetched, monitor_replacement,
}

-- The pod has containers, and every one of them is ready.
abbrev pub IsReady : Pod → Type 0
IsReady pod =
    (pod.container_statuses ≢ [])
    × All (λ (c : ContainerStatus). c.ready ≡ true) pod.container_statuses

-- The time of the start is there, and more than the timeout has passed since.
abbrev pub IsTimedOut : ReplacementManager → World → Type 0
IsTimedOut r w =
    (started : ℕ) × (r.time.parse (node_annotation w.node annotation_started_at) ≡ some started)
    × (started * second + r.cfg.sync_timeout < w.now)

all_ready-All_iff :
    (cs : List ContainerStatus)
    → (all_ready cs ≡ true) ↔ All (λ (c : ContainerStatus). c.ready ≡ true) cs
all_ready-All_iff [] = (λ h. tt, λ h. refl)
all_ready-All_iff (c ∷ cs) =
    let rest = all_ready-All_iff cs in
    elim (Bool-cases c.ready) [
      | inl e ↦ (λ h. (e, rest.0 (rw e at h)), λ (_, all). rw e (rest.1 all))
      | inr e ↦ (λ h. absurd (ground arith), λ (x, _). absurd (ground arith))
    ]

containers_ready-IsReady_iff : (pod : Pod) → (containers_ready pod ≡ true) ↔ IsReady pod
unfolding containers_ready
containers_ready-IsReady_iff pod = elim (List-cases pod.container_statuses) [
  | inl e ↦ (λ h. absurd (ground arith), λ (some_is, _). absurd (some_is e))
  | inr (c, cs, e) ↦
      let every = all_ready-All_iff pod.container_statuses in
      (
        λ h. ((λ x. absurd (ground arith)), every.0 (ground arith)),
        λ (_, all). let h = every.1 all in ground arith,
      )
]

sync_timed_out-IsTimedOut_iff :
    (r : ReplacementManager) (w : World) → (sync_timed_out r w.node w.now ≡ true) ↔ IsTimedOut r w
unfolding sync_timed_out
sync_timed_out-IsTimedOut_iff r w =
    let ts = node_annotation w.node annotation_started_at in
    let empty = r.time.parse-empty in
    elim (Bool-cases (str_eq ts "")) [
      | inl e ↦
          let none_is : ts ≡ "" = ground (arith, eq_iff ts "") in
          (
            λ h. absurd (ground arith),
            λ (started, read, late). absurd (let x = rw none_is at read in ground arith),
          )
      | inr e ↦ elim (Option-cases (r.time.parse ts)) [
        | inl unread ↦ (λ h. absurd (ground arith), λ (started, read, late). absurd (ground arith))
        | inr (at, read) ↦ (λ h. (at, read, ground arith), λ (started, other, late). ground arith)
      ]
    ]

-- The replacement pod runs, is ready, and no trigger fires on it.
pub record IsWell (r : ReplacementManager) (w : World) : Type 0 where
  pub pod : Pod
  pub is_there : w.pods (node_annotation w.node annotation_pod) ≡ some pod
  pub runs : pod.phase ≡ "Running"
  pub is_ready : IsReady pod
  pub no_trigger :
      is_healthy (
        r.check_all w.now
          (node_annotation w.node annotation_pod)
          (chain_to_blockchain_type w.node.spec.chain))
      ≡ true

-- The annotations say that the workflow waits for a replacement pod.
pub record IsVerifying (w : World) : Type 0 where
  pub phase : node_annotation w.node annotation_phase ≡ verifying
  pub named : node_annotation w.node annotation_pod ≢ ""

-- The checks of the monitor, in the order of the code, for a pod that was fetched.
monitor_passed :
    (r : ReplacementManager) (w : World) (answer : Result Bool)
    → (answer ≡ ok true) ⊎ (answer ≡ err replacement_timeout)
    → (monitor_replacement r w).0 ≡ answer
    → IsVerifying w × IsWell r w × (w.fault w.calls ≡ none)
unfolding monitor_replacement fetch_and_verify verify_fetched verify_pod get_pod
monitor_passed r w answer kind h =
    elim (Option-cases (w.pods (node_annotation w.node annotation_pod))) [
      | inl e ↦ absurd (ground arith)
      | inr (p, e) ↦ (
        record {
          phase = ground (arith, eq_iff (node_annotation w.node annotation_phase) verifying);
          named = λ x. ground (arith, eq_iff (node_annotation w.node annotation_pod) "");
        },
        record {
          pod = p;
          is_there = e;
          runs = ground (arith, eq_iff p.phase "Running");
          is_ready = (containers_ready-IsReady_iff p).0 (ground arith);
          no_trigger = ground arith;
        },
        ground arith,
      )
    ]

-- What the monitor answers for a pod that passes every check.
monitor_answer :
    (r : ReplacementManager) (w : World)
    → IsVerifying w
    → IsWell r w
    → w.fault w.calls ≡ none
    → (monitor_replacement r w).0
      ≡ (if sync_timed_out r w.node w.now then err replacement_timeout else ok true)
unfolding monitor_replacement fetch_and_verify verify_fetched verify_pod get_pod
monitor_answer r w v p h = ground (
  arith,
  (containers_ready-IsReady_iff p.pod).1 p.is_ready,
  eq_iff (node_annotation w.node annotation_phase) verifying,
  eq_iff (node_annotation w.node annotation_pod) "",
  eq_iff p.pod.phase "Running",
)

-- The monitor reports the replacement pod ready exactly when the workflow is verifying a named pod,
-- the fetch does not fail, the pod runs with every container ready and no trigger firing, and the
-- time for it has not run out.
pub monitor_ready_iff :
    (r : ReplacementManager) (w : World)
    → ((monitor_replacement r w).0 ≡ ok true)
      ↔ (IsVerifying w × IsWell r w × (w.fault w.calls ≡ none) × (¬ IsTimedOut r w))
monitor_ready_iff r w =
    let late = sync_timed_out-IsTimedOut_iff r w in
    (
      λ h.
          let (v, p, f) = monitor_passed r w (ok true) (inl refl) h in
          (v, p, f, λ x. absurd (let y = late.1 x in ground (arith, monitor_answer r w v p f))),
      λ (v, p, f, t). elim (Bool-cases (sync_timed_out r w.node w.now)) [
        | inl e ↦ absurd (t (late.0 e))
        | inr e ↦ ground (arith, monitor_answer r w v p f)
      ],
    )

-- The monitor gives up with ErrReplacementTimeout exactly when the workflow is verifying a named
-- pod, the fetch does not fail, the pod passes every health check, and the time for it has run out.
pub monitor-timeout_iff :
    (r : ReplacementManager) (w : World)
    → ((monitor_replacement r w).0 ≡ err replacement_timeout)
      ↔ (IsVerifying w × IsWell r w × (w.fault w.calls ≡ none) × IsTimedOut r w)
monitor-timeout_iff r w =
    let late = sync_timed_out-IsTimedOut_iff r w in
    (
      λ h.
          let (v, p, f) = monitor_passed r w (err replacement_timeout) (inr refl) h in
          (v, p, f, late.0 (ground (arith, monitor_answer r w v p f))),
      λ (v, p, f, t). let y = late.1 t in ground (arith, monitor_answer r w v p f),
    )

-- Without a failing fetch, the timeout is the only error of a monitor that is verifying.
monitor-err :
    (r : ReplacementManager) (w : World) {e : Error}
    → IsVerifying w
    → w.fault w.calls ≡ none
    → (monitor_replacement r w).0 ≡ err e
    → e ≡ replacement_timeout
unfolding monitor_replacement fetch_and_verify verify_fetched verify_pod get_pod
monitor-err r w v calm h = ground (
  arith,
  eq_iff (node_annotation w.node annotation_phase) verifying,
  eq_iff (node_annotation w.node annotation_pod) "",
)

-- A pod that does not pass the health checks is waited for.
pub monitor_unwell :
    (r : ReplacementManager) (w : World)
    → IsVerifying w
    → ¬ IsWell r w
    → w.fault w.calls ≡ none
    → (monitor_replacement r w).0 ≡ ok false
monitor_unwell r w v ill calm = go ((monitor_replacement r w).0) refl
  where
    go :
        (x : Result Bool) → (monitor_replacement r w).0 ≡ x → (monitor_replacement r w).0 ≡ ok false
    go (ok true) h = absurd (ill (((monitor_ready_iff r w).0 h).1))
    go (ok false) h = h
    go (err e) h =
        let timeout = monitor-err r w v calm h in
        absurd (ill (((monitor-timeout_iff r w).0 (h ∙ ap err timeout)).1))

-- Whatever it answers, the monitor changes nothing.
pub monitor-Unchanged :
    (r : ReplacementManager) (w : World) → Unchanged w (monitor_replacement r w).1
unfolding monitor_replacement fetch_and_verify verify_fetched verify_pod get_pod
monitor-Unchanged r w = ground arith
