-- ===== src/Health/Traffic/Progress.antt =====
-- The wait of a drain ends, and not before its time.
use chainplane.Prelude.{
  ℕ, zero, suc, ◌+◌, ◌-◌, ◌*◌, ◌≡◌, ◌≤◌, ◌⊎◌, refl, inl, inr, min, arith, leb, Bool-cases,
}
use chainplane.Errors.{Result, ok, err, context_done}
use chainplane.Kube.{World, wait}
use chainplane.Kube.Inversion.{run_cases}
use chainplane.Health.Traffic.{drain_log_interval, rounds, wait_until, wait_with_progress}

-- The wait has lasted to the deadline, or the context has ended it.
abbrev pub Ended : ℕ → Result (Unit {0}) × World → Type 0
Ended deadline x = ((x.0 ≡ ok tt) × (deadline ≤ x.1.now)) ⊎ (x.0 ≡ err context_done)

wait-Ended :
    (d : ℕ) (w : World)
    → (((wait d w).0 ≡ ok tt) × (w.now + d ≤ (wait d w).1.now)) ⊎ ((wait d w).0 ≡ err context_done)
unfolding wait
wait-Ended d w = ground arith

wait_until-Ended :
    (fuel deadline : ℕ) (w : World)
    → 1 ≤ fuel
    → deadline + drain_log_interval ≤ w.now + fuel * drain_log_interval
    → Ended deadline (wait_until fuel deadline w)
unfolding wait_until
wait_until-Ended zero deadline w some_fuel h = absurd (omega arith)
wait_until-Ended (suc fuel) deadline w some_fuel h = elim (Bool-cases (leb deadline w.now)) [
  | inl e ↦ rw e (inl (refl, ground arith))
  | inr e ↦
      let d = min drain_log_interval (deadline - w.now) in
      rw e (elim (run_cases (wait d) w) [
        | inl (_, v, ran) ↦
            let late = wait-Ended d w in
            rw ran (wait_until-Ended fuel deadline v (ground arith) (ground arith))
        | inr (x, v, ran) ↦ rw ran (inr (ground (arith, wait-Ended d w)))
      ])
]

-- waitWithProgress returns, however the single waits end: either without an error, when at least
-- the asked duration has passed, or with the error of a context that is done.
pub wait_with_progress-Ended :
    (duration : ℕ) (w : World) → Ended (w.now + duration) (wait_with_progress duration w)
unfolding wait_with_progress
wait_with_progress-Ended duration w =
    wait_until-Ended (rounds duration) (w.now + duration) w (omega arith) (omega arith)
