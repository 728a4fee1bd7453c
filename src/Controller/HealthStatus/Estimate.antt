-- ===== src/Controller/HealthStatus/Estimate.antt =====
-- The estimate of the time that a sync still takes does not fail, and leaves the status alone.
use chainplane.Adapters.Int64.{is_positive, lt64}
use chainplane.Prelude.{
  ℕ, ◌≡◌, ◌∙◌, refl, String, Bool, true, false, Option, none, some, arith, if◌then◌else◌, str_eq,
  not,
}
use chainplane.Errors.{Result, ok, err}
use chainplane.Api.{ChainInstance}
use chainplane.Kube.{Action, World, pure, gets, ◌>>=◌, update_instance}
use chainplane.Controller.HealthStatus.{Environment, persist_annotations}
use chainplane.Controller.HealthStatus.Eta.{
  SyncTools, is_unknown, progress_snapshot, has_regressed, clear_progress, first_snapshot,
  eta_if_saved, progress_eta_of, block_eta_of, or_block_rate, save_progress, eta_since,
  progress_based_eta, save_block, eta_to_tip, block_rate_eta, estimate_sync_eta, is_old,
}

-- The action succeeds and keeps the status of the caller's copy.
pub record Quiet {A : Type 0} (m : Action A) (w : World) : Type 0 where
  pub result : A
  pub after : World
  pub run : m w ≡ (ok result, after)
  pub kept : after.node.status ≡ w.node.status

pub pure-Quiet : {A : Type 0} (a : A) (w : World) → Quiet (pure a) w
pure-Quiet a w = record { result = a; after = w; run = refl; kept = refl }

pub bind-Quiet :
    {A B : Type 0} (m : Action A) (f : A → Action B) (w : World)
    → Quiet m w
    → ((a : A) (v : World) → Quiet (f a) v)
    → Quiet (m >>= f) w
bind-Quiet m f w first next =
    let later = next first.result first.after in
    record {
      result = later.result;
      after = later.after;
      run = rw (first.run) later.run;
      kept = later.kept ∙ first.kept;
    }

pub if-Quiet :
    {A : Type 0} (b : Bool) (m k : Action A) (w : World)
    → Quiet m w
    → Quiet k w
    → Quiet (if b then m else k) w
if-Quiet true m k w h l = h
if-Quiet false m k w h l = l

pub gets-Quiet : {A : Type 0} (f : World → A) (w : World) → Quiet (gets f) w
gets-Quiet f w = record { result = f w; after = w; run = refl; kept = refl }

pub option-Quiet :
    {A X : Type 0} (o : Option X) (m : Action A) (k : X → Action A) (w : World)
    → Quiet m w
    → ((x : X) → Quiet (k x) w)
    → Quiet (elim o as (λ _. Action A) [ none ↦ m | some x ↦ k x ]) w
option-Quiet none m k w h l = h
option-Quiet (some x) m k w h l = l x

module _ {F : Type 0} (tools : SyncTools F) (e : Environment) where
  save_progress-Quiet :
      (now : ℕ) (progress : F) (w : World) → Quiet (save_progress tools e now progress) w
  unfolding save_progress persist_annotations update_instance
  save_progress-Quiet now progress w = record {
    result = _;
    after = _;
    run = refl;
    kept = ground arith;
  }

  save_block-Quiet : (now block : ℕ) (w : World) → Quiet (save_block tools e now block) w
  unfolding save_block persist_annotations update_instance
  save_block-Quiet now block w = record { result = ""; after = _; run = refl; kept = ground arith }

  clear_progress-Quiet : (w : World) → Quiet (clear_progress tools e) w
  unfolding clear_progress
  clear_progress-Quiet w = record { result = ""; after = _; run = refl; kept = refl }

  first_snapshot-Quiet :
      (now : ℕ) (progress : F) (w : World) → Quiet (first_snapshot tools e now progress) w
  unfolding first_snapshot
  first_snapshot-Quiet now progress w =
      bind-Quiet (save_progress tools e now progress) (λ _. pure "") w
        (save_progress-Quiet now progress w) λ _ v. pure-Quiet "" v

  saved-Quiet :
      (now : ℕ) (progress pct : F) (at : ℕ) (saved : Result (Unit {0})) (w : World)
      → Quiet (eta_if_saved tools e now progress pct at saved) w
  saved-Quiet now progress pct at (ok _) w = pure-Quiet _ w
  saved-Quiet now progress pct at (err _) w = pure-Quiet "" w

  eta_since-Quiet :
      (now : ℕ) (progress pct : F) (at : ℕ) (w : World)
      → Quiet (eta_since tools e now progress pct at) w
  unfolding eta_since
  eta_since-Quiet now progress pct at w =
      if-Quiet (is_old tools e now at) _ _ w
        (bind-Quiet (save_progress tools e now progress) (eta_if_saved tools e now progress pct at)
          w (save_progress-Quiet now progress w) (saved-Quiet now progress pct at))
        (pure-Quiet _ w)

  progress_eta_of-Quiet :
      (progress : F) (now : ℕ) (node : ChainInstance) (w : World)
      → Quiet (progress_eta_of tools e progress now node) w
  unfolding progress_eta_of
  progress_eta_of-Quiet progress now node w =
      if-Quiet (is_unknown tools e progress) _ _ w (pure-Quiet "" w) (
        option-Quiet (progress_snapshot tools e node) _ _ w (first_snapshot-Quiet now progress w)
          λ (pct, at).
            if-Quiet (has_regressed tools e progress pct) _ _ w (clear_progress-Quiet w)
              (eta_since-Quiet now progress pct at w))

  progress_based_eta-Quiet :
      (progress : F) (now : ℕ) (w : World) → Quiet (progress_based_eta tools e progress now) w
  unfolding progress_based_eta
  progress_based_eta-Quiet progress now w =
      bind-Quiet (gets (λ v. v.node)) (progress_eta_of tools e progress now) w
        (gets-Quiet (λ v. v.node) w) (progress_eta_of-Quiet progress now)

  eta_to_tip-Quiet :
      (tip block now : ℕ) (node : ChainInstance) (w : World)
      → Quiet (eta_to_tip tools e tip block now node) w
  unfolding eta_to_tip
  eta_to_tip-Quiet tip block now node w =
      option-Quiet _ _ _ w (save_block-Quiet now block w) λ (snapshot, at).
        if-Quiet (is_old tools e now at) _ _ w (save_block-Quiet now block w) (pure-Quiet _ w)

  block_eta_of-Quiet :
      (block now : ℕ) (node : ChainInstance) (w : World)
      → Quiet (block_eta_of tools e block now node) w
  unfolding block_eta_of
  block_eta_of-Quiet block now node w = if-Quiet (not (is_positive block)) _ _ w (pure-Quiet "" w) (
      option-Quiet _ _ _ w (pure-Quiet "" w) λ tip.
        if-Quiet (not (lt64 block tip)) _ _ w (pure-Quiet "" w)
          (eta_to_tip-Quiet tip block now node w))

  block_rate_eta-Quiet : (block now : ℕ) (w : World) → Quiet (block_rate_eta tools e block now) w
  unfolding block_rate_eta
  block_rate_eta-Quiet block now w =
      bind-Quiet (gets (λ v. v.node)) (block_eta_of tools e block now) w
        (gets-Quiet (λ v. v.node) w) (block_eta_of-Quiet block now)

  or_block_rate-Quiet :
      (block now : ℕ) (eta : String) (w : World) → Quiet (or_block_rate tools e block now eta) w
  unfolding or_block_rate
  or_block_rate-Quiet block now eta w =
      if-Quiet (not (str_eq eta "")) _ _ w (pure-Quiet eta w) (block_rate_eta-Quiet block now w)

  pub estimate_sync_eta-Quiet :
      (progress : F) (block now : ℕ) (w : World)
      → Quiet (estimate_sync_eta tools e progress block now) w
  unfolding estimate_sync_eta
  estimate_sync_eta-Quiet progress block now w = if-Quiet _ _ _ w (pure-Quiet "" w) (
      bind-Quiet (progress_based_eta tools e progress now) (or_block_rate tools e block now) w
        (progress_based_eta-Quiet progress now w) (or_block_rate-Quiet block now))
