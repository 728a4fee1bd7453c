-- ===== src/Controller/Upgrade/Crash.antt =====
-- When a pod counts as crashing, apart from the loops that look for one.
use chainplane.Prelude.{
  ◌≡◌, ◌↔◌, ◌≤◌, inl, inr, String, true, some, List, [], ◌∷◌, arith, eq_iff, eq_refl, Any,
  Bool-cases, Option-cases,
}
use chainplane.Kube.{Pod, ContainerStatus}
use chainplane.Controller.Upgrade.{main_container_name, is_crashing, any_crashing, crash_looping}

-- The main container has been restarted often enough, waits in CrashLoopBackOff, and runs the image.
pub record IsCrashing (image : String) (c : ContainerStatus) : Type 0 where
  pub is_main : c.name ≡ main_container_name
  pub restarted : 3 ≤ c.restart_count
  pub waits : c.waiting ≡ some "CrashLoopBackOff"
  pub runs : c.image ≡ image

is_crashing-IsCrashing :
    (image : String) (c : ContainerStatus) → is_crashing image c ≡ true → IsCrashing image c
is_crashing-IsCrashing image c h = elim (Option-cases c.waiting) [
  | inl e ↦ absurd (ground arith)
  | inr (reason, e) ↦ record {
    is_main = ground (arith, eq_iff c.name main_container_name);
    restarted = ground arith;
    waits = ground (arith, eq_iff reason "CrashLoopBackOff");
    runs = ground (arith, eq_iff c.image image);
  }
]

IsCrashing-is_crashing :
    (image : String) (c : ContainerStatus) → IsCrashing image c → is_crashing image c ≡ true
IsCrashing-is_crashing image c p =
    ground
      (arith, eq_iff c.name main_container_name, eq_iff c.image image, eq_refl "CrashLoopBackOff")

any_crashing_iff :
    (image : String) (cs : List ContainerStatus)
    → (any_crashing image cs ≡ true) ↔ Any (IsCrashing image) cs
any_crashing_iff image [] = (λ h. absurd (ground arith), λ h. absurd h)
any_crashing_iff image (c ∷ cs) =
    let rest = any_crashing_iff image cs in
    elim (Bool-cases (is_crashing image c)) [
      | inl e ↦ (λ h. inl (is_crashing-IsCrashing image c e), λ h. rw e)
      | inr e ↦ (
        λ h. inr (rest.0 (rw e at h)),
        λ h. rw e (elim h [
          | inl p ↦ absurd (cc (e, IsCrashing-is_crashing image c p))
          | inr q ↦ rest.1 q
        ]),
      )
    ]

-- hasCrashLoop finds a crash loop of an image among listed pods exactly when some container status
-- of some pod is that of the main container, with at least three restarts, waiting in
-- CrashLoopBackOff, and of that image.
pub crash_looping_iff :
    (image : String) (ps : List Pod)
    → (crash_looping image ps ≡ true)
      ↔ Any (λ (p : Pod). Any (IsCrashing image) p.container_statuses) ps
unfolding crash_looping
crash_looping_iff image [] = (λ h. absurd (ground arith), λ h. absurd h)
crash_looping_iff image (p ∷ ps) =
    let rest = crash_looping_iff image ps in
    let here = any_crashing_iff image p.container_statuses in
    elim (Bool-cases (any_crashing image p.container_statuses)) [
      | inl e ↦ (λ h. inl (here.0 e), λ h. rw e)
      | inr e ↦ (
        λ h. inr (rest.0 (rw e at h)),
        λ h. rw e (elim h [ inl x ↦ absurd (cc (e, here.1 x)) | inr q ↦ rest.1 q ]),
      )
    ]
