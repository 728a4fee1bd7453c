-- ===== src/Health/Replacement/Pods.antt =====
-- What the helpers do to the pods.
use chainplane.Time.{second}
use chainplane.Prelude.{
  ◌/◌, false, ◌≡◌, inl, inr, String, none, some, arith, Option-cases, insert, erase, str_eq,
  eq_refl, eq_iff,
}
use chainplane.Errors.{Error, ok, err}
use chainplane.Kube.{World, Pod, get_pod, patch_pod_label, create_pod, delete_pod}
use chainplane.Health.Replacement.Defs.{ReplacementManager}
use chainplane.Health.Replacement.Annotations.{Unchanged}
use chainplane.Health.Replacement.Helpers.{
  label_pod, remove_pod, remove_pvc, replacement_pod, spawn_replacement_pod,
}

-- Everything but the pods and the number of the next call is as before.
pub record SameRest (w w' : World) : Type 0 where
  pub stored : w'.stored ≡ w.stored
  pub node : w'.node ≡ w.node
  pub now : w'.now ≡ w.now
  pub fault : w'.fault ≡ w.fault

-- One label of one pod was written.
pub record Labelled (name key value : String) (w w' : World) : Type 0 where
  pub before : Pod
  pub was_there : w.pods name ≡ some before
  pub pods :
      w'.pods ≡ insert name (record before { labels = insert key value before.labels }) w.pods
  pub rest : SameRest w w'

pub label-Labelled :
    (name key value : String) (w w' : World)
    → label_pod name key value w ≡ (ok tt, w')
    → Labelled name key value w w'
unfolding label_pod get_pod patch_pod_label
label-Labelled name key value w w' h = elim (Option-cases (w.pods name)) [
  | inl e ↦ absurd (ground arith)
  | inr (p, e) ↦ record { before = p; was_there = e; pods = ground arith; rest = ground arith }
]

pub label-Unchanged :
    (name key value : String) {e : Error} (w w' : World)
    → label_pod name key value w ≡ (err e, w')
    → Unchanged w w'
unfolding label_pod get_pod patch_pod_label
label-Unchanged name key value w w' h = ground arith

-- A pod that was removed is gone, and no other pod is touched.
pub remove-gone :
    (name : String) (w w' : World)
    → remove_pod name w ≡ (ok tt, w')
    → ((j : String) → w'.pods j ≡ erase name w.pods j) × SameRest w w'
unfolding remove_pod get_pod delete_pod
remove-gone name w w' h = (λ j. ground (arith, eq_iff j name), ground arith)

pub remove-Unchanged :
    (name : String) {e : Error} (w w' : World) → remove_pod name w ≡ (err e, w') → Unchanged w w'
unfolding remove_pod get_pod delete_pod
remove-Unchanged name w w' h = ground arith

pub remove_pvc-SamePods :
    (name : String) (w : World)
    → let w' = (remove_pvc name w).1 in (w'.pods ≡ w.pods) × SameRest w w'
unfolding remove_pvc chainplane.Kube.get_claim chainplane.Kube.delete_claim
remove_pvc-SamePods name w = ground arith

-- The replacement pod is there: the clone of the old pod, or the pod that had its name already.
pub record Spawned (r : ReplacementManager) (old new : String) (w w' : World) : Type 0 where
  pub orig : Pod
  pub was_there : w.pods old ≡ some orig
  pub cloned :
      w.pods new ≡ none
      → w'.pods new
        ≡ some (replacement_pod orig w.node.spec.chain (r.time.format (w.now / second)) old)
  pub reused : (p : Pod) → w.pods new ≡ some p → w'.pods new ≡ some p
  pub others : (j : String) → str_eq j new ≡ false → w'.pods j ≡ w.pods j
  pub rest : SameRest w w'

pub spawn-Spawned :
    (r : ReplacementManager) (old new : String) (w w' : World)
    → spawn_replacement_pod r old new w ≡ (ok tt, w')
    → Spawned r old new w w'
unfolding spawn_replacement_pod get_pod create_pod
spawn-Spawned r old new w w' h = elim (Option-cases (w.pods old)) [
  | inl e ↦ absurd (ground arith)
  | inr (p, e) ↦ record {
    orig = p;
    was_there = e;
    cloned = λ c. ground (arith, eq_refl new);
    reused = λ q c. ground (arith, eq_refl new);
    others = λ j c. ground arith;
    rest = ground arith;
  }
]

pub spawn-Unchanged :
    (r : ReplacementManager) (old new : String) {e : Error} (w w' : World)
    → spawn_replacement_pod r old new w ≡ (err e, w')
    → Unchanged w w'
unfolding spawn_replacement_pod get_pod create_pod
spawn-Unchanged r old new w w' h = ground arith

pub Spawned-pod :
    (r : ReplacementManager) (old new : String) {w w' : World}
    → Spawned r old new w w'
    → (p : Pod) × (w'.pods new ≡ some p)
Spawned-pod r old new {w} {w'} s = elim (Option-cases (w.pods new)) [
  | inl e ↦
      (replacement_pod s.orig w.node.spec.chain (r.time.format (w.now / second)) old, s.cloned e)
  | inr (p, e) ↦ (p, s.reused p e)
]
