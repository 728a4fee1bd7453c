-- ===== src/Health/Replacement/Annotations.antt =====
-- What the two writers of annotations do to the state: all or nothing.
use chainplane.Prelude.{suc, Option-cases, ◌≡◌, inl, inr, String, some, List, Map, arith}
use chainplane.Errors.{Error, ok, err}
use chainplane.Api.{ChainInstance}
use chainplane.Kube.{IsCalm, World, get_instance, patch_annotations}
use chainplane.Health.Replacement.Helpers.{
  insert_all, erase_all, merge_annotations, clear_annotations,
}

-- A change of the annotations, on the server and in the caller's copy.
pub record Annotated (change : Map String → Map String) (w w' : World) : Type 0 where
  pub before : ChainInstance
  pub was_stored : w.stored ≡ some before
  pub stored : w'.stored ≡ some (record before { annotations = change before.annotations })
  pub node : w'.node ≡ record w.node { annotations = change before.annotations }
  pub pods : w'.pods ≡ w.pods
  pub claims : w'.claims ≡ w.claims
  pub now : w'.now ≡ w.now
  pub fault : w'.fault ≡ w.fault

-- Only the number of the next call is new.
abbrev pub Unchanged : World → World → Type 0
Unchanged w w' = w' ≡ record w { calls = w'.calls }

pub merge-Annotated :
    (ann : List (String × String)) (w w' : World)
    → merge_annotations ann w ≡ (ok tt, w')
    → Annotated (insert_all ann) w w'
unfolding merge_annotations get_instance patch_annotations
merge-Annotated ann w w' h = elim (Option-cases w.stored) [
  | inl e ↦ absurd (ground arith)
  | inr (n, e) ↦ record {
    before = n;
    was_stored = e;
    stored = ground arith;
    node = ground arith;
    pods = ground arith;
    claims = ground arith;
    now = ground arith;
    fault = ground arith;
  }
]

-- A write that fails changes nothing, or it changed the server: the read alone can fail first.
pub merge-Unchanged :
    (ann : List (String × String)) {e : Error} (w w' : World)
    → merge_annotations ann w ≡ (err e, w')
    → Unchanged w w'
unfolding merge_annotations get_instance patch_annotations
merge-Unchanged ann w w' h = ground arith

pub clear-Annotated : (w w' : World) → clear_annotations w ≡ (ok tt, w') → Annotated erase_all w w'
unfolding clear_annotations get_instance patch_annotations
clear-Annotated w w' h = elim (Option-cases w.stored) [
  | inl e ↦ absurd (ground arith)
  | inr (n, e) ↦ record {
    before = n;
    was_stored = e;
    stored = ground arith;
    node = ground arith;
    pods = ground arith;
    claims = ground arith;
    now = ground arith;
    fault = ground arith;
  }
]

pub clear-Unchanged :
    {e : Error} (w w' : World) → clear_annotations w ≡ (err e, w') → Unchanged w w'
unfolding clear_annotations get_instance patch_annotations
clear-Unchanged w w' h = ground arith

pub clear_pods : (w : World) → (clear_annotations w).1.pods ≡ w.pods
unfolding clear_annotations get_instance patch_annotations
clear_pods w = ground arith

-- Without faults the writers succeed on a resource that is there.
pub merge_calm :
    (ann : List (String × String)) (w : World) (n : ChainInstance)
    → IsCalm w
    → w.stored ≡ some n
    → (merge_annotations ann w).0 ≡ ok tt
unfolding merge_annotations get_instance patch_annotations
merge_calm ann w n calm e = ground (arith, calm w.calls, calm (suc w.calls))

pub clear_calm :
    (w : World) (n : ChainInstance) → IsCalm w → w.stored ≡ some n → (clear_annotations w).0 ≡ ok tt
unfolding clear_annotations get_instance patch_annotations
clear_calm w n calm e = ground (arith, calm w.calls, calm (suc w.calls))
