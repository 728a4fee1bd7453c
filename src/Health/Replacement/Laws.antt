-- ===== src/Health/Replacement/Laws.antt =====
-- What the workflow relies on of a drainer: it leaves the resource alone, removes no pod, and a
-- switch that succeeds leaves the new pod there and ready.
use chainplane.Prelude.{◌≡◌, ◌≢◌, String, ℕ, Option, none, some, get}
use chainplane.Errors.{ok}
use chainplane.Kube.{World, Pod}
use chainplane.Health.Replacement.Defs.{Drainer, label_ready}

-- The pod is there and carries the label that puts it behind its services.
pub record IsServing (name : String) (w : World) : Type 0 where
  pub pod : Pod
  pub is_there : w.pods name ≡ some pod
  pub is_ready : get pod.labels label_ready ≡ "true"

-- The resource, in both copies, and the settings of the run are as before.
pub record SameResource (w w' : World) : Type 0 where
  pub stored : w'.stored ≡ w.stored
  pub node : w'.node ≡ w.node
  pub fault : w'.fault ≡ w.fault

pub record DrainerLaws (d : Drainer) : Type 0 where
  pub drain-SameResource :
      (deadline : Option ℕ) (pod : String) (w : World) → SameResource w (d.drain deadline pod w).1
  pub drain_keeps :
      (deadline : Option ℕ) (pod : String) (w : World) (j : String)
      → w.pods j ≢ none
      → (d.drain deadline pod w).1.pods j ≢ none
  pub switch-SameResource :
      (old new : String) (w : World) → SameResource w (d.switch_traffic old new w).1
  pub switch_keeps :
      (old new : String) (w : World) (j : String)
      → w.pods j ≢ none
      → (d.switch_traffic old new w).1.pods j ≢ none
  pub switch-IsServing :
      (old new : String) (w w' : World)
      → d.switch_traffic old new w ≡ (ok tt, w')
      → IsServing new w'
  pub validate-SameResource :
      (pod : String) (w : World) → SameResource w (d.validate_traffic pod w).1
  pub validate_pods : (pod : String) (w : World) → (d.validate_traffic pod w).1.pods ≡ w.pods

abbrev pub Lawful : Option Drainer → Type 0
Lawful none = Unit
Lawful (some d) = DrainerLaws d
