-- ===== src/Health/Replacement/Helpers.antt =====
-- The unexported helpers of replacement.go.
use Prim.Native.String.{◌++◌}
use chainplane.Prelude.{
  ◌/◌, String, Bool, true, false, List, [], ◌∷◌, Map, insert, erase, empty_map, if◌then◌else◌,
}
use chainplane.Errors.{is_not_found, is_already_exists}
use chainplane.Api.{ChainInstance}
use chainplane.Time.{second}
use chainplane.Kube.{
  Action, World, Pod, ContainerStatus, pure, raise, gets, catch, modify, ◌>>=◌, ◌>>◌, get_pod,
  patch_pod_label, create_pod, delete_pod, get_claim, delete_claim, get_instance, patch_annotations,
}
use chainplane.Health.Replacement.Defs.{
  ReplacementManager, annotation_phase, annotation_pod, annotation_old_pod, annotation_started_at,
  label_instance, label_replacement_for, label_ready,
}

-- `for k, v := range ann { m[k] = v }`
abbrev pub insert_all : List (String × String) → Map String → Map String
insert_all [] m = m
insert_all ((k, v) ∷ ann) m = insert_all ann (insert k v m)

-- The caller's copy takes the annotations of the answer.
abbrev set_node_annotations : ChainInstance → World → World
set_node_annotations current w = record w {
  node = record w.node { annotations = current.annotations };
}

-- mergeAnnotations: it reads the resource again first.
unfoldable pub merge_annotations : List (String × String) → Action (Unit {0})
merge_annotations ann = do
  _ ← get_instance
  current ← patch_annotations (insert_all ann)
  modify (set_node_annotations current)

-- The keys that clearAnnotations removes.
abbrev pub erase_all : Map String → Map String
erase_all m =
    erase annotation_started_at
      (erase annotation_old_pod (erase annotation_pod (erase annotation_phase m)))

-- clearAnnotations
unfoldable pub clear_annotations : Action (Unit {0})
clear_annotations = do
  _ ← get_instance
  current ← patch_annotations erase_all
  modify (set_node_annotations current)

-- labelPod
unfoldable pub label_pod : String → String → String → Action (Unit {0})
label_pod name key value = do _ ← get_pod name; patch_pod_label name key value

-- The pod that spawnReplacementPod asks for. Its status is empty.
unfoldable pub replacement_pod : Pod → String → String → String → Pod
replacement_pod orig chain created old = record {
  labels = insert "chains.chainplane.io/chain" chain (
      insert "app.kubernetes.io/managed-by" "chainplane" (
        insert label_ready "false"
          (insert label_replacement_for old (insert label_instance "replacement" orig.labels))));
  annotations =
      insert "chains.chainplane.io/created" created
        (insert "chains.chainplane.io/original-pod" old empty_map);
  spec = record orig.spec { node_name = ""; hostname = "" };
  phase = "";
  pod_ip = "";
  container_statuses = [];
}

-- spawnReplacementPod: a pod that is there already is reused.
unfoldable pub spawn_replacement_pod : ReplacementManager → String → String → Action (Unit {0})
spawn_replacement_pod r old new = do
  orig ← get_pod old
  node ← gets (λ w. w.node)
  now ← gets (λ w. w.now)
  catch (create_pod new (replacement_pod orig node.spec.chain (r.time.format (now / second)) old))
      (λ e. if is_already_exists e then pure tt else raise e)

-- removePod
unfoldable pub remove_pod : String → Action (Unit {0})
remove_pod name =
    catch (get_pod name >> delete_pod name) λ e. if is_not_found e then pure tt else raise e

-- removePVC
unfoldable pub remove_pvc : String → Action (Unit {0})
remove_pvc pod_name =
    let pvc = "data-" ++ pod_name in
    catch (get_claim pvc >> delete_claim pvc) λ e. if is_not_found e then pure tt else raise e

abbrev pub all_ready : List ContainerStatus → Bool
all_ready [] = true
all_ready (c ∷ cs) = if c.ready then all_ready cs else false

-- containersReady
unfoldable pub containers_ready : Pod → Bool
containers_ready pod = elim pod.container_statuses [ [] ↦ false | c ∷ cs ↦ all_ready (c ∷ cs) ]
