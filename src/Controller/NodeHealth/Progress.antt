-- ===== src/Controller/NodeHealth/Progress.antt =====
-- Which passes of Reconcile move the workflow on, and in which phases it stays for ever.
use chainplane.Prelude.{
  ◌≡◌, refl, ◌⊎◌, inl, inr, ◌∙◌, ℕ, zero, suc, String, true, false, arith, Bool-cases, str_eq,
}
use chainplane.Errors.{Error, err}
use chainplane.Api.{Chain, ChainInstance}
use chainplane.Kube.{World, get_instance}
use chainplane.Health.Chain.{chain_to_blockchain_type}
use chainplane.Health.Replacement.{
  ReplacementManager, draining, creating, completing, annotation_phase, node_annotation,
  is_replacement_in_progress, get_replacement_phase, start_replacement,
}
use chainplane.Health.Replacement.Laws.{Lawful}
use chainplane.Health.Replacement.StartFailed.{Recorded, start-failed}
use chainplane.Controller.NodeHealth.{
  map_chain_to_health_type, is_checkable_phase, evaluate_triggers, advance_from,
  advance_replacement, reconcile_node, reconcile_fetched, reconcile,
}

-- The two tables from chain names to metric families, in the health package and in the controller,
-- agree on every chain.
pub chain_to_blockchain_type-map_chain_to_health_type :
    (c : Chain) → chain_to_blockchain_type c ≡ map_chain_to_health_type c
unfolding chain_to_blockchain_type map_chain_to_health_type
chain_to_blockchain_type-map_chain_to_health_type c = refl

-- The objects on the server are as before.
pub record SameObjects (w w' : World) : Type 0 where
  pub stored : w'.stored ≡ w.stored
  pub pods : w'.pods ≡ w.pods
  pub claims : w'.claims ≡ w.claims

-- The phases in which Reconcile only asks to be called again.
abbrev pub IsTransient : World → Type 0
IsTransient w = Recorded draining w ⊎ Recorded creating w

-- A pass that is past its gates goes by the recorded phase.
pub reconcile_node_cases {ℓ} :
    (P : World → Type ℓ) (r : ReplacementManager) (w : World)
    → P w
    → (is_replacement_in_progress w.node ≡ true
        → P (advance_from r (get_replacement_phase w.node) w).1)
    → (is_replacement_in_progress w.node ≡ false → P (evaluate_triggers r w).1)
    → P (reconcile_node r w).1
unfolding reconcile_node advance_replacement
reconcile_node_cases P r w idle busy free = elim (Bool-cases w.node.deleting) [
  | inl e ↦ simp e idle
  | inr e ↦ simp e (elim (Bool-cases (is_checkable_phase w.node.status.phase)) [
    | inl c ↦ simp c (elim (Bool-cases (is_replacement_in_progress w.node)) [
      | inl b ↦ simp b (busy b)
      | inr b ↦ simp b (free b)
    ])
    | inr c ↦ simp c idle
  ])
]

advance-transient :
    (r : ReplacementManager) (p : String) (w : World)
    → (p ≡ draining) ⊎ (p ≡ creating)
    → (advance_from r p w).1 ≡ w
unfolding advance_from
advance-transient r p w (inl e) = rw e
advance-transient r p w (inr e) = rw e

pub in_progress :
    (n : ChainInstance) (p : String)
    → node_annotation n annotation_phase ≡ p
    → (str_eq p "" ≡ false)
    → (str_eq p completing ≡ false)
    → is_replacement_in_progress n ≡ true
unfolding is_replacement_in_progress
in_progress n p e a b = rw (e, a, b)

reconcile_node-transient :
    (r : ReplacementManager) (w : World)
    → (node_annotation w.node annotation_phase ≡ draining)
      ⊎ (node_annotation w.node annotation_phase ≡ creating)
    → (reconcile_node r w).1 ≡ w
unfolding get_replacement_phase
reconcile_node-transient r w t =
    reconcile_node_cases (λ v. v ≡ w) r w refl (λ _. advance-transient r _ w t)
      λ free. absurd (elim t [
        | inl e ↦ cc (free, in_progress w.node draining e refl refl)
        | inr e ↦ cc (free, in_progress w.node creating e refl refl)
      ])

reconcile-transient :
    (r : ReplacementManager) (w : World) → IsTransient w → SameObjects w (reconcile r w).1
unfolding reconcile get_instance reconcile_fetched
reconcile-transient r w (inl (n, e, p)) =
    let v = record w { calls = suc w.calls; node = n } in
    let same = reconcile_node-transient r v (inl p) in ground arith
reconcile-transient r w (inr (n, e, p)) =
    let v = record w { calls = suc w.calls; node = n } in
    let same = reconcile_node-transient r v (inr p) in ground arith

-- A number of passes, one after the other.
unfoldable pub passes : ReplacementManager → ℕ → World → World
passes r zero w = w
passes r (suc k) w = passes r k (reconcile r w).1

IsTransient-same : (w w' : World) → w'.stored ≡ w.stored → IsTransient w → IsTransient w'
IsTransient-same w w' same (inl (n, e, p)) = inl (n, same ∙ e, p)
IsTransient-same w w' same (inr (n, e, p)) = inr (n, same ∙ e, p)

passes-transient :
    (r : ReplacementManager) (k : ℕ) (w : World) → IsTransient w → SameObjects w (passes r k w)
unfolding passes
passes-transient r zero w t = record { stored = refl; pods = refl; claims = refl }
passes-transient r (suc k) w t =
    let s = reconcile-transient r w t in
    let v = (reconcile r w).1 in
    let rest = passes-transient r k v (IsTransient-same w v s.stored t) in
    record {
      stored = rest.stored ∙ s.stored;
      pods = rest.pods ∙ s.pods;
      claims = rest.claims ∙ s.claims;
    }

-- If StartReplacement fails with a lawful drainer, then either it has not changed the resource, or
-- no number of passes of Reconcile changes the resource, a pod or a claim any more: the workflow
-- stays in its transient phase, with the old pod out of service, until somebody else acts.
pub failed_start_sticks :
    (r : ReplacementManager) {e : Error} (w w' : World)
    → Lawful r.drainer
    → start_replacement r w ≡ (err e, w')
    → (w'.stored ≡ w.stored) ⊎ ((k : ℕ) → SameObjects w' (passes r k w'))
failed_start_sticks r w w' l h = elim (start-failed r w w' l h) [
  | inl same ↦ inl same
  | inr t ↦ inr (λ k. passes-transient r k w' t)
]
