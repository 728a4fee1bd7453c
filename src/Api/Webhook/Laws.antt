-- ===== src/Api/Webhook/Laws.antt =====
-- What the webhook admits, when a resource is created and when it is updated.
use chainplane.Prelude.{
  ◌≡◌, ◌≢◌, ◌↔◌, ◌⊎◌, refl, ◌∙◌, inl, inr, String, true, none, some, arith, eq_iff, Option-cases,
  Bool-cases,
}
use chainplane.Api.{Chain, ChainInstance}
use chainplane.Api.Webhook.{
  ChainInstanceValidator, chain_instance, is_supported, is_positive, contains_name,
  supported_networks, names_image, spec_errors, validate_chain_instance_spec, validate_image,
  create_instance, validate_create, update_instance, immutability_errors, validate_update,
}

-- The resource names an image, or the operator has one for the chain and client, or cannot tell.
abbrev pub HasImage : ChainInstanceValidator → ChainInstance → Type 0
HasImage v node =
    (names_image node.spec.image ≡ true)
    ⊎ ((v.default_image ≡ none)
        ⊎ ((default_image : Chain → String → String) × (v.default_image ≡ some default_image)
            × (default_image node.spec.chain node.spec.client ≢ "")))

-- The networks that are known.
abbrev pub IsNetwork : String → Type 0
IsNetwork name = (name ≡ "mainnet") ⊎ ((name ≡ "testnet") ⊎ (name ≡ "devnet"))

-- The webhook's conditions on a resource.
pub record IsAdmissible (v : ChainInstanceValidator) (node : ChainInstance) : Type 0 where
  pub known_chain : is_supported node.spec.chain ≡ true
  pub known_network : IsNetwork node.spec.network
  pub positive_size : is_positive v.quantities node.spec.storage.size ≡ true
  pub has_image : HasImage v node

supported_networks-IsNetwork :
    (name : String) → (contains_name name supported_networks ≡ true) ↔ IsNetwork name
unfolding contains_name supported_networks
supported_networks-IsNetwork name = (
  λ h. ground (arith, eq_iff name "mainnet", eq_iff name "testnet", eq_iff name "devnet"),
  λ h. ground (arith, eq_iff name "mainnet", eq_iff name "testnet", eq_iff name "devnet"),
)

image_iff :
    (v : ChainInstanceValidator) (node : ChainInstance)
    → (validate_image v node ≡ none) ↔ HasImage v node
unfolding validate_image
image_iff v node = elim (Option-cases v.default_image) [
  | inl e ↦ (λ h. inr (inl e), λ h. ground arith)
  | inr (f, e) ↦ elim (Bool-cases (names_image node.spec.image)) [
    | inl named ↦ (λ h. inl named, λ h. ground arith)
    | inr unnamed ↦ (
      λ h. inr (inr (f, e, λ same. ground (arith, eq_iff (f node.spec.chain node.spec.client) ""))),
      λ h. elim h [
        | inl named ↦ ground arith
        | inr (inl off) ↦ ground arith
        | inr (inr (g, d, known)) ↦ ground (
          arith,
          eq_iff (f node.spec.chain node.spec.client) "",
          eq_iff (g node.spec.chain node.spec.client) "",
        )
      ],
    )
  ]
]

spec_iff :
    (v : ChainInstanceValidator) (node : ChainInstance)
    → ((validate_chain_instance_spec v.quantities node).error ≡ none) ↔ (
        (is_supported node.spec.chain ≡ true)
        × IsNetwork node.spec.network
        × (is_positive v.quantities node.spec.storage.size ≡ true))
unfolding validate_chain_instance_spec spec_errors
spec_iff v node =
    let network = supported_networks-IsNetwork node.spec.network in
    (
      λ h. (ground arith, network.0 (ground arith), ground arith),
      λ (c, n, s). let known = network.1 n in ground arith,
    )

-- A creation is admitted exactly if the chain is in the registry, the network is known, the storage
-- size is greater than 0, and there is an image.
pub create_iff :
    (v : ChainInstanceValidator) (node : ChainInstance)
    → ((validate_create v (chain_instance node)).error ≡ none) ↔ IsAdmissible v node
unfolding validate_create create_instance
create_iff v node =
    let spec = spec_iff v node in
    let image = image_iff v node in
    (
      λ h.
          let checked : (validate_chain_instance_spec v.quantities node).error ≡ none =
            ground arith in
          let shown : validate_image v node ≡ none = ground arith in
          let (c, n, s) = spec.0 checked in
          record {
            known_chain = c;
            known_network = n;
            positive_size = s;
            has_image = image.0 shown;
          },
      λ a.
          let checked = spec.1 (a.known_chain, a.known_network, a.positive_size) in
          let shown = image.1 a.has_image in ground arith,
    )

-- An update is admitted exactly if the new resource would be admitted as a creation, and its chain and
-- network are the old ones.
pub update_iff :
    (v : ChainInstanceValidator) (old new : ChainInstance)
    → ((validate_update v (chain_instance old) (chain_instance new)).error ≡ none) ↔ (
        IsAdmissible v new
        × (new.spec.chain ≡ old.spec.chain)
        × (new.spec.network ≡ old.spec.network))
unfolding validate_update update_instance immutability_errors
update_iff v old new =
    let spec = spec_iff v new in
    let image = image_iff v new in
    (
      λ h.
          let checked : (validate_chain_instance_spec v.quantities new).error ≡ none =
            ground arith in
          let shown : validate_image v new ≡ none = ground arith in
          let (c, n, s) = spec.0 checked in
          (
            record {
              known_chain = c;
              known_network = n;
              positive_size = s;
              has_image = image.0 shown;
            },
            ground (arith, eq_iff old.spec.chain new.spec.chain),
            ground (
              arith,
              eq_iff old.spec.chain new.spec.chain,
              eq_iff old.spec.network new.spec.network,
            ),
          ),
      λ (a, same_chain, same_network).
          let checked = spec.1 (a.known_chain, a.known_network, a.positive_size) in
          let shown = image.1 a.has_image in
          ground
            (arith, eq_iff old.spec.chain new.spec.chain, eq_iff old.spec.network new.spec.network),
    )

-- A history of admitted writes: a creation, and then updates.
pub data History (v : ChainInstanceValidator) : ChainInstance → ChainInstance → Type 0 where
  created :
      (node : ChainInstance)
      → (validate_create v (chain_instance node)).error ≡ none
      → History v node node
  updated :
      {first old : ChainInstance} (new : ChainInstance)
      → History v first old
      → (validate_update v (chain_instance old) (chain_instance new)).error ≡ none
      → History v first new

-- However often a resource that was admitted is updated with admitted updates, it stays admissible and
-- keeps the chain and the network that it was created with.
pub History-keeps :
    (v : ChainInstanceValidator) {first last : ChainInstance}
    → History v first last
    → IsAdmissible v last
      × (last.spec.chain ≡ first.spec.chain)
      × (last.spec.network ≡ first.spec.network)
History-keeps v (created node ok) = ((create_iff v node).0 ok, refl, refl)
History-keeps v (updated {old = old} new before ok) =
    let (_, chain, network) = History-keeps v before in
    let (admissible, same_chain, same_network) = (update_iff v old new).0 ok in
    (admissible, same_chain ∙ chain, same_network ∙ network)
