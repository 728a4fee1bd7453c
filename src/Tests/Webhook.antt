-- ===== src/Tests/Webhook.antt =====
-- The webhook with a resource that is created and then updated.
use chainplane.Prelude.{◌≡◌, ◌↔◌, refl, true, false, none, some, empty_map, str_eq, not, ◌&&◌}
use chainplane.Api.{ChainInstance}
use chainplane.Api.Webhook.{
  Quantities, ChainInstanceValidator, chain_instance, look_up, contains_name, is_supported,
  validation_registry, supported_networks, supported_chain_names, spec_errors, spec_warnings,
  validate_chain_instance_spec, validate_image, create_instance, validate_create,
  immutability_errors, update_instance, validate_update,
}
use chainplane.Api.Webhook.Laws.{
  IsAdmissible, created, updated, create_iff, update_iff, History-keeps,
}
use chainplane.Tests.Data.{instance_with}

-- Every quantity but 0 is more than 0, and nothing is less than another recommended one.
abbrev rough : Quantities
rough = record { less = λ a b. str_eq a "0" && not (str_eq b "0"); is_zero = λ a. str_eq a "0" }

abbrev validator : ChainInstanceValidator
validator = record { quantities = rough; default_image = some (λ chain client. "geth:1") }

abbrev node : ChainInstance
node = instance_with empty_map

node_admitted : (validate_create validator (chain_instance node)).error ≡ none
unfolding validate_create create_instance validate_chain_instance_spec spec_errors spec_warnings
    is_supported look_up contains_name validation_registry supported_networks validate_image
node_admitted = refl

update_admitted :
    (validate_update validator (chain_instance node) (chain_instance node)).error ≡ none
unfolding validate_update update_instance immutability_errors validate_chain_instance_spec
    spec_errors spec_warnings is_supported look_up contains_name validation_registry
    supported_networks validate_image
update_admitted = refl

create_iff_example :
    ((validate_create validator (chain_instance node)).error ≡ none) ↔ IsAdmissible validator node
create_iff_example = create_iff validator node

update_iff_example :
    ((validate_update validator (chain_instance node) (chain_instance node)).error ≡ none) ↔ (
      IsAdmissible validator node
      × (node.spec.chain ≡ node.spec.chain)
      × (node.spec.network ≡ node.spec.network))
update_iff_example = update_iff validator node node

History-keeps_example :
    IsAdmissible validator node
    × (node.spec.chain ≡ node.spec.chain)
    × (node.spec.network ≡ node.spec.network)
History-keeps_example =
    History-keeps validator (updated node (created node node_admitted) update_admitted)

-- The message about an unknown chain does not name every chain that is known.
moonbeam_not_named :
    (is_supported "moonbeam" ≡ true) × (contains_name "moonbeam" supported_chain_names ≡ false)
unfolding is_supported look_up contains_name validation_registry supported_chain_names
moonbeam_not_named = (refl, refl)
