-- ===== src/Api/Webhook.antt =====
-- api/v1alpha2/chaininstance_webhook.go: the validating webhook. Quantities belong to the Kubernetes
-- libraries and are a parameter; an aggregate of errors is their list. Logging is left out.
mod Tables
pub mod Laws
unfoldable pub use Tables.*
use Prim.Native.String.{◌++◌}
use chainplane.Prelude.{
  String, Bool, true, false, Option, none, some, List, [], ◌∷◌, ◌&&◌, ◌||◌, not, str_eq,
  if◌then◌else◌,
}
use chainplane.Api.{Chain, Quantity, ImageSpec, ChainInstance}

-- The sign of Quantity.Cmp, where it is asked for, and Quantity.IsZero.
pub record Quantities : Type 0 where
  pub less : Quantity → Quantity → Bool
  pub is_zero : Quantity → Bool

-- field.Error with the path of the field
pub data FieldError : Type 0 where
  not_supported : (path value : String) → List String → FieldError
  invalid : (path value : String) → FieldError
  forbidden : (path : String) → FieldError
  required : (path : String) → FieldError

-- The error of a validation: an object of another type, or an aggregate.
pub data AdmissionError : Type 0 where
  not_a_chain_instance : AdmissionError
  aggregate : List FieldError → AdmissionError

-- (admission.Warnings, error)
pub record Admission : Type 0 where
  pub warnings : List String
  pub error : Option AdmissionError

-- runtime.Object, as far as it is told apart
pub data Object : Type 0 where
  chain_instance : ChainInstance → Object
  other : Object

-- ChainInstanceValidator with DefaultImageFunc
pub record ChainInstanceValidator : Type 0 where
  pub quantities : Quantities
  pub default_image : Option (Chain → String → String)

-- `validationRegistry[chain]`
unfoldable pub look_up : Chain → List (Chain × ChainConstraints) → Option ChainConstraints
look_up chain [] = none
look_up chain ((c, constraints) ∷ rows) =
    let rest = look_up chain rows in if str_eq chain c then some constraints else rest

-- `_, chainSupported := validationRegistry[chain]`, and supportedChains
unfoldable pub is_supported : Chain → Bool
is_supported chain = elim (look_up chain validation_registry) [ none ↦ false | some _ ↦ true ]

-- `supportedNetworks[network]`
unfoldable pub contains_name : String → List String → Bool
contains_name name [] = false
contains_name name (n ∷ ns) = let rest = contains_name name ns in str_eq name n || rest

-- `if condition { list = append(list, item) }`, ahead of what comes later
abbrev pub when : {A : Type 0} → Bool → A → List A → List A
when condition item later = if condition then item ∷ later else later

-- The end of a validation.
abbrev pub conclude : List String → List FieldError → Admission
conclude warnings [] = record { warnings = warnings; error = none }
conclude warnings (e ∷ es) = record { warnings = warnings; error = some (aggregate (e ∷ es)) }

-- "storage size must be greater than 0" is an error unless this holds.
abbrev pub is_positive : Quantities → Quantity → Bool
is_positive q size = q.less "0" size

-- A quantity that is set and below the recommended one.
abbrev pub is_short : Quantities → Quantity → Quantity → Bool
is_short q amount minimum = not (q.is_zero amount) && q.less amount minimum

abbrev below : String → String → Quantity → Chain → String
below what amount minimum chain =
    what ++ " " ++ amount ++ " is below the recommended minimum of " ++ minimum ++ " for chain \""
    ++ chain ++ "\""

-- The errors of validateChainInstanceSpec.
unfoldable pub spec_errors : Quantities → ChainInstance → List FieldError
spec_errors q node =
    when (not (is_supported node.spec.chain))
      (not_supported "spec.chain" node.spec.chain supported_chain_names)
      (when (not (contains_name node.spec.network supported_networks))
        (not_supported "spec.network" node.spec.network supported_networks)
        (when (not (is_positive q node.spec.storage.size))
          (invalid "spec.storage.size" node.spec.storage.size) []))

-- The warnings of validateChainInstanceSpec.
unfoldable pub spec_warnings : Quantities → ChainInstance → List String
spec_warnings q node = elim (look_up node.spec.chain validation_registry) [
  | none ↦ []
  | some constraints ↦
      let size = node.spec.storage.size in
      let limit = node.spec.resources.limits_memory in
      let request = node.spec.resources.requests_memory in
      let recommends = not (q.is_zero constraints.min_memory) in
      when (is_positive q size && q.less size constraints.min_storage)
        (below "spec.storage.size" size constraints.min_storage node.spec.chain)
        (when (recommends && is_short q limit constraints.min_memory)
          (below "spec.resources.limits.memory" limit constraints.min_memory node.spec.chain)
          (when (recommends && is_short q request constraints.min_memory)
            (below "spec.resources.requests.memory" request constraints.min_memory node.spec.chain)
            []))
]

-- validateChainInstanceSpec
unfoldable pub validate_chain_instance_spec : Quantities → ChainInstance → Admission
validate_chain_instance_spec q node = conclude (spec_warnings q node) (spec_errors q node)

-- `node.Spec.Image != nil && node.Spec.Image.Repository != ""`
abbrev pub names_image : Option ImageSpec → Bool
names_image none = false
names_image (some image) = not (str_eq image.repository "")

-- validateImage
unfoldable pub validate_image : ChainInstanceValidator → ChainInstance → Option FieldError
validate_image v node = elim v.default_image [
  | none ↦ none
  | some default_image ↦
      if names_image node.spec.image
      then none
      else if not (str_eq (default_image node.spec.chain node.spec.client) "")
      then none
      else some (required "spec.image")
]

-- The part of ValidateCreate that follows the check of the type.
unfoldable pub create_instance : ChainInstanceValidator → ChainInstance → Admission
create_instance v node =
    let checked = validate_chain_instance_spec v.quantities node in
    elim checked.error [
      | some _ ↦ checked
      | none ↦ elim (validate_image v node) [
        | some e ↦ record { warnings = checked.warnings; error = some (aggregate (e ∷ [])) }
        | none ↦ checked
      ]
    ]

abbrev pub reject_object : Admission
reject_object = record { warnings = []; error = some not_a_chain_instance }

-- ValidateCreate
unfoldable pub validate_create : ChainInstanceValidator → Object → Admission
validate_create v (chain_instance node) = create_instance v node
validate_create v other = reject_object

-- The immutability checks of ValidateUpdate, ahead of the other errors.
unfoldable pub immutability_errors :
    ChainInstance → ChainInstance → List FieldError → List FieldError
immutability_errors old new later =
    when (not (str_eq old.spec.chain new.spec.chain)) (forbidden "spec.chain")
      (when (not (str_eq old.spec.network new.spec.network)) (forbidden "spec.network") later)

-- The part of ValidateUpdate that follows the checks of the types.
unfoldable pub update_instance : ChainInstanceValidator → ChainInstance → ChainInstance → Admission
update_instance v old new =
    let checked = validate_chain_instance_spec v.quantities new in
    elim checked.error [
      | some _ ↦ checked
      | none ↦ conclude checked.warnings (
          immutability_errors old new (elim (validate_image v new) [ none ↦ [] | some e ↦ e ∷ [] ]))
    ]

-- ValidateUpdate
unfoldable pub validate_update : ChainInstanceValidator → Object → Object → Admission
validate_update v (chain_instance old) (chain_instance new) = update_instance v old new
validate_update v (chain_instance old) other = reject_object
validate_update v other new = reject_object

-- ValidateDelete
unfoldable pub validate_delete : ChainInstanceValidator → Object → Admission
validate_delete v (chain_instance node) = record { warnings = []; error = none }
validate_delete v other = reject_object
