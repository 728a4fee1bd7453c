-- ===== src/Errors.antt =====
-- internal/health/errors.go: the errors that the workflow returns. An API error keeps the class
-- that apierrors.IsNotFound and apierrors.IsAlreadyExists test, also behind fmt.Errorf("%w").
use chainplane.Prelude.{String, Bool, true, false}

-- The classes of API server errors that the code tells apart.
pub data ApiError : Type 0 where
  not_found already_exists conflict unavailable : ApiError

-- `in_phase` is PhaseError; the text of a message is left out.
pub data Error : Type 0 where
  api : ApiError → Error
  annotation_missing : Error
  replacement_timeout : Error
  unexpected_phase : String → Error
  context_done : Error
  -- a loop of the model ran out of fuel, which no theorem lets happen
  out_of_fuel : Error
  no_endpoint_slices : Error
  -- the health check of an adapter failed
  check_failed : Error
  in_phase : String → Error → Error

-- apierrors.IsNotFound
abbrev pub is_not_found : Error → Bool
is_not_found (api not_found) = true
is_not_found (in_phase _ e) = is_not_found e
is_not_found _ = false

-- apierrors.IsAlreadyExists
abbrev pub is_already_exists : Error → Bool
is_already_exists (api already_exists) = true
is_already_exists (in_phase _ e) = is_already_exists e
is_already_exists _ = false

pub data Result {ℓ} (A : Type ℓ) : Type ℓ where
  ok : A → Result A
  err : Error → Result A

-- `err == nil`
abbrev pub is_ok {ℓ} : {A : Type ℓ} → Result A → Bool
is_ok (ok _) = true
is_ok (err _) = false
