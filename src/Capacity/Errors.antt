-- ===== src/Capacity/Errors.antt =====
-- The exceptions that pass through the lease service, and a call's outcome.
use kestrel_cloud_runpod.Prelude.{String, Option, Bool, true, false}
use kestrel_cloud_runpod.Capacity.States.{TrainingPodCleanupState}

-- The fields of `TrainingPodLifecycleError`.
pub record LifecycleFailure : Type 0 where
  pub operation : String
  pub cleanup_token : String
  pub pod_id : Option String
  pub cleanup_state : TrainingPodCleanupState
  pub billing_risk : Bool

-- One constructor for each class that some handler tells apart. `out_of_fuel` is no exception of
-- the program: it says that a retry loop made more rounds than the model allowed.
pub data Error : Type 0 where
  manager conflict ambiguous transport value_error type_error cancelled out_of_fuel : Error
  created_mismatch : String → Error
  lifecycle_error cleanup_error : LifecycleFailure → Error

-- `isinstance(exc, RunPodManagerError)`
abbrev pub is_manager_error : Error → Bool
is_manager_error value_error = false
is_manager_error type_error = false
is_manager_error cancelled = false
is_manager_error out_of_fuel = false
is_manager_error _ = true

-- `isinstance(exc, TrainingPodConflictError)`
abbrev pub is_conflict : Error → Bool
is_conflict conflict = true
is_conflict _ = false

-- `sanitize_training_error`: the name of the class. Other subclasses of `RunPodManagerError` that a
-- provider raises stand under `manager`.
unfoldable pub sanitize_training_error : Error → String
sanitize_training_error manager = "RunPodManagerError"
sanitize_training_error conflict = "TrainingPodConflictError"
sanitize_training_error ambiguous = "RunPodAmbiguousResultError"
sanitize_training_error transport = "CatalogPodTransportError"
sanitize_training_error value_error = "ValueError"
sanitize_training_error type_error = "TypeError"
sanitize_training_error cancelled = "CancelledError"
sanitize_training_error out_of_fuel = ""
sanitize_training_error (created_mismatch _) = "PodCapacityCreatedMismatchError"
sanitize_training_error (lifecycle_error _) = "TrainingPodLifecycleError"
sanitize_training_error (cleanup_error _) = "TrainingPodCleanupError"

pub data Result {ℓ} (A : Type ℓ) : Type ℓ where
  ok : A → Result A
  raise : Error → Result A
