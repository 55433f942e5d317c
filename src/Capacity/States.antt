-- ===== src/Capacity/States.antt =====
-- The enumerations of kestrel_cloud_runpod/pod_capacity_contracts.py, and `is` on their members.
use kestrel_cloud_runpod.Prelude.{Bool, true, false}

pub data TrainingPodSource : Type 0 where
  configured_persistent stopped_reuse created : TrainingPodSource

pub data TrainingPodOwnership : Type 0 where
  provisional owned preexisting_running : TrainingPodOwnership

pub data TrainingPodState : Type 0 where
  requested starting ready job_submitted job_completed result_retrieved : TrainingPodState
  cancel_requested reconcile_required releasing released : TrainingPodState

pub data TrainingPodCleanupState : Type 0 where
  not_requested pending retryable_failure complete not_owned : TrainingPodCleanupState

pub data PodCapacityBillingState : Type 0 where
  not_applicable pending authoritative unresolved : PodCapacityBillingState

pub data CatalogPodWorkloadState : Type 0 where
  not_submitted idle running cancel_requested succeeded : CatalogPodWorkloadState
  awaiting_ack acknowledged failed cancelled : CatalogPodWorkloadState

pub data CloudType : Type 0 where
  secure community : CloudType

abbrev pub is_released : TrainingPodState → Bool
is_released released = true
is_released _ = false

abbrev pub is_requested : TrainingPodState → Bool
is_requested requested = true
is_requested _ = false

abbrev pub is_starting : TrainingPodState → Bool
is_starting starting = true
is_starting _ = false

abbrev pub is_ready : TrainingPodState → Bool
is_ready ready = true
is_ready _ = false

abbrev pub is_job_submitted : TrainingPodState → Bool
is_job_submitted job_submitted = true
is_job_submitted _ = false

abbrev pub is_job_completed : TrainingPodState → Bool
is_job_completed job_completed = true
is_job_completed _ = false

abbrev pub is_releasing : TrainingPodState → Bool
is_releasing releasing = true
is_releasing _ = false

abbrev pub is_cancel_requested : TrainingPodState → Bool
is_cancel_requested TrainingPodState.cancel_requested = true
is_cancel_requested _ = false

-- The states that a reconciliation pass tears down again.
abbrev pub needs_teardown : TrainingPodState → Bool
needs_teardown releasing = true
needs_teardown TrainingPodState.cancel_requested = true
needs_teardown reconcile_required = true
needs_teardown result_retrieved = true
needs_teardown _ = false

abbrev pub is_created : TrainingPodSource → Bool
is_created created = true
is_created _ = false

abbrev pub is_preexisting_running : TrainingPodOwnership → Bool
is_preexisting_running preexisting_running = true
is_preexisting_running _ = false

abbrev pub is_complete : TrainingPodCleanupState → Bool
is_complete complete = true
is_complete _ = false

abbrev pub is_pending : PodCapacityBillingState → Bool
is_pending PodCapacityBillingState.pending = true
is_pending _ = false

abbrev pub is_authoritative : PodCapacityBillingState → Bool
is_authoritative authoritative = true
is_authoritative _ = false

-- The billing states that still wait for the provider.
abbrev pub is_unsettled : PodCapacityBillingState → Bool
is_unsettled PodCapacityBillingState.pending = true
is_unsettled unresolved = true
is_unsettled _ = false

abbrev pub is_awaiting_ack : CatalogPodWorkloadState → Bool
is_awaiting_ack awaiting_ack = true
is_awaiting_ack _ = false

abbrev pub is_acknowledged : CatalogPodWorkloadState → Bool
is_acknowledged acknowledged = true
is_acknowledged _ = false

abbrev pub cloud_eq : CloudType → CloudType → Bool
cloud_eq secure secure = true
cloud_eq community community = true
cloud_eq _ _ = false
