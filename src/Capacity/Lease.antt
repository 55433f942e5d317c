-- ===== src/Capacity/Lease.antt =====
-- Requests, specifications and leases (kestrel_cloud_runpod/pod_capacity_contracts.py).
use kestrel_cloud_runpod.Prelude.{
  ℕ, String, Option, none, some, List, Bool, true, false, not, ◌&&◌, ◌||◌, ltb, ◌==◌, str_eq,
  is_none, if◌then◌else◌,
}
use kestrel_cloud_runpod.Capacity.States.{
  TrainingPodSource, TrainingPodOwnership, TrainingPodState, TrainingPodCleanupState,
  PodCapacityBillingState, CatalogPodWorkloadState, CloudType, is_released, is_created,
  is_authoritative, is_awaiting_ack, is_acknowledged, preexisting_running,
}
use kestrel_cloud_runpod.Placement.{PlacementDecision, ComputeProduct}
use kestrel_cloud_runpod.Capacity.Evidence.{PodBillingReceipt, PodCapacityEvidence, opt_receipt_eq}

pub record PodCapacityConstraints : Type 0 where
  pub min_vram_gb : ℕ
  pub gpu_count : ℕ
  pub cloud : CloudType
  pub min_cuda_version : Option String
  pub allowed_gpu_ids : List String
  pub allowed_data_center_ids : List String
  pub max_hourly_rate_usd : Option ℕ
  pub benchmark_id : String
  pub allowed_products : List ComputeProduct

pub record PodCapacityQuote : Type 0 where
  pub schema_version : ℕ
  pub capability_version : String
  pub provider_quote_id : String
  pub workload_kind : String
  pub parameters_sha256 : String
  pub constraints : PodCapacityConstraints
  pub gpu_type_id : String
  pub gpu_display_name : String
  pub hourly_cost_usd : ℕ
  pub estimated_cost_usd : ℕ
  pub cost_ceiling_usd : ℕ
  pub estimated_startup_seconds : ℕ
  pub estimated_execution_seconds : ℕ
  pub maximum_runtime_seconds : ℕ
  pub observed_at : ℕ
  pub expires_at : ℕ
  pub placement : PlacementDecision

-- `image_digest`, `resource_name` and `fingerprint` are the values that the source derives from the
-- other fields, the last two by SHA-256.
pub record CatalogPodCapacityRequest : Type 0 where
  pub capacity_id : String
  pub cleanup_family_id : String
  pub owner_id : String
  pub workload_id : String
  pub attempt_id : String
  pub idempotency_key : String
  pub request_sha256 : String
  pub workload_kind : String
  pub parameters_sha256 : String
  pub image_reference : String
  pub image_digest : String
  pub profile_id : String
  pub quote : PodCapacityQuote
  pub accepted_max_cost_usd : ℕ
  pub created_at : ℕ
  pub readiness_deadline : ℕ
  pub hard_deadline : ℕ
  pub bearer_expires_at : ℕ
  pub idle_timeout_seconds : ℕ
  pub cleanup_grace_seconds : ℕ
  pub artifact_handoff_protocol_version : Option ℕ
  pub resource_name : String
  pub fingerprint : String

pub record PodCapacitySpec : Type 0 where
  pub request : CatalogPodCapacityRequest
  pub capability_secret_id : String
  pub capability_token_sha256 : String
  pub capability_expires_at : ℕ
  pub attempt_environment_sha256 : String

-- `fingerprint` is the digest that the source's property computes with SHA-256.
pub record TrainingPodRequest : Type 0 where
  pub cleanup_token : String
  pub companion_id : String
  pub profile_id : String
  pub source : TrainingPodSource
  pub resource_name : String
  pub provider_pod_id : Option String
  pub created_at : ℕ
  pub readiness_deadline : ℕ
  pub hard_deadline : ℕ
  pub root_cleanup_token : Option String
  pub capacity_spec : Option PodCapacitySpec
  pub fingerprint : String

unfoldable pub cleanup_family_token : TrainingPodRequest → String
cleanup_family_token r = elim r.root_cleanup_token [ none ↦ r.cleanup_token | some root ↦ root ]

-- The identity that a catalog request fixes agrees with the lease request.
unfoldable pub catalog_identity : TrainingPodRequest → Option PodCapacitySpec → Bool
unfolding cleanup_family_token
catalog_identity r none = true
catalog_identity r (some spec) =
    is_created r.source
    && str_eq r.cleanup_token spec.request.capacity_id
    && str_eq (cleanup_family_token r) spec.request.cleanup_family_id
    && str_eq r.companion_id spec.request.owner_id
    && str_eq r.profile_id spec.request.profile_id
    && str_eq r.resource_name spec.request.resource_name
    && (r.created_at == spec.request.created_at)
    && (r.readiness_deadline == spec.request.readiness_deadline)
    && (r.hard_deadline == spec.request.hard_deadline)

-- `TrainingPodRequest.__post_init__`, without the patterns of the identifiers: false where it raises
-- `ValueError`.
unfoldable pub request_accepted : TrainingPodRequest → Bool
unfolding catalog_identity
request_accepted r =
    ltb r.created_at r.readiness_deadline
    && ltb r.readiness_deadline r.hard_deadline
    && (if is_created r.source then is_none r.provider_pod_id else not (is_none r.provider_pod_id))
    && catalog_identity r r.capacity_spec

pub record CatalogArtifactHandoffEvidence : Type 0 where
  pub attempt_id : String
  pub request_sha256 : String
  pub result_sha256 : String
  pub receipt_sha256 : String
  pub acknowledgement_sha256 : Option String
  pub acknowledgement_payload_sha256 : Option String
  pub remote_ack_observed_at : Option ℕ
  pub host_confirmation_declared_at : Option ℕ

pub record TrainingPodLease : Type 0 where
  pub cleanup_token : String
  pub root_cleanup_token : String
  pub request_fingerprint : String
  pub companion_id : String
  pub profile_id : String
  pub source : TrainingPodSource
  pub resource_name : String
  pub provider_pod_id : Option String
  pub ownership : TrainingPodOwnership
  pub state : TrainingPodState
  pub cleanup_state : TrainingPodCleanupState
  pub family_release_requested : Bool
  pub family_release_complete : Bool
  pub creation_uncertain : Bool
  pub backend_base_url : Option String
  pub provider_job_id : Option String
  pub created_at : ℕ
  pub updated_at : ℕ
  pub last_heartbeat_at : ℕ
  pub readiness_deadline : ℕ
  pub hard_deadline : ℕ
  pub last_provider_error : Option String
  pub stop_attempts : ℕ
  pub revision : ℕ
  pub capacity_spec : Option PodCapacitySpec
  pub workload_state : CatalogPodWorkloadState
  pub workload_error_type : Option String
  pub billing_state : PodCapacityBillingState
  pub billing_receipt : Option PodBillingReceipt
  pub terminated_at : Option ℕ
  pub evidence : Option PodCapacityEvidence
  pub artifact_handoff : Option CatalogArtifactHandoffEvidence

abbrev pub is_terminal : TrainingPodLease → Bool
is_terminal l = is_released l.state

abbrev pub is_catalog_attempt : TrainingPodLease → Bool
is_catalog_attempt l = not (is_none l.capacity_spec)

unfoldable pub owns_billing_capacity : TrainingPodLease → Bool
owns_billing_capacity l =
    elim l.ownership [ preexisting_running ↦ false | _ ↦ true ] && not (is_terminal l)

unfoldable pub settlement_ready : TrainingPodLease → Bool
settlement_ready l =
    is_terminal l && is_authoritative l.billing_state && not (is_none l.billing_receipt)

-- Handoff evidence belongs to a protocol-1 lease and names its attempt and request.
unfoldable pub handoff_bound : Option PodCapacitySpec → Option CatalogArtifactHandoffEvidence → Bool
handoff_bound spec none = true
handoff_bound none (some h) = false
handoff_bound (some spec) (some h) =
    elim spec.request.artifact_handoff_protocol_version [ none ↦ false | some v ↦ v == 1 ]
    && str_eq h.attempt_id spec.request.attempt_id
    && str_eq h.request_sha256 spec.request.request_sha256

-- A handoff phase has the proof that it claims.
unfoldable pub handoff_proved :
    CatalogPodWorkloadState → Option CatalogArtifactHandoffEvidence → Bool
handoff_proved w none = not (is_awaiting_ack w || is_acknowledged w)
handoff_proved w (some h) = not (is_acknowledged w) || not (is_none h.remote_ack_observed_at)

-- `TrainingPodLease.__post_init__`: false where it raises `ValueError`.
unfoldable pub lease_accepted : TrainingPodLease → Bool
unfolding handoff_bound handoff_proved
lease_accepted l =
    handoff_bound l.capacity_spec l.artifact_handoff
    && handoff_proved l.workload_state l.artifact_handoff

-- The check of `_lease_from_row` that the receipt column and the evidence column agree.
unfoldable pub receipts_agree : TrainingPodLease → Bool
receipts_agree l = elim l.evidence [
  | none ↦ true
  | some e ↦ opt_receipt_eq e.billing l.billing_receipt
]
