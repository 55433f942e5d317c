-- ===== src/Repository/Reserve.antt =====
-- The reservation of a lease (`SQLitePodCapacityRepository.reserve`).
use kestrel_cloud_runpod.Prelude.{
  ◌*◌, Option, none, some, ◌∷◌, Bool, true, false, not, ◌&&◌, ◌||◌, str_eq, is_none, if◌then◌else◌,
}
use kestrel_cloud_runpod.Capacity.States.{
  TrainingPodOwnership, TrainingPodState, TrainingPodCleanupState, PodCapacityBillingState,
  CatalogPodWorkloadState,
}
use kestrel_cloud_runpod.Capacity.Evidence.{PodCapacityEvidence, evidence_ready}
use kestrel_cloud_runpod.Capacity.Lease.{
  TrainingPodLease, TrainingPodRequest, PodCapacitySpec, cleanup_family_token,
}
use kestrel_cloud_runpod.Capacity.Errors.{conflict, value_error, Result, ok, raise}
use kestrel_cloud_runpod.Repository.Table.{Table, find, violates, lease_from_row}

-- `PodCapacityEvidence.from_spec`
unfoldable pub evidence_from_spec : PodCapacitySpec → PodCapacityEvidence
evidence_from_spec spec = record {
  schema_version = 1;
  capacity_id = r.capacity_id;
  resource_name = r.resource_name;
  provider_quote_id = r.quote.provider_quote_id;
  catalog_observed_at = r.quote.observed_at;
  attempt_id = r.attempt_id;
  request_sha256 = r.request_sha256;
  image_digest = r.image_digest;
  accepted_gpu_type_id = r.quote.gpu_type_id;
  accepted_gpu_display_name = r.quote.gpu_display_name;
  accepted_gpu_count = r.quote.constraints.gpu_count;
  accepted_cloud = r.quote.constraints.cloud;
  accepted_hourly_rate_usd = r.quote.hourly_cost_usd * r.quote.constraints.gpu_count;
  lifecycle = record {
    reservation_at = r.created_at;
    provider_create_accepted_at = none;
    provider_adopted_at = none;
    first_running_observed_at = none;
    worker_ready_at = none;
    workload_submitted_at = none;
    workload_running_at = none;
    workload_terminal_at = none;
    stop_confirmed_at = none;
    billing_reconciled_at = none;
  };
  realized_placement = none;
  worker = none;
  billing = none;
}
  where
    open spec use {request as r}

unfoldable pub initial_evidence : Option PodCapacitySpec → Option PodCapacityEvidence
unfolding evidence_from_spec
initial_evidence none = none
initial_evidence (some spec) = some (evidence_from_spec spec)

-- The `INSERT`, with the defaults of the columns that it leaves out.
unfoldable pub initial_row : TrainingPodRequest → TrainingPodLease
unfolding cleanup_family_token initial_evidence
initial_row r = record {
  cleanup_token = r.cleanup_token;
  root_cleanup_token = cleanup_family_token r;
  request_fingerprint = r.fingerprint;
  companion_id = r.companion_id;
  profile_id = r.profile_id;
  source = r.source;
  resource_name = r.resource_name;
  provider_pod_id = r.provider_pod_id;
  ownership = TrainingPodOwnership.provisional;
  state = TrainingPodState.requested;
  cleanup_state = TrainingPodCleanupState.not_requested;
  family_release_requested = false;
  family_release_complete = false;
  creation_uncertain = false;
  backend_base_url = none;
  provider_job_id = none;
  created_at = r.created_at;
  updated_at = r.created_at;
  last_heartbeat_at = r.created_at;
  readiness_deadline = r.readiness_deadline;
  hard_deadline = r.hard_deadline;
  last_provider_error = none;
  stop_attempts = 0;
  revision = 0;
  capacity_spec = r.capacity_spec;
  workload_state = CatalogPodWorkloadState.not_submitted;
  workload_error_type = none;
  billing_state =
      if is_none r.capacity_spec
      then PodCapacityBillingState.not_applicable
      else PodCapacityBillingState.pending;
  billing_receipt = none;
  terminated_at = none;
  evidence = initial_evidence r.capacity_spec;
  artifact_handoff = none;
}

-- What refuses a fallback attempt: its root is not persisted, or is releasing.
abbrev pub root_ready : Option TrainingPodLease → Bool
root_ready none = false
root_ready (some root) =
    str_eq root.root_cleanup_token root.cleanup_token && not root.family_release_requested

unfoldable pub family_ready : TrainingPodRequest → Table → Bool
unfolding find cleanup_family_token
family_ready r rows =
    str_eq (cleanup_family_token r) r.cleanup_token
    || root_ready (find (cleanup_family_token r) rows)

-- The check of the fingerprint, after the commit.
unfoldable pub reserved :
    TrainingPodRequest → Bool → TrainingPodLease → Result (TrainingPodLease × Bool)
unfolding lease_from_row
reserved r inserted row = elim (lease_from_row row) [
  | raise e ↦ raise e
  | ok lease ↦
      if str_eq lease.request_fingerprint r.fingerprint
      then ok (lease, inserted)
      else raise conflict
]

-- The `INSERT`: it fails on the primary key, where the persisted row is taken, or on an index.
unfoldable pub insert_row :
    TrainingPodRequest → Option TrainingPodLease → Table → Result (TrainingPodLease × Bool) × Table
unfolding violates initial_row reserved
insert_row r (some row) rows = (reserved r false row, rows)
insert_row r none rows =
    if violates (initial_row r) rows
    then (raise conflict, rows)
    else (reserved r true (initial_row r), initial_row r ∷ rows)

unfoldable pub reserve : TrainingPodRequest → Table → Result (TrainingPodLease × Bool) × Table
unfolding initial_evidence family_ready insert_row find
reserve r rows =
    if evidence_ready (initial_evidence r.capacity_spec)
    then (if family_ready r rows
        then insert_row r (find r.cleanup_token rows) rows
        else (raise conflict, rows))
    else (raise value_error, rows)
