-- ===== src/Tests/Samples.antt =====
-- Sample requests, rows and environments.
use kestrel_cloud_runpod.Prelude.{ℕ, String, Option, none, some, [], true, false}
use Prim.Native.String.{◌++◌ as append}
use kestrel_cloud_runpod.Capacity.States.{
  TrainingPodSource, TrainingPodOwnership, TrainingPodState, TrainingPodCleanupState,
  PodCapacityBillingState, CatalogPodWorkloadState, CloudType,
}
use kestrel_cloud_runpod.Capacity.Evidence.{PodCapacityEvidence}
use kestrel_cloud_runpod.Capacity.Lease.{TrainingPodRequest, TrainingPodLease}
use kestrel_cloud_runpod.Capacity.Errors.{ok, raise, manager}
use kestrel_cloud_runpod.Repository.Table.{Table}
use kestrel_cloud_runpod.Service.World.{Environment, World}

-- A legacy request that creates a Pod.
abbrev pub request : String → TrainingPodRequest
request token = record {
  cleanup_token = token;
  companion_id = "companion";
  profile_id = "training";
  source = TrainingPodSource.created;
  resource_name = append "kestrel-training-" token;
  provider_pod_id = none;
  created_at = 100;
  readiness_deadline = 200;
  hard_deadline = 300;
  root_cleanup_token = none;
  capacity_spec = none;
  fingerprint = append "fingerprint-" token;
}

abbrev pub lease : String → TrainingPodLease
lease token = record {
  cleanup_token = token;
  root_cleanup_token = token;
  request_fingerprint = append "fingerprint-" token;
  companion_id = "companion";
  profile_id = "training";
  source = TrainingPodSource.created;
  resource_name = append "kestrel-training-" token;
  provider_pod_id = some (append "pod-" token);
  ownership = TrainingPodOwnership.owned;
  state = TrainingPodState.ready;
  cleanup_state = TrainingPodCleanupState.not_requested;
  family_release_requested = false;
  family_release_complete = false;
  creation_uncertain = false;
  backend_base_url = none;
  provider_job_id = none;
  created_at = 100;
  updated_at = 120;
  last_heartbeat_at = 120;
  readiness_deadline = 200;
  hard_deadline = 300;
  last_provider_error = none;
  stop_attempts = 0;
  revision = 4;
  capacity_spec = none;
  workload_state = CatalogPodWorkloadState.not_submitted;
  workload_error_type = none;
  billing_state = PodCapacityBillingState.not_applicable;
  billing_receipt = none;
  terminated_at = none;
  evidence = none;
  artifact_handoff = none;
}

abbrev pub released : String → TrainingPodLease
released token = record (lease token) {
  state = TrainingPodState.released;
  cleanup_state = TrainingPodCleanupState.complete;
}

-- A catalog evidence value with a phase on record, and one without.
abbrev pub evidence : Option ℕ → PodCapacityEvidence
evidence started = record {
  schema_version = 1;
  capacity_id = "capacity";
  resource_name = "kestrel-capacity";
  provider_quote_id = "quote";
  catalog_observed_at = 90;
  attempt_id = "attempt";
  request_sha256 = "request";
  image_digest = "image";
  accepted_gpu_type_id = "gpu";
  accepted_gpu_display_name = "GPU";
  accepted_gpu_count = 1;
  accepted_cloud = CloudType.secure;
  accepted_hourly_rate_usd = 500;
  lifecycle = record {
    reservation_at = 100;
    provider_create_accepted_at = started;
    provider_adopted_at = none;
    first_running_observed_at = none;
    worker_ready_at = none;
    workload_submitted_at = none;
    workload_running_at = none;
    workload_terminal_at = none;
    stop_confirmed_at = none;
    billing_reconciled_at = none;
  };
  realized_placement = none;
  worker = none;
  billing = none;
}

-- A provider that does what it is asked, for runs with `fuel` rounds.
abbrev pub environment : ℕ → Environment
environment fuel = record {
  clock = λ n. 150;
  utc_now = λ n. 150;
  observe = λ n pod. ok (record {
    is_running = true;
    is_stopped = false;
    is_failed = false;
    backend_base_url = none;
  });
  start = λ n pod. ok tt;
  create = λ n l. ok (record { provider_pod_id = "pod"; realized_placement = none });
  find_by_name = λ n name. ok (some "pod");
  find_exact = λ n name spec. ok none;
  stop = λ n pod. ok true;
  terminate = λ n pod. ok true;
  final_billing = λ n l rate. ok none;
  revoke = λ n attempt. ok tt;
  health = λ n url. ok tt;
  sleep = λ n. ok tt;
  load_or_create =
      λ n attempt t. ok (record { secret_id = "secret"; token_sha256 = "token"; expires_at = t });
  load_capability = λ n attempt. ok none;
  submit = λ n attempt. raise manager;
  status = λ n attempt. raise manager;
  result = λ n attempt. raise manager;
  acknowledge = λ n attempt a. raise manager;
  recover_handoff = λ n attempt a. raise manager;
  cancel = λ n attempt. ok tt;
  workload_status_observer = none;
  sha256 = λ s. s;
  profile_ids = [];
  fallback_token = λ root profile. append root profile;
  has_capability_store = true;
  has_workload_transport = true;
  orphan_timeout_seconds = 3600;
  fuel = fuel;
}

abbrev pub world : Table → World
world rows = record { rows = rows; peers = []; ticks = 0; calls = [] }
