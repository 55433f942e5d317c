-- ===== src/Tests/Workload.antt =====
-- A catalog workload: observations, hand-offs and strangers.
use kestrel_cloud_runpod.Prelude.{
  ◌≡◌, ◌≤◌, ◌⊎◌, refl, none, some, [], ◌∷◌, ℕ, List, true, false, is_none,
}
use kestrel_cloud_runpod.Placement.{ComputeProduct, Availability}
use kestrel_cloud_runpod.Capacity.States.{TrainingPodState, CatalogPodWorkloadState, CloudType}
use kestrel_cloud_runpod.Capacity.Evidence.{CatalogWorkerEvidence, Phase}
use kestrel_cloud_runpod.Capacity.Lease.{
  PodCapacitySpec, TrainingPodLease, CatalogArtifactHandoffEvidence,
}
use kestrel_cloud_runpod.Capacity.Evidence
use kestrel_cloud_runpod.Capacity.Lease
use kestrel_cloud_runpod.Capacity.Errors.{ok}
use kestrel_cloud_runpod.Repository.Columns.{Change, assign_all}
use kestrel_cloud_runpod.Repository.Table
use kestrel_cloud_runpod.Service.World.{World, Acknowledgement, WorkloadObservation, arrive}
use kestrel_cloud_runpod.Service.Admission.{poll_catalog_readiness}
use kestrel_cloud_runpod.Service.Workload.{
  submit_catalog_workload, observe_catalog_workload, retrieve_catalog_result,
  record_catalog_worker_evidence,
}
use kestrel_cloud_runpod.Service.Workload.Handoff.{
  HandoffRecovery, release_catalog_result, acknowledge_catalog_result, recover_catalog_result,
  cancel_catalog_workload,
}
use kestrel_cloud_runpod.Service.Workload.Observation.{
  observation_changes, bind_acknowledgement, rank, rank_or_4,
}
use kestrel_cloud_runpod.Service.Workload.Observation
use kestrel_cloud_runpod.Service.Workload.Monotone.{
  SameBinding, observation_never_regresses, observation_keeps_handoff, acknowledgement_needs_intent,
  bind_acknowledgement_once,
}
use kestrel_cloud_runpod.Service.Workload.Access.{IsForeign, IsRefused, strangers_are-IsRefused}
use kestrel_cloud_runpod.Tests.Samples.{lease, evidence, environment, world}

abbrev spec : PodCapacitySpec
spec = record {
  request = record {
    capacity_id = "capacity";
    cleanup_family_id = "capacity";
    owner_id = "owner";
    workload_id = "workload";
    attempt_id = "attempt";
    idempotency_key = "key";
    request_sha256 = "request";
    workload_kind = "training";
    parameters_sha256 = "parameters";
    image_reference = "image@image";
    image_digest = "image";
    profile_id = "training";
    quote = record {
      schema_version = 3;
      capability_version = "runpod-pod-capacity-v1";
      provider_quote_id = "quote";
      workload_kind = "training";
      parameters_sha256 = "parameters";
      constraints = record {
        min_vram_gb = 24;
        gpu_count = 1;
        cloud = CloudType.secure;
        min_cuda_version = none;
        allowed_gpu_ids = [];
        allowed_data_center_ids = [];
        max_hourly_rate_usd = none;
        benchmark_id = "benchmark";
        allowed_products = ComputeProduct.pod ∷ [];
      };
      gpu_type_id = "gpu";
      gpu_display_name = "GPU";
      hourly_cost_usd = 500;
      estimated_cost_usd = 500;
      cost_ceiling_usd = 1000;
      estimated_startup_seconds = 1;
      estimated_execution_seconds = 1;
      maximum_runtime_seconds = 10;
      observed_at = 90;
      expires_at = 110;
      placement = record {
        gpu_id = "gpu";
        gpu_pool = none;
        gpu_name = "GPU";
        memory_gb = 24;
        cloud = CloudType.secure;
        gpu_count = 1;
        offered_cost_per_hr = 500;
        availability = none;
        catalog_observed_at = 90;
        requirements = record {
          product = ComputeProduct.pod;
          min_vram_gb = 24;
          gpu_count = 1;
          cloud = CloudType.secure;
          min_cuda_version = none;
          max_cost_per_hr = none;
          allowed_gpu_ids = [];
          allowed_gpu_pools = [];
          allowed_data_center_ids = [];
          minimum_availability = Availability.low;
          benchmark_id = some "benchmark";
        };
      };
    };
    accepted_max_cost_usd = 1000;
    created_at = 100;
    readiness_deadline = 200;
    hard_deadline = 300;
    bearer_expires_at = 300;
    idle_timeout_seconds = 60;
    cleanup_grace_seconds = 60;
    artifact_handoff_protocol_version = some 1;
    resource_name = "kestrel-capacity";
    fingerprint = "fingerprint-capacity";
  };
  capability_secret_id = "secret";
  capability_token_sha256 = "token";
  capability_expires_at = 300;
  attempt_environment_sha256 = "environment";
}

-- The evidence of a hand-off, with the intent of the host.
abbrev intended : CatalogArtifactHandoffEvidence
intended = record {
  attempt_id = "attempt";
  request_sha256 = "request";
  result_sha256 = "result";
  receipt_sha256 = "receipt";
  acknowledgement_sha256 = some "ack";
  acknowledgement_payload_sha256 = some "payload";
  remote_ack_observed_at = none;
  host_confirmation_declared_at = none;
}

abbrev running : TrainingPodLease
running = record (lease "capacity") {
  capacity_spec = some spec;
  state = TrainingPodState.job_completed;
  workload_state = CatalogPodWorkloadState.awaiting_ack;
  evidence = some (evidence none);
  artifact_handoff = some intended;
}

abbrev acknowledged : WorkloadObservation
acknowledged = record {
  attempt_id = "attempt";
  request_sha256 = some "request";
  state = CatalogPodWorkloadState.acknowledged;
  error_type = none;
  result_available = true;
  result_sha256 = some "result";
  receipt_sha256 = some "receipt";
  acknowledgement_sha256 = some "ack";
}

abbrev observed : CatalogArtifactHandoffEvidence
observed = record intended { remote_ack_observed_at = some 150 }

abbrev changes : List Change × List (Phase × ℕ)
changes =
    Observation.workload_changes 150 running acknowledged false
      (Observation.proof_changes (some observed) running.artifact_handoff)

taken : observation_changes 150 spec running acknowledged false ≡ ok changes
unfolding observation_changes
taken = refl

observation_never_regresses_example :
    rank_or_4 (rank running.workload_state)
    ≤ rank_or_4 (rank (assign_all changes.0 running).workload_state)
observation_never_regresses_example =
    observation_never_regresses 150 spec running acknowledged false taken

observation_keeps_handoff_example :
    (h' : CatalogArtifactHandoffEvidence) × ((assign_all changes.0 running).artifact_handoff
      ≡ some h')
    × SameBinding intended h'
observation_keeps_handoff_example =
    observation_keeps_handoff 150 spec running acknowledged false taken refl

written : (assign_all changes.0 running).artifact_handoff ≡ some observed
unfolding assign_all Observation.workload_changes Observation.proof_changes Observation.advance
written = refl

acknowledgement_needs_intent_example :
    (h : CatalogArtifactHandoffEvidence) × (running.artifact_handoff ≡ some h)
    × ((h.remote_ack_observed_at ≡ some 150)
        ⊎ ((is_none h.acknowledgement_sha256 ≡ false)
            × (h.acknowledgement_sha256 ≡ acknowledged.acknowledgement_sha256)))
acknowledgement_needs_intent_example =
    acknowledgement_needs_intent 150 spec running acknowledged false taken written refl

abbrev host : Acknowledgement
host = record {
  attempt_id = some "attempt";
  request_sha256 = some "request";
  result_sha256 = some "result";
  receipt_sha256 = some "receipt";
  acknowledgement_sha256 = some "ack";
  payload_sha256 = "payload";
}

abbrev bare : CatalogArtifactHandoffEvidence
bare = record intended { acknowledgement_sha256 = none; acknowledgement_payload_sha256 = none }

bound_bare : bind_acknowledgement bare host ≡ some intended
unfolding bind_acknowledgement
bound_bare = refl

bound_again : bind_acknowledgement intended host ≡ some intended
unfolding bind_acknowledgement
bound_again = refl

bind_acknowledgement_once_example :
    (host.acknowledgement_sha256 ≡ host.acknowledgement_sha256)
    × (host.payload_sha256 ≡ host.payload_sha256)
    × (intended.acknowledgement_sha256 ≡ intended.acknowledgement_sha256)
bind_acknowledgement_once_example = bind_acknowledgement_once bare host host bound_bare bound_again

abbrev w : World
w = world (running ∷ [])

stored : Table.get "capacity" (arrive w.peers w.rows) ≡ ok (some running)
unfolding Table.get Lease.lease_accepted Lease.receipts_agree Evidence.evidence_accepted
stored = refl

foreign : IsForeign w "capacity" "stranger" "workload"
foreign = record { lease = running; spec = spec; found = stored; spec_of = refl; differs = refl }

abbrev worker : CatalogWorkerEvidence
worker = record {
  schema_version = 1;
  attempt_id = "attempt";
  request_sha256 = "request";
  image_digest = "image";
  container_process_started_at = none;
  image_pull_and_container_boot_seconds = none;
  image_pull_seconds = none;
  container_boot_seconds = none;
  model_load_seconds = none;
  execution_seconds = none;
  training_seconds = none;
  artifact_upload_seconds = none;
  peak_vram_bytes = none;
  peak_host_ram_bytes = none;
  gpu_seconds = none;
  idle_seconds = none;
}

abbrev recovery : HandoffRecovery
recovery = record {
  acknowledgement = host;
  protocol_version = some 1;
  receipt_attempt_id = some "attempt";
  receipt_request_sha256 = some "request";
  receipt_result_sha256 = some "result";
  receipt_receipt_sha256 = some "receipt";
  receipt_image_digest = some "image";
  result_dispatch_attempt_id = some "attempt";
  result_request_sha256 = some "request";
}

strangers_are-IsRefused_example :
    IsRefused w (poll_catalog_readiness (environment 3) "capacity" "stranger" "workload" w)
    × IsRefused w (submit_catalog_workload (environment 3) "capacity" "stranger" "workload" w)
    × IsRefused w (observe_catalog_workload (environment 3) "capacity" "stranger" "workload" w)
    × IsRefused w (retrieve_catalog_result (environment 3) "capacity" "stranger" "workload" w)
    × IsRefused w
        (record_catalog_worker_evidence (environment 3) "capacity" "stranger" "workload" worker w)
    × IsRefused w
        (acknowledge_catalog_result (environment 3) "capacity" "stranger" "workload" (some host) w)
    × IsRefused w
        (recover_catalog_result (environment 3) "capacity" "stranger" "workload" recovery w)
    × IsRefused w
        (release_catalog_result (environment 3) "capacity" "stranger" "workload" (some "ack") w)
    × IsRefused w (cancel_catalog_workload (environment 3) "capacity" "stranger" "workload" w)
strangers_are-IsRefused_example =
    strangers_are-IsRefused (environment 3) w "capacity" "stranger" "workload" worker (some host)
      recovery (some "ack") foreign
