-- ===== src/Service/Workload.antt =====
-- The catalog workload: submission, observation, result, hand-off and cancellation.
pub mod Observation
pub mod Handoff
pub mod Monotone
pub mod Access
use kestrel_cloud_runpod.Prelude.{
  ℕ, zero, suc, String, Option, none, some, List, [], ◌∷◌, ◌++◌, Bool, true, false, not, ◌&&◌, ◌||◌,
  ltb, leb, ◌==◌, str_eq, opt_str_eq, is_none, or_else, if◌then◌else◌,
}
use kestrel_cloud_runpod.Capacity.States.{
  TrainingPodState, CatalogPodWorkloadState, is_ready, is_job_submitted, is_job_completed,
  is_releasing,
}
use kestrel_cloud_runpod.Capacity.Evidence.{
  Phase, CatalogWorkerEvidence, PodCapacityEvidence, worker_eq,
}
use kestrel_cloud_runpod.Capacity.Lease.{
  TrainingPodLease, PodCapacitySpec, CatalogArtifactHandoffEvidence, is_terminal,
}
use kestrel_cloud_runpod.Capacity.Errors.{
  Error, manager, conflict, out_of_fuel, is_manager_error, is_conflict,
}
use kestrel_cloud_runpod.Repository.Columns.{Change}
use kestrel_cloud_runpod.Repository.Columns
use kestrel_cloud_runpod.Service.World.{
  Environment, Action, Call, Capability, WorkloadObservation, ResultPayload, Acknowledgement, pure,
  throw, ◌>>=◌, ◌>>◌, try_except, try_else, when◌run◌otherwise◌, ask, now, compare_and_set,
  required,
}
use kestrel_cloud_runpod.Service.Transitions.{
  Observed, nothing_observed, saw, given, lift, persisted_changes, transition_with_evidence,
}
use kestrel_cloud_runpod.Service.Settlement.{or_raise, require, capacity_spec}
use kestrel_cloud_runpod.Service.Release.{nonempty}
use kestrel_cloud_runpod.Service.Mutations.{
  refuse, heartbeat, record_operation_error, is_protocol_1,
}
use kestrel_cloud_runpod.Service.Family.{release}
use kestrel_cloud_runpod.Service.Admission.{get_catalog_capacity, load_capability}
use kestrel_cloud_runpod.Service.Workload.Observation.{
  is_succeeded, is_cancelling, is_handoff, observation_changes, bind_acknowledgement,
}

-- `_route`
unfoldable pub route : TrainingPodLease → Action String
route lease = or_raise (nonempty lease.backend_base_url)

-- `_catalog_result_ready`, for a catalog lease.
abbrev pub result_ready : Option ℕ → CatalogPodWorkloadState → Bool
result_ready none w = is_succeeded w
result_ready (some v) w = is_handoff w

unfoldable pub catalog_result_ready : TrainingPodLease → Action Bool
catalog_result_ready lease = capacity_spec lease >>= λ spec.
    pure (result_ready spec.request.artifact_handoff_protocol_version lease.workload_state)

abbrev pub is_failed_workload : CatalogPodWorkloadState → Bool
is_failed_workload CatalogPodWorkloadState.failed = true
is_failed_workload CatalogPodWorkloadState.cancelled = true
is_failed_workload _ = false

module _ (env : Environment) where
  -- One write of `_record_catalog_observation`: a released lease keeps what was observed.
  unfoldable pub write_observation :
      TrainingPodLease → List Change → List (Phase × ℕ) → Action TrainingPodLease
  write_observation lease changes lifecycle =
      when is_terminal lease
      run compare_and_set env lease changes
      otherwise (lift (persisted_changes changes (saw lifecycle) lease.evidence) >>= λ persisted.
          compare_and_set env lease persisted)

  -- What an observation changes: it belongs to the attempt, or it is refused.
  unfoldable pub changes_of :
      TrainingPodLease → WorkloadObservation → Bool → Action (List Change × List (Phase × ℕ))
  changes_of lease o submitted = do
    spec ← capacity_spec lease
    refuse
        (not (str_eq o.attempt_id spec.request.attempt_id)
          || not (opt_str_eq o.request_sha256 (some spec.request.request_sha256)))
        conflict
    t ← now env
    lift (observation_changes t spec lease o submitted)

  -- `if not changes: return lease`, or the write, on a conflict the handler.
  unfoldable pub apply_changes :
      TrainingPodLease
      → Action TrainingPodLease
      → List Change × List (Phase × ℕ)
      → Action TrainingPodLease
  apply_changes lease again ([], lifecycle) = pure lease
  apply_changes lease again (c ∷ cs, lifecycle) =
      try_except (write_observation lease (c ∷ cs) lifecycle) is_conflict (λ _. again)

  -- The loop of `_record_catalog_observation`, on fuel.
  unfoldable pub observation_loop :
      ℕ → String → WorkloadObservation → Bool → Action TrainingPodLease
  observation_loop zero capacity_id o submitted = throw out_of_fuel
  observation_loop (suc n) capacity_id o submitted = do
    lease ← required capacity_id
    changes ← changes_of lease o submitted
    apply_changes lease (observation_loop n capacity_id o submitted) changes

  -- `_record_catalog_observation`
  unfoldable pub record_catalog_observation :
      String → WorkloadObservation → Bool → Action TrainingPodLease
  record_catalog_observation capacity_id o submitted =
      observation_loop env.fuel capacity_id o submitted

  -- `_submission_lease`
  unfoldable pub submission_lease : String → String → String → Action TrainingPodLease
  submission_lease capacity_id owner_id workload_id = do
    lease ← get_catalog_capacity capacity_id owner_id workload_id
    require (is_protocol_1 lease.capacity_spec)
    require (is_ready lease.state || is_job_submitted lease.state)
    t ← now env
    refuse (leb lease.hard_deadline t) manager
    pure lease

  -- `submit_catalog_workload`
  unfoldable pub submit_catalog_workload : String → String → String → Action WorkloadObservation
  submit_catalog_workload capacity_id owner_id workload_id = do
    admitted ← submission_lease capacity_id owner_id workload_id
    spec ← capacity_spec admitted
    load_capability env spec
    lease ← submission_lease capacity_id owner_id workload_id
    require env.has_workload_transport
    route lease
    o ← ask (Call.submit spec.request.attempt_id) (λ n. env.submit n spec.request.attempt_id)
    record_catalog_observation lease.cleanup_token o true
    pure o

  -- What follows an observation: a workload that is cancelled or failed is torn down.
  unfoldable pub after_observation :
      String → WorkloadObservation → TrainingPodLease → Action WorkloadObservation
  after_observation capacity_id o updated =
      when is_cancelling updated.workload_state
      run (release env capacity_id "cancelled catalog attempt" >>= λ _. pure (record o {
        state = CatalogPodWorkloadState.cancel_requested;
        error_type = none;
        result_available = false;
        result_sha256 = none;
        receipt_sha256 = none;
        acknowledgement_sha256 = none;
      }))
      otherwise when is_failed_workload updated.workload_state
      run (release env capacity_id "terminal catalog workload" >>= λ _. pure o)
      otherwise pure o

  -- `observe_catalog_workload`
  unfoldable pub observe_catalog_workload : String → String → String → Action WorkloadObservation
  observe_catalog_workload capacity_id owner_id workload_id = do
    lease ← get_catalog_capacity capacity_id owner_id workload_id
    spec ← capacity_spec lease
    load_capability env spec
    require env.has_workload_transport
    route lease
    o ← ask (Call.status spec.request.attempt_id) (λ n. env.status n spec.request.attempt_id)
    updated ← record_catalog_observation capacity_id o false
    after_observation capacity_id o updated

  -- The receipt of a protocol-1 result is the one of the observed hand-off.
  abbrev receipt_agrees :
      Option (Option String × Option String) → Option CatalogArtifactHandoffEvidence → Bool
  receipt_agrees none h = false
  receipt_agrees (some r) none = false
  receipt_agrees (some (result, receipt)) (some h) =
      opt_str_eq result (some h.result_sha256) && opt_str_eq receipt (some h.receipt_sha256)

  -- What follows the transfer of a result.
  unfoldable pub accept_result :
      String → PodCapacitySpec → ResultPayload → TrainingPodLease → Action ResultPayload
  accept_result capacity_id spec payload current =
      when is_cancelling current.workload_state
      run (release env capacity_id "late result after cancellation" >>= λ _. throw manager)
      otherwise (refuse
            (is_protocol_1 (some spec)
              && not (receipt_agrees payload.receipt current.artifact_handoff))
            conflict
          >>= λ _. pure payload)

  -- `retrieve_catalog_result`
  unfoldable pub retrieve_catalog_result : String → String → String → Action ResultPayload
  retrieve_catalog_result capacity_id owner_id workload_id = do
    lease ← get_catalog_capacity capacity_id owner_id workload_id
    ready ← catalog_result_ready lease
    require ready
    spec ← capacity_spec lease
    load_capability env spec
    beaten ← heartbeat env lease.cleanup_token
    require env.has_workload_transport
    route beaten
    payload ← ask (Call.result spec.request.attempt_id) (λ n. env.result n spec.request.attempt_id)
    current ← required capacity_id
    accept_result capacity_id spec payload current

  abbrev differs_from : CatalogWorkerEvidence → Option CatalogWorkerEvidence → Bool
  differs_from worker none = false
  differs_from worker (some w) = not (worker_eq w worker)

  abbrev starts_after : ℕ → Option ℕ → Bool
  starts_after t none = false
  starts_after t (some started) = ltb t started

  -- The end of `record_catalog_worker_evidence`.
  unfoldable pub add_worker :
      TrainingPodLease → CatalogWorkerEvidence → PodCapacityEvidence → Action TrainingPodLease
  add_worker lease worker evidence = refuse (differs_from worker evidence.worker) conflict >>= λ _.
      when not (is_none evidence.worker)
      run pure lease
      otherwise (refuse (is_terminal lease) manager >>= λ _. now env >>= λ t.
          transition_with_evidence env lease (Columns.last_heartbeat_at t ∷ [])
            (record nothing_observed { worker = given worker }) none)

  -- The clock is read only for a worker that says when its process started.
  unfoldable pub check_start : Option ℕ → Action (Unit {0})
  check_start none = pure tt
  check_start (some started) = now env >>= λ t. refuse (starts_after t (some started)) manager

  -- `record_catalog_worker_evidence`, on the envelope that was parsed.
  unfoldable pub record_catalog_worker_evidence :
      String → String → String → CatalogWorkerEvidence → Action TrainingPodLease
  record_catalog_worker_evidence capacity_id owner_id workload_id worker = do
    lease ← get_catalog_capacity capacity_id owner_id workload_id
    spec ← capacity_spec lease
    evidence ← or_raise lease.evidence
    refuse
        (not (str_eq worker.attempt_id spec.request.attempt_id)
          || not (str_eq worker.request_sha256 spec.request.request_sha256)
          || not (str_eq worker.image_digest spec.request.image_digest))
        conflict
    ready ← catalog_result_ready lease
    require ready
    check_start worker.container_process_started_at
    add_worker lease worker evidence
