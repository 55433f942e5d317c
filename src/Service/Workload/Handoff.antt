-- ===== src/Service/Workload/Handoff.antt =====
-- The hand-off of a catalog result: acknowledgement, recovery, release and cancellation.
use kestrel_cloud_runpod.Prelude.{
  ℕ, zero, suc, String, Option, none, some, List, [], ◌∷◌, ◌++◌, Bool, true, false, not, ◌&&◌, ◌||◌,
  leb, ◌==◌, opt_str_eq, is_none, if◌then◌else◌,
}
use kestrel_cloud_runpod.Capacity.States.{
  TrainingPodState, CatalogPodWorkloadState, is_job_completed, is_releasing, is_acknowledged,
}
use kestrel_cloud_runpod.Capacity.Lease.{
  TrainingPodLease, CatalogArtifactHandoffEvidence, is_terminal,
}
use kestrel_cloud_runpod.Capacity.Errors.{
  manager, conflict, value_error, out_of_fuel, is_manager_error, is_conflict,
}
use kestrel_cloud_runpod.Repository.Columns.{Change}
use kestrel_cloud_runpod.Repository.Columns
use kestrel_cloud_runpod.Service.World.{
  Environment, Action, Call, Acknowledgement, WorkloadObservation, pure, throw, ◌>>=◌, ◌>>◌,
  try_else, when◌run◌otherwise◌, ask, now, compare_and_set,
}
use kestrel_cloud_runpod.Service.Settlement.{or_raise, require, capacity_spec}
use kestrel_cloud_runpod.Service.Mutations.{refuse, record_operation_error, is_protocol_1}
use kestrel_cloud_runpod.Service.Family.{release}
use kestrel_cloud_runpod.Service.Admission.{get_catalog_capacity, load_capability}
use kestrel_cloud_runpod.Service.Workload.Observation.{bind_acknowledgement}
use kestrel_cloud_runpod.Service.Workload.{route, catalog_result_ready, record_catalog_observation}

-- What `snapshot_catalog_handoff_recovery` reads of a recovery payload.
pub record HandoffRecovery : Type 0 where
  pub acknowledgement : Acknowledgement
  pub protocol_version : Option ℕ
  pub receipt_attempt_id : Option String
  pub receipt_request_sha256 : Option String
  pub receipt_result_sha256 : Option String
  pub receipt_receipt_sha256 : Option String
  pub receipt_image_digest : Option String
  pub result_dispatch_attempt_id : Option String
  pub result_request_sha256 : Option String

-- `snapshot_catalog_handoff_recovery`, without the patterns of digests: false where it raises.
unfoldable pub recovery_accepted : HandoffRecovery → String → String → String → Bool
recovery_accepted r attempt_id request_sha256 image_digest =
    not (is_none a.result_sha256)
    && not (is_none a.receipt_sha256)
    && not (is_none a.acknowledgement_sha256)
    && elim r.protocol_version [ none ↦ false | some v ↦ v == 1 ]
    && opt_str_eq r.receipt_attempt_id (some attempt_id)
    && opt_str_eq r.receipt_request_sha256 (some request_sha256)
    && opt_str_eq r.result_dispatch_attempt_id (some attempt_id)
    && opt_str_eq r.result_request_sha256 (some request_sha256)
    && opt_str_eq a.attempt_id (some attempt_id)
    && opt_str_eq a.request_sha256 (some request_sha256)
    && opt_str_eq r.receipt_result_sha256 a.result_sha256
    && opt_str_eq r.receipt_receipt_sha256 a.receipt_sha256
    && opt_str_eq r.receipt_image_digest (some image_digest)
  where
    a : Acknowledgement
    a = r.acknowledgement

-- `evidence is None or evidence.host_confirmation_declared_at is None`
abbrev undeclared : Option CatalogArtifactHandoffEvidence → Bool
undeclared none = true
undeclared (some h) = is_none h.host_confirmation_declared_at

-- The remote acknowledgement was observed, and is the one that the host confirms.
abbrev pub confirmed : Option CatalogArtifactHandoffEvidence → Option String → Bool
confirmed none digest = false
confirmed (some h) digest =
    not (is_none h.remote_ack_observed_at) && opt_str_eq digest h.acknowledgement_sha256

abbrev is_result_retrieved : TrainingPodState → Bool
is_result_retrieved TrainingPodState.result_retrieved = true
is_result_retrieved _ = false

module _ (env : Environment) where
  -- `_require_catalog_ack_admission`
  unfoldable pub require_ack_admission : TrainingPodLease → Action (Unit {0})
  require_ack_admission lease =
      refuse (is_terminal lease || not (is_job_completed lease.state)) manager >>= λ _.
      catalog_result_ready lease >>= λ ready.
      require ready >>= λ _. now env >>= λ t. refuse (leb lease.hard_deadline t) manager

  -- `transport.acknowledge`, or `transport.recover_handoff`
  unfoldable pub deliver : Bool → String → Acknowledgement → Action WorkloadObservation
  deliver false attempt a = ask (Call.acknowledge attempt) (λ n. env.acknowledge n attempt a)
  deliver true attempt a = ask (Call.recover_handoff attempt) (λ n. env.recover_handoff n attempt a)

  -- What follows the persisted intent: the delivery, and the observed proof.
  unfoldable pub dispatch_ack :
      String → String → String → Acknowledgement → Bool → TrainingPodLease → Action TrainingPodLease
  dispatch_ack capacity_id owner_id workload_id a recovery lease = do
    spec ← capacity_spec lease
    load_capability env spec
    current ← get_catalog_capacity capacity_id owner_id workload_id
    require_ack_admission current
    require env.has_workload_transport
    route current
    o ← deliver recovery spec.request.attempt_id a
    refuse (not (is_acknowledged o.state)) conflict
    record_catalog_observation env capacity_id o false

  -- The intent is persisted before it is delivered; a proof that is on record is returned at once.
  unfoldable pub intend_ack :
      String
      → String
      → String
      → Acknowledgement
      → Bool
      → TrainingPodLease
      → CatalogArtifactHandoffEvidence
      → Action TrainingPodLease
      → Action TrainingPodLease
  intend_ack capacity_id owner_id workload_id a recovery lease intent again =
      when not (is_none intent.remote_ack_observed_at)
      run pure lease
      otherwise (require_ack_admission lease >>= λ _.
          try_else (compare_and_set env lease (Columns.artifact_handoff_json (some intent) ∷ []))
            (dispatch_ack capacity_id owner_id workload_id a recovery) is_conflict (λ _. again))

  unfoldable pub bound_intent :
      Option CatalogArtifactHandoffEvidence → Action CatalogArtifactHandoffEvidence
  bound_intent none = throw conflict
  bound_intent (some intent) = pure intent

  -- `_acknowledge_catalog_result`, its loop on fuel.
  unfoldable pub acknowledge_loop :
      ℕ → String → String → String → Acknowledgement → Bool → Action TrainingPodLease
  acknowledge_loop zero capacity_id owner_id workload_id a recovery = throw out_of_fuel
  acknowledge_loop (suc n) capacity_id owner_id workload_id a recovery = do
    lease ← get_catalog_capacity capacity_id owner_id workload_id
    evidence ← or_raise lease.artifact_handoff
    intent ← bound_intent (bind_acknowledgement evidence a)
    intend_ack capacity_id owner_id workload_id a recovery lease intent
        (acknowledge_loop n capacity_id owner_id workload_id a recovery)

  -- The host's confirmation: the first declaration stays.
  unfoldable pub declare : CatalogArtifactHandoffEvidence → Option ℕ → Action (List Change)
  declare h (some t) = pure (Columns.artifact_handoff_json (some h) ∷ [])
  declare h none = now env >>= λ t. pure (
      Columns.artifact_handoff_json (some (record h { host_confirmation_declared_at = some t }))
      ∷ [])

  unfoldable pub confirmation : Bool → Option CatalogArtifactHandoffEvidence → Action (List Change)
  confirmation true (some h) = declare h h.host_confirmation_declared_at
  confirmation _ _ = pure []

  unfoldable pub mark_retrieved : Bool → TrainingPodLease → Action TrainingPodLease
  mark_retrieved protocol_1 lease =
      when is_job_completed lease.state
      run (confirmation protocol_1 lease.artifact_handoff >>= λ declared. now env >>= λ t.
          compare_and_set env lease (
            declared
            ++ (Columns.state TrainingPodState.result_retrieved
                ∷ Columns.last_heartbeat_at t
                ∷ Columns.last_provider_error none
                ∷ [])))
      otherwise (require (is_result_retrieved lease.state || is_releasing lease.state) >>= λ _.
          refuse (protocol_1 && undeclared lease.artifact_handoff) conflict >>= λ _. pure lease)

  -- `release_catalog_result`
  unfoldable pub release_catalog_result :
      String → String → String → Option String → Action TrainingPodLease
  release_catalog_result capacity_id owner_id workload_id digest =
      get_catalog_capacity capacity_id owner_id workload_id >>= λ lease.
      capacity_spec lease >>= λ spec.
      refuse
        (if is_protocol_1 (some spec)
          then not (confirmed lease.artifact_handoff digest)
          else not (is_none digest))
        conflict
      >>= λ _. catalog_result_ready lease >>= λ ready. require ready >>= λ _.
          when is_terminal lease
          run (refuse (is_protocol_1 (some spec) && undeclared lease.artifact_handoff) conflict
              >>= λ _. pure lease)
          otherwise (mark_retrieved (is_protocol_1 (some spec)) lease >>= λ _.
              release env capacity_id "catalog result durably confirmed by host")

  unfoldable pub acknowledge_protocol :
      String → String → String → Option Acknowledgement → Option ℕ → Action TrainingPodLease
  acknowledge_protocol capacity_id owner_id workload_id a none =
      refuse (not (is_none a)) manager >>= λ _.
      release_catalog_result capacity_id owner_id workload_id none
  acknowledge_protocol capacity_id owner_id workload_id none (some v) = throw manager
  acknowledge_protocol capacity_id owner_id workload_id (some a) (some v) =
      acknowledge_loop env.fuel capacity_id owner_id workload_id a false

  -- `acknowledge_catalog_result`, on an acknowledgement that is canonical JSON.
  unfoldable pub acknowledge_catalog_result :
      String → String → String → Option Acknowledgement → Action TrainingPodLease
  acknowledge_catalog_result capacity_id owner_id workload_id a = do
    lease ← get_catalog_capacity capacity_id owner_id workload_id
    spec ← capacity_spec lease
    acknowledge_protocol capacity_id owner_id workload_id a
        spec.request.artifact_handoff_protocol_version

  -- `recover_catalog_result`
  unfoldable pub recover_catalog_result :
      String → String → String → HandoffRecovery → Action TrainingPodLease
  recover_catalog_result capacity_id owner_id workload_id r = do
    lease ← get_catalog_capacity capacity_id owner_id workload_id
    spec ← capacity_spec lease
    require (is_protocol_1 (some spec))
    refuse
        (not (
          recovery_accepted r spec.request.attempt_id spec.request.request_sha256
            spec.request.image_digest))
        value_error
    acknowledge_loop env.fuel capacity_id owner_id workload_id r.acknowledgement true

  unfoldable pub send_cancel : TrainingPodLease → Action (Unit {0})
  send_cancel lease = do
    spec ← capacity_spec lease
    load_capability env spec
    require env.has_workload_transport
    ask (Call.cancel spec.request.attempt_id) (λ n. env.cancel n spec.request.attempt_id)

  -- The cancel call may fail: it is recorded, and the capacity is torn down all the same.
  unfoldable pub cancel_remote : TrainingPodLease → Action TrainingPodLease
  cancel_remote lease =
      when is_none lease.backend_base_url
      run release env lease.cleanup_token "catalog cancellation"
      otherwise try_else (send_cancel lease)
          (λ _. release env lease.cleanup_token "catalog cancellation") is_manager_error
          (λ e. record_operation_error env lease.cleanup_token e >>= λ _.
            release env lease.cleanup_token "catalog cancellation")

  -- `cancel_catalog_workload`
  unfoldable pub cancel_catalog_workload : String → String → String → Action TrainingPodLease
  cancel_catalog_workload capacity_id owner_id workload_id =
      get_catalog_capacity capacity_id owner_id workload_id >>= λ lease.
      when is_terminal lease
      run pure lease
      otherwise (now env >>= λ t.
          compare_and_set env lease (
            Columns.state TrainingPodState.cancel_requested
            ∷ Columns.workload_state CatalogPodWorkloadState.cancel_requested
            ∷ Columns.last_heartbeat_at t
            ∷ [])
          >>= λ cancelled. cancel_remote cancelled)
