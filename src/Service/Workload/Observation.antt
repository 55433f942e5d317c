-- ===== src/Service/Workload/Observation.antt =====
-- What the service makes of an observed workload state: `_catalog_observation_changes`, and the
-- binding of an acknowledgement.
use kestrel_cloud_runpod.Prelude.{
  ℕ, String, Option, none, some, List, [], ◌∷◌, ◌++◌, Bool, true, false, not, ◌&&◌, ◌||◌, ltb, ◌==◌,
  str_eq, opt_str_eq, opt_nat_eq, is_none, or_else, if◌then◌else◌,
}
use kestrel_cloud_runpod.Capacity.States.{
  TrainingPodState, CatalogPodWorkloadState, is_awaiting_ack, is_acknowledged, is_ready,
  is_job_submitted, is_job_completed,
}
use kestrel_cloud_runpod.Capacity.Evidence.{
  Phase, workload_submitted_at, workload_running_at, workload_terminal_at,
}
use kestrel_cloud_runpod.Capacity.Lease.{
  TrainingPodLease, PodCapacitySpec, CatalogArtifactHandoffEvidence, is_terminal,
}
use kestrel_cloud_runpod.Capacity.Errors.{conflict, value_error, Result, ok, raise}
use kestrel_cloud_runpod.Repository.Columns.{Change}
use kestrel_cloud_runpod.Repository.Columns
use kestrel_cloud_runpod.Service.World.{WorkloadObservation, Acknowledgement}

abbrev pub is_succeeded : CatalogPodWorkloadState → Bool
is_succeeded CatalogPodWorkloadState.succeeded = true
is_succeeded _ = false

abbrev pub is_cancelling : CatalogPodWorkloadState → Bool
is_cancelling CatalogPodWorkloadState.cancel_requested = true
is_cancelling _ = false

abbrev pub is_handoff : CatalogPodWorkloadState → Bool
is_handoff w = is_awaiting_ack w || is_acknowledged w

-- The `==` that the dataclass derives.
unfoldable pub handoff_eq : CatalogArtifactHandoffEvidence → CatalogArtifactHandoffEvidence → Bool
handoff_eq a b =
    str_eq a.attempt_id b.attempt_id
    && str_eq a.request_sha256 b.request_sha256
    && str_eq a.result_sha256 b.result_sha256
    && str_eq a.receipt_sha256 b.receipt_sha256
    && opt_str_eq a.acknowledgement_sha256 b.acknowledgement_sha256
    && opt_str_eq a.acknowledgement_payload_sha256 b.acknowledgement_payload_sha256
    && opt_nat_eq a.remote_ack_observed_at b.remote_ack_observed_at
    && opt_nat_eq a.host_confirmation_declared_at b.host_confirmation_declared_at

-- The binding that was stored, or the observed one: the digests may not change.
unfoldable pub bind_handoff :
    PodCapacitySpec
    → Option String
    → Option String
    → Option CatalogArtifactHandoffEvidence
    → Result CatalogArtifactHandoffEvidence
bind_handoff spec (some result) (some receipt) none = ok (record {
  attempt_id = spec.request.attempt_id;
  request_sha256 = spec.request.request_sha256;
  result_sha256 = result;
  receipt_sha256 = receipt;
  acknowledgement_sha256 = none;
  acknowledgement_payload_sha256 = none;
  remote_ack_observed_at = none;
  host_confirmation_declared_at = none;
})
bind_handoff spec (some result) (some receipt) (some h) =
    if str_eq h.result_sha256 result && str_eq h.receipt_sha256 receipt
    then ok h
    else raise conflict
bind_handoff spec _ _ _ = raise value_error

-- A remote acknowledgement counts only if it is the one that the host intended.
unfoldable pub observe_ack :
    ℕ → Option String → CatalogArtifactHandoffEvidence → Result CatalogArtifactHandoffEvidence
observe_ack t ack h =
    if not (is_none h.acknowledgement_sha256) && opt_str_eq h.acknowledgement_sha256 ack
    then ok (record h { remote_ack_observed_at = or_else h.remote_ack_observed_at (some t) })
    else raise conflict

abbrev pub after_binding :
    Bool
    → ℕ
    → Option String
    → Result CatalogArtifactHandoffEvidence
    → Result (Option CatalogArtifactHandoffEvidence)
after_binding acknowledged t ack (raise e) = raise e
after_binding false t ack (ok h) = ok (some h)
after_binding true t ack (ok h) = elim (observe_ack t ack h) [
  | raise e ↦ raise e
  | ok h' ↦ ok (some h')
]

-- The hand-off evidence after the observation.
unfoldable pub observe_handoff :
    ℕ
    → PodCapacitySpec
    → WorkloadObservation
    → Option CatalogArtifactHandoffEvidence
    → Result (Option CatalogArtifactHandoffEvidence)
unfolding bind_handoff observe_ack
observe_handoff t spec o stored =
    if is_handoff o.state
    then after_binding (is_acknowledged o.state) t o.acknowledgement_sha256
        (bind_handoff spec o.result_sha256 o.receipt_sha256 stored)
    else ok stored

-- `proof_changes`
unfoldable pub proof_changes :
    Option CatalogArtifactHandoffEvidence → Option CatalogArtifactHandoffEvidence → List Change
unfolding handoff_eq
proof_changes none none = []
proof_changes (some h) none = Columns.artifact_handoff_json (some h) ∷ []
proof_changes none (some s) = Columns.artifact_handoff_json none ∷ []
proof_changes (some h) (some s) =
    if handoff_eq h s then [] else Columns.artifact_handoff_json (some h) ∷ []

-- `rank`
unfoldable pub rank : CatalogPodWorkloadState → Option ℕ
rank CatalogPodWorkloadState.not_submitted = some 0
rank CatalogPodWorkloadState.idle = some 0
rank CatalogPodWorkloadState.running = some 1
rank CatalogPodWorkloadState.succeeded = some 2
rank CatalogPodWorkloadState.awaiting_ack = some 2
rank CatalogPodWorkloadState.acknowledged = some 3
rank _ = none

-- `rank.get(…, 4)`
abbrev pub rank_or_4 : Option ℕ → ℕ
rank_or_4 none = 4
rank_or_4 (some n) = n

-- `observation.state in rank and rank.get(lease.workload_state, 4) > rank[observation.state]`
abbrev pub outranks : Option ℕ → Option ℕ → Bool
outranks current none = false
outranks current (some r) = ltb r (rank_or_4 current)

-- The lease takes no more news of its workload.
abbrev pub is_frozen : TrainingPodLease → Bool
is_frozen lease =
    is_terminal lease
    || not (is_ready lease.state || is_job_submitted lease.state || is_job_completed lease.state)
    || is_cancelling lease.workload_state

-- The lease state and the phase that an observed workload state brings.
unfoldable pub advance : ℕ → String → CatalogPodWorkloadState → List Change × List (Phase × ℕ)
advance t attempt CatalogPodWorkloadState.running = (
  Columns.state TrainingPodState.job_submitted ∷ Columns.provider_job_id (some attempt) ∷ [],
  (workload_running_at, t) ∷ [],
)
advance t attempt CatalogPodWorkloadState.succeeded = (
  Columns.state TrainingPodState.job_completed ∷ Columns.provider_job_id (some attempt) ∷ [],
  (workload_terminal_at, t) ∷ [],
)
advance t attempt CatalogPodWorkloadState.awaiting_ack = (
  Columns.state TrainingPodState.job_completed ∷ Columns.provider_job_id (some attempt) ∷ [],
  (workload_terminal_at, t) ∷ [],
)
advance t attempt CatalogPodWorkloadState.acknowledged = (
  Columns.state TrainingPodState.job_completed ∷ Columns.provider_job_id (some attempt) ∷ [],
  (workload_terminal_at, t) ∷ [],
)
advance t attempt CatalogPodWorkloadState.failed =
    (Columns.state TrainingPodState.cancel_requested ∷ [], (workload_terminal_at, t) ∷ [])
advance t attempt CatalogPodWorkloadState.cancelled =
    (Columns.state TrainingPodState.cancel_requested ∷ [], (workload_terminal_at, t) ∷ [])
advance t attempt CatalogPodWorkloadState.cancel_requested =
    (Columns.state TrainingPodState.cancel_requested ∷ [], [])
advance t attempt CatalogPodWorkloadState.not_submitted = ([], [])
advance t attempt CatalogPodWorkloadState.idle = ([], [])

-- What is written, once the hand-off evidence is known: nothing but that evidence for a lease that
-- is frozen, or that is further than the observation.
unfoldable pub workload_changes :
    ℕ → TrainingPodLease → WorkloadObservation → Bool → List Change → List Change × List (Phase × ℕ)
unfolding rank advance
workload_changes t lease o submitted proof =
    if is_frozen lease || outranks (rank lease.workload_state) (rank o.state)
    then (proof, [])
    else (
      proof
          ++ (Columns.workload_state o.state
              ∷ Columns.workload_error_type o.error_type
              ∷ Columns.last_provider_error none
              ∷ Columns.last_heartbeat_at t
              ∷ (advance t o.attempt_id o.state).0),
      (if submitted then (workload_submitted_at, t) ∷ [] else [])
          ++ (advance t o.attempt_id o.state).1,
    )

abbrev pub protocol_refuses : Option ℕ → CatalogPodWorkloadState → Bool
protocol_refuses none w = is_handoff w
protocol_refuses (some v) w = (v == 1) && is_succeeded w

-- What changes once the hand-off is bound.
unfoldable pub bound_changes :
    ℕ
    → TrainingPodLease
    → WorkloadObservation
    → Bool
    → Result (Option CatalogArtifactHandoffEvidence)
    → Result (List Change × List (Phase × ℕ))
unfolding proof_changes workload_changes
bound_changes t lease o submitted (raise e) = raise e
bound_changes t lease o submitted (ok handoff) =
    ok (workload_changes t lease o submitted (proof_changes handoff lease.artifact_handoff))

-- `_catalog_observation_changes`, behind the check of the binding and the reading of the clock.
unfoldable pub observation_changes :
    ℕ
    → PodCapacitySpec
    → TrainingPodLease
    → WorkloadObservation
    → Bool
    → Result (List Change × List (Phase × ℕ))
unfolding observe_handoff bound_changes
observation_changes t spec lease o submitted =
    if protocol_refuses spec.request.artifact_handoff_protocol_version o.state
    then raise conflict
    else bound_changes t lease o submitted (observe_handoff t spec o lease.artifact_handoff)

-- The acknowledgement names the hand-off, and is the first one or the one that was bound.
abbrev pub binds : CatalogArtifactHandoffEvidence → Acknowledgement → Bool
binds h a =
    opt_str_eq a.attempt_id (some h.attempt_id)
    && opt_str_eq a.request_sha256 (some h.request_sha256)
    && opt_str_eq a.result_sha256 (some h.result_sha256)
    && opt_str_eq a.receipt_sha256 (some h.receipt_sha256)
    && not (is_none a.acknowledgement_sha256)
    && (is_none h.acknowledgement_sha256
        || (opt_str_eq a.acknowledgement_sha256 h.acknowledgement_sha256
            && opt_str_eq (some a.payload_sha256) h.acknowledgement_payload_sha256))

-- `CatalogArtifactHandoffEvidence.bind_acknowledgement`: none where it raises `ValueError`.
unfoldable pub bind_acknowledgement :
    CatalogArtifactHandoffEvidence → Acknowledgement → Option CatalogArtifactHandoffEvidence
bind_acknowledgement h a =
    if binds h a
    then some (record h {
      acknowledgement_sha256 = a.acknowledgement_sha256;
      acknowledgement_payload_sha256 = some a.payload_sha256;
    })
    else none
