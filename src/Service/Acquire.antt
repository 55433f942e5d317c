-- ===== src/Service/Acquire.antt =====
-- Acquisition: `_acquire`, `_acquire_existing`, `_acquire_created` and the two catalog entries.
use kestrel_cloud_runpod.Prelude.{
  ℕ, String, Option, none, some, [], ◌∷◌, Bool, true, false, not, ◌&&◌, str_eq, is_none, any,
}
use kestrel_cloud_runpod.Capacity.States.{
  TrainingPodOwnership, TrainingPodState, TrainingPodCleanupState, PodCapacityBillingState,
}
use kestrel_cloud_runpod.Capacity.Evidence.{provider_create_accepted_at, billing_reconciled_at}
use kestrel_cloud_runpod.Capacity.Lease.{TrainingPodLease, PodCapacitySpec, is_catalog_attempt}
use kestrel_cloud_runpod.Capacity.Errors.{
  Error, manager, cancelled, ambiguous, created_mismatch, lifecycle_error, is_manager_error,
  sanitize_training_error,
}
use kestrel_cloud_runpod.Repository.Columns
use kestrel_cloud_runpod.Service.World.{
  Environment, Action, Call, Observation, CreatedPod, pure, throw, ◌>>=◌, ◌>>◌, try_else,
  when◌run◌otherwise◌, ask, now, compare_and_set, required,
}
use kestrel_cloud_runpod.Service.Transitions.{
  given, nothing_observed, saw, transition_with_evidence, release_unowned_claim,
  record_retryable_failure,
}
use kestrel_cloud_runpod.Service.Settlement.{require, zero_cost_receipt, revoke_and_release}
use kestrel_cloud_runpod.Service.Release.{failure_of, pod_id, release_one}
use kestrel_cloud_runpod.Service.Mutations.{is_protocol_1}

-- What the `except` clauses of an acquisition handle: a cancellation, and every error of the manager.
abbrev pub is_handled : Error → Bool
is_handled cancelled = true
is_handled e = is_manager_error e

-- `request.capacity_spec is not None and … artifact_handoff_protocol_version != 1`
unfoldable pub is_historical : Option PodCapacitySpec → Bool
unfolding is_protocol_1
is_historical none = false
is_historical (some spec) = not (is_protocol_1 (some spec))

module _ (env : Environment) where
  -- `_profile`
  unfoldable pub profile : String → Action (Unit {0})
  profile profile_id = require (any (str_eq profile_id) env.profile_ids)

  -- `_cleanup_cancelled_acquisition`, and the cancellation that is raised again.
  unfoldable pub cleanup_cancelled : {A : Type 0} → TrainingPodLease → String → Action A
  cleanup_cancelled lease operation =
      release_one env lease.cleanup_token operation >>= λ _. throw cancelled

  -- Teardown, and the error of the operation.
  unfoldable pub raise_after_cleanup : {A : Type 0} → TrainingPodLease → String → Action A
  raise_after_cleanup lease operation =
      release_one env lease.cleanup_token operation >>= λ released.
      throw (lifecycle_error (failure_of operation released false))

  -- The claim on a Pod that stays as it is, and the error of the operation.
  unfoldable pub disclaim : {A : Type 0} → TrainingPodLease → String → Option Error → Action A
  disclaim lease operation error = release_unowned_claim env lease error >>= λ released.
      throw (lifecycle_error (failure_of operation released false))

  -- The `except` clauses of the discovery.
  unfoldable pub discovery_failed : TrainingPodLease → Error → Action TrainingPodLease
  discovery_failed lease cancelled = release_unowned_claim env lease none >>= λ _. throw cancelled
  discovery_failed lease e = disclaim lease "Pod discovery" (some e)

  -- The `except` clauses of the start.
  unfoldable pub start_failed : TrainingPodLease → Error → Action TrainingPodLease
  start_failed lease cancelled = cleanup_cancelled lease "Pod start cancellation"
  start_failed lease e = do
    failed ← record_retryable_failure env lease e none
    release_one env failed.cleanup_token "Pod start failure"
    current ← required failed.cleanup_token
    throw (lifecycle_error (failure_of "Pod start" current false))

  -- A start that was accepted.
  unfoldable pub started : TrainingPodLease → Action TrainingPodLease
  started lease = do
    current ← required lease.cleanup_token
    t ← now env
    compare_and_set env current (
        Columns.ownership TrainingPodOwnership.owned
        ∷ Columns.last_heartbeat_at t
        ∷ Columns.last_provider_error none
        ∷ [])

  unfoldable pub start_stopped : TrainingPodLease → String → Action TrainingPodLease
  start_stopped lease pod = do
    t ← now env
    claimed ← compare_and_set env lease (
        Columns.ownership TrainingPodOwnership.provisional
        ∷ Columns.state TrainingPodState.starting
        ∷ Columns.last_heartbeat_at t
        ∷ [])
    try_else (ask (Call.start pod) (λ n. env.start n pod)) (λ _. started claimed) is_handled
        (start_failed claimed)

  unfoldable pub adopt_running : TrainingPodLease → Option String → Action TrainingPodLease
  adopt_running lease url = do
    t ← now env
    compare_and_set env lease (
        Columns.ownership TrainingPodOwnership.preexisting_running
        ∷ Columns.state TrainingPodState.starting
        ∷ Columns.backend_base_url url
        ∷ Columns.last_heartbeat_at t
        ∷ Columns.last_provider_error none
        ∷ [])

  -- The branches on what was observed.
  unfoldable pub acquire_observed :
      TrainingPodLease → String → Observation → Action TrainingPodLease
  acquire_observed lease pod observation =
      when observation.is_running
      run adopt_running lease observation.backend_base_url
      otherwise when observation.is_stopped
      run start_stopped lease pod
      otherwise disclaim lease "Pod acquisition" (some manager)

  -- `_acquire_existing`
  unfoldable pub acquire_existing : TrainingPodLease → Action TrainingPodLease
  acquire_existing lease = do
    pod ← pod_id lease
    try_else (ask (Call.observe pod) (λ n. env.observe n pod)) (acquire_observed lease pod)
        is_handled (discovery_failed lease)

  -- A create whose answer has an ID, but not the placement that was asked for.
  unfoldable pub create_mismatched : TrainingPodLease → String → Action TrainingPodLease
  create_mismatched lease pod = do
    accepted_at ← now env
    current ← required lease.cleanup_token
    owned ←
        transition_with_evidence env current
          (Columns.provider_pod_id (some pod)
            ∷ Columns.ownership TrainingPodOwnership.owned
            ∷ Columns.creation_uncertain false
            ∷ Columns.last_provider_error (some (sanitize_training_error (created_mismatch pod)))
            ∷ Columns.last_heartbeat_at accepted_at
            ∷ [])
          (saw ((provider_create_accepted_at, accepted_at) ∷ [])) none
    released ← release_one env owned.cleanup_token "created Pod validation failure"
    throw (lifecycle_error (failure_of "Pod create validation" released false))

  -- A create that may or may not have happened.
  unfoldable pub create_ambiguous : TrainingPodLease → Action TrainingPodLease
  create_ambiguous lease = do
    uncertain ← record_retryable_failure env lease ambiguous (some true)
    when is_catalog_attempt uncertain
        run throw (lifecycle_error (failure_of "Pod create" uncertain true))
        otherwise (release_one env uncertain.cleanup_token "ambiguous Pod create" >>= λ _.
            required uncertain.cleanup_token >>= λ current.
            throw (lifecycle_error (failure_of "Pod create" current false)))

  -- A create that the provider refused, for a catalog lease: nothing was billed.
  unfoldable pub reject_catalog : TrainingPodLease → Error → ℕ → Action TrainingPodLease
  reject_catalog lease e t = do
    receipt ← zero_cost_receipt env lease "create-rejected"
    reconciled_at ← now env
    transition_with_evidence env lease
        (Columns.state TrainingPodState.releasing
          ∷ Columns.cleanup_state TrainingPodCleanupState.complete
          ∷ Columns.creation_uncertain false
          ∷ Columns.last_provider_error (some (sanitize_training_error e))
          ∷ Columns.last_heartbeat_at t
          ∷ Columns.billing_state PodCapacityBillingState.authoritative
          ∷ Columns.billing_receipt_json (some receipt)
          ∷ Columns.terminated_at (some reconciled_at)
          ∷ [])
        (record nothing_observed {
          lifecycle = (billing_reconciled_at, reconciled_at) ∷ [];
          billing = given (some receipt);
        })
        none

  unfoldable pub reject_training : TrainingPodLease → Error → ℕ → Action TrainingPodLease
  reject_training lease e t =
      transition_with_evidence env lease
        (Columns.state TrainingPodState.released
          ∷ Columns.cleanup_state TrainingPodCleanupState.complete
          ∷ Columns.creation_uncertain false
          ∷ Columns.last_provider_error (some (sanitize_training_error e))
          ∷ Columns.last_heartbeat_at t
          ∷ [])
        nothing_observed none

  unfoldable pub create_rejected : TrainingPodLease → Error → Action TrainingPodLease
  create_rejected lease e = do
    t ← now env
    rejected ←
        when is_catalog_attempt lease
        run reject_catalog lease e t
        otherwise reject_training lease e t
    released ←
        when is_catalog_attempt rejected run revoke_and_release env rejected otherwise pure rejected
    throw (lifecycle_error (failure_of "Pod create" released false))

  -- The `except` clauses of the create, in their order.
  unfoldable pub create_failed : TrainingPodLease → Error → Action TrainingPodLease
  create_failed lease cancelled = do
    current ← required lease.cleanup_token
    cleanup_cancelled current "Pod create cancellation"
  create_failed lease (created_mismatch pod) = create_mismatched lease pod
  create_failed lease ambiguous = create_ambiguous lease
  create_failed lease e = create_rejected lease e

  -- The `try` block of the create: the provider's answer, with a placement for a catalog lease. The
  -- provider's Pod ID is not blank.
  unfoldable pub create_pod : TrainingPodLease → Action CreatedPod
  create_pod lease = do
    created ← ask (Call.create lease.resource_name) (λ n. env.create n lease)
    when is_catalog_attempt lease && is_none created.realized_placement
        run throw (created_mismatch created.provider_pod_id)
        otherwise pure created

  unfoldable pub create_accepted : TrainingPodLease → CreatedPod → Action TrainingPodLease
  create_accepted lease created = do
    accepted_at ← now env
    current ← required lease.cleanup_token
    transition_with_evidence env current
        (Columns.provider_pod_id (some created.provider_pod_id)
          ∷ Columns.ownership TrainingPodOwnership.owned
          ∷ Columns.creation_uncertain false
          ∷ Columns.last_heartbeat_at accepted_at
          ∷ Columns.last_provider_error none
          ∷ [])
        (record nothing_observed {
          lifecycle = (provider_create_accepted_at, accepted_at) ∷ [];
          realized_placement = given created.realized_placement;
        })
        none

  -- `_acquire_created`
  unfoldable pub acquire_created : TrainingPodLease → Action TrainingPodLease
  acquire_created lease = do
    t ← now env
    claimed ← compare_and_set env lease (
        Columns.state TrainingPodState.starting
        ∷ Columns.ownership TrainingPodOwnership.provisional
        ∷ Columns.creation_uncertain true
        ∷ Columns.last_heartbeat_at t
        ∷ [])
    try_else (create_pod claimed) (create_accepted claimed) is_handled (create_failed claimed)
