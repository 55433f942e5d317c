-- ===== src/Service/Mutations.antt =====
-- The single-write operations of the lease service, and the marks on a cleanup family.
use kestrel_cloud_runpod.Prelude.{
  ℕ, zero, suc, String, Option, none, some, List, [], ◌∷◌, Bool, true, false, not, ◌||◌, ◌==◌,
  str_eq, if◌then◌else◌,
}
use kestrel_cloud_runpod.Capacity.States.{
  TrainingPodState, CatalogPodWorkloadState, is_ready, is_job_submitted, is_job_completed,
}
use kestrel_cloud_runpod.Capacity.Lease.{
  TrainingPodLease, PodCapacitySpec, is_terminal, is_catalog_attempt,
}
use kestrel_cloud_runpod.Capacity.Errors.{
  Error, manager, conflict, value_error, lifecycle_error, out_of_fuel, is_conflict,
  sanitize_training_error,
}
use kestrel_cloud_runpod.Repository.Columns.{Change}
use kestrel_cloud_runpod.Repository.Columns
use kestrel_cloud_runpod.Service.World.{
  Environment, Action, pure, throw, ◌>>=◌, ◌>>◌, try_except, when◌run◌otherwise◌, now,
  compare_and_set, required,
}
use kestrel_cloud_runpod.Service.Transitions.{transition_nonterminal}
use kestrel_cloud_runpod.Service.Release.{failure_of}

-- The test of `_require_legacy_training_mutation`.
unfoldable pub is_protocol_1 : Option PodCapacitySpec → Bool
is_protocol_1 none = false
is_protocol_1 (some spec) = elim spec.request.artifact_handoff_protocol_version [
  | none ↦ false
  | some v ↦ v == 1
]

-- `if refused: raise error`
unfoldable pub refuse : Bool → Error → Action (Unit {0})
refuse true e = throw e
refuse false e = pure tt

-- `lease.provider_job_id not in {None, provider_job_id}`
unfoldable pub owns_other_job : Option String → String → Bool
owns_other_job none job = false
owns_other_job (some owned) job = not (str_eq owned job)

-- What `record_status` writes for a status text, which is stripped and in lower case here.
unfoldable pub status_changes : String → List Change
status_changes status =
    if str_eq status "completed" || str_eq status "succeeded"
    then Columns.state TrainingPodState.job_completed ∷ []
    else if str_eq status "cancelled" || str_eq status "canceled" || str_eq status "failed"
    then Columns.state TrainingPodState.cancel_requested ∷ []
    else []

module _ (env : Environment) where
  unfoldable pub heartbeat : String → Action TrainingPodLease
  heartbeat cleanup_token = do
    lease ← required cleanup_token
    refuse (is_terminal lease) (lifecycle_error (failure_of "heartbeat" lease false))
    t ← now env
    compare_and_set env lease (Columns.last_heartbeat_at t ∷ [])

  unfoldable pub record_job : String → String → Action TrainingPodLease
  record_job cleanup_token provider_job_id = do
    refuse (str_eq provider_job_id "") value_error
    lease ← required cleanup_token
    refuse (is_protocol_1 lease.capacity_spec) manager
    refuse (not (is_ready lease.state || is_job_submitted lease.state)) manager
    refuse (owns_other_job lease.provider_job_id provider_job_id) conflict
    t ← now env
    compare_and_set env lease (
        Columns.state TrainingPodState.job_submitted
        ∷ Columns.provider_job_id (some provider_job_id)
        ∷ Columns.last_heartbeat_at t
        ∷ Columns.last_provider_error none
        ∷ [])

  unfoldable pub record_operation_error : String → Error → Action TrainingPodLease
  record_operation_error cleanup_token error = do
    lease ← required cleanup_token
    when is_terminal lease
        run pure lease
        otherwise (now env >>= λ t. transition_nonterminal env lease (
            Columns.last_heartbeat_at t
            ∷ Columns.last_provider_error (some (sanitize_training_error error))
            ∷ []))

  unfoldable pub record_status : String → String → Action TrainingPodLease
  record_status cleanup_token normalized = do
    lease ← required cleanup_token
    refuse (is_protocol_1 lease.capacity_spec) manager
    when is_terminal lease
        run pure lease
        otherwise (now env >>= λ t. transition_nonterminal env lease (
            Columns.last_heartbeat_at t
            ∷ Columns.last_provider_error none
            ∷ status_changes normalized))

  unfoldable pub record_result_retrieved : String → Action TrainingPodLease
  record_result_retrieved cleanup_token = do
    lease ← required cleanup_token
    refuse (is_protocol_1 lease.capacity_spec) manager
    refuse (not (is_job_submitted lease.state || is_job_completed lease.state)) manager
    t ← now env
    compare_and_set env lease (
        Columns.state TrainingPodState.result_retrieved
        ∷ Columns.last_heartbeat_at t
        ∷ Columns.last_provider_error none
        ∷ [])

  abbrev cancel_workload : TrainingPodLease → List Change
  cancel_workload lease =
      if is_catalog_attempt lease
      then Columns.workload_state CatalogPodWorkloadState.cancel_requested ∷ []
      else []

  unfoldable pub request_cancellation : String → Action TrainingPodLease
  request_cancellation cleanup_token = do
    lease ← required cleanup_token
    when is_terminal lease
        run pure lease
        otherwise (now env >>= λ t. compare_and_set env lease (
            Columns.state TrainingPodState.cancel_requested
            ∷ Columns.last_heartbeat_at t
            ∷ cancel_workload lease))

  -- The loop of `_mark_family_release_requested`, on fuel.
  unfoldable pub request_loop : ℕ → TrainingPodLease → Action TrainingPodLease
  request_loop zero root =
      when root.family_release_requested run pure root otherwise throw out_of_fuel
  request_loop (suc n) root =
      when root.family_release_requested
      run pure root
      otherwise (try_except
          (now env >>= λ t. compare_and_set env root (
            Columns.family_release_requested true
            ∷ Columns.family_release_complete false
            ∷ Columns.last_heartbeat_at t
            ∷ []))
          is_conflict (λ _. required root.cleanup_token >>= λ fresh. request_loop n fresh))

  unfoldable pub mark_family_release_requested : TrainingPodLease → Action TrainingPodLease
  mark_family_release_requested root = do
    current ← required root.cleanup_token
    request_loop env.fuel current

  -- The loop of `_mark_family_release_complete`, on fuel.
  unfoldable pub complete_loop : ℕ → TrainingPodLease → Action TrainingPodLease
  complete_loop zero root =
      when root.family_release_complete run pure root otherwise throw out_of_fuel
  complete_loop (suc n) root =
      when root.family_release_complete
      run pure root
      otherwise (try_except
          (now env >>= λ t.
            compare_and_set env root
              (Columns.family_release_complete true ∷ Columns.last_heartbeat_at t ∷ []))
          is_conflict (λ _. required root.cleanup_token >>= λ fresh. complete_loop n fresh))

  unfoldable pub mark_family_release_complete : TrainingPodLease → Action TrainingPodLease
  mark_family_release_complete root = do
    current ← required root.cleanup_token
    complete_loop env.fuel current
