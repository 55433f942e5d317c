-- ===== src/Service/Readiness.antt =====
-- Readiness: `_observe_readiness` and its loop, and the entries of acquisition.
use kestrel_cloud_runpod.Prelude.{
  ℕ, zero, suc, String, Option, none, some, [], ◌∷◌, Bool, true, false, not, ◌||◌, ltb, is_none,
  if◌then◌else◌,
}
use Prim.Native.Nat.{min}
use kestrel_cloud_runpod.Capacity.States.{
  TrainingPodSource, TrainingPodState, is_created, is_ready, is_starting,
}
use kestrel_cloud_runpod.Capacity.Evidence.{first_running_observed_at, worker_ready_at}
use kestrel_cloud_runpod.Capacity.Lease.{TrainingPodLease, TrainingPodRequest, is_catalog_attempt}
use kestrel_cloud_runpod.Capacity.Errors.{
  Error, manager, conflict, cancelled, transport, lifecycle_error, cleanup_error, out_of_fuel,
  sanitize_training_error,
}
use kestrel_cloud_runpod.Repository.Columns
use kestrel_cloud_runpod.Repository.Reserve
use kestrel_cloud_runpod.Service.World.{
  Environment, Action, Call, Observation, pure, throw, ◌>>=◌, ◌>>◌, try_else, when◌run◌otherwise◌,
  ask, now, transact, required,
}
use kestrel_cloud_runpod.Service.Transitions.{
  saw, transition_with_evidence, record_retryable_failure,
}
use kestrel_cloud_runpod.Service.Settlement.{require}
use kestrel_cloud_runpod.Service.Release.{nonempty, pod_id}
use kestrel_cloud_runpod.Service.Mutations.{refuse, heartbeat}
use kestrel_cloud_runpod.Service.Acquire.{
  is_handled, is_historical, profile, cleanup_cancelled, raise_after_cleanup, acquire_existing,
  acquire_created,
}

-- How the `try` block of `_observe_readiness` ends: by a `return`, or at its end.
pub data Probe : Type 0 where
  returned proceed : TrainingPodLease → Probe

abbrev pub only_starting : Option (TrainingPodState → Bool)
only_starting = some is_starting

abbrev pub is_transport : Error → Bool
is_transport transport = true
is_transport _ = false

-- `not observation.is_running or not observation.backend_base_url`
abbrev pub has_no_route : Observation → Bool
has_no_route o = not o.is_running || is_none (nonempty o.backend_base_url)

module _ (env : Environment) where
  -- `_enforce_readiness_deadline`
  unfoldable pub enforce_readiness_deadline : TrainingPodLease → Action TrainingPodLease
  enforce_readiness_deadline lease = now env >>= λ t.
      when ltb t (min lease.readiness_deadline lease.hard_deadline)
      run pure lease
      otherwise raise_after_cleanup env lease "readiness timeout"

  -- The worker is not healthy yet: the lease stays where it is.
  unfoldable pub unhealthy : TrainingPodLease → Error → Action Probe
  unhealthy lease e = required lease.cleanup_token >>= λ current.
      when not (is_starting current.state)
      run pure (returned current)
      otherwise (now env >>= λ t.
          transition_with_evidence env current
            (Columns.last_provider_error (some (sanitize_training_error e))
              ∷ Columns.last_heartbeat_at t
              ∷ [])
            (saw []) only_starting
          >>= λ kept. pure (returned kept))

  unfoldable pub check_health : TrainingPodLease → Option String → Action Probe
  check_health lease none = throw manager
  check_health lease (some url) =
      when not (is_catalog_attempt lease)
      run pure (proceed lease)
      otherwise (require env.has_workload_transport >>= λ _.
          try_else (ask (Call.health url) (λ n. env.health n url)) (λ _. pure (proceed lease))
            is_transport (unhealthy lease))

  -- The `try` block behind the write of what was observed.
  unfoldable pub assess : TrainingPodLease → Observation → Action Probe
  assess lease o =
      when not (is_starting lease.state)
      run pure (returned lease)
      otherwise when o.is_failed || o.is_stopped
      run raise_after_cleanup env lease "readiness"
      otherwise when has_no_route o
      run pure (returned lease)
      otherwise check_health lease (nonempty o.backend_base_url)

  unfoldable pub record_observed : TrainingPodLease → Observation → Action Probe
  record_observed current o =
      when not (is_starting current.state)
      run pure (returned current)
      otherwise (now env >>= λ observed_at.
          transition_with_evidence env current
            (Columns.backend_base_url o.backend_base_url
              ∷ Columns.last_heartbeat_at observed_at
              ∷ Columns.last_provider_error none
              ∷ [])
            (saw (if o.is_running then (first_running_observed_at, observed_at) ∷ [] else []))
            only_starting
          >>= λ lease. assess lease o)

  -- The `try` block of `_observe_readiness`.
  unfoldable pub probe : TrainingPodLease → Action Probe
  probe lease = do
    pod ← pod_id lease
    o ← ask (Call.observe pod) (λ n. env.observe n pod)
    current ← required lease.cleanup_token
    record_observed current o

  -- Its `except` clauses, in their order.
  unfoldable pub probe_failed : TrainingPodLease → Error → Action TrainingPodLease
  probe_failed lease cancelled = cleanup_cancelled env lease "readiness cancellation"
  probe_failed lease (lifecycle_error f) = throw (lifecycle_error f)
  probe_failed lease (cleanup_error f) = throw (cleanup_error f)
  probe_failed lease e = do
    current ← required lease.cleanup_token
    failed ← record_retryable_failure env current e none
    raise_after_cleanup env failed "readiness observation"

  -- What follows the `try` block.
  unfoldable pub promote : TrainingPodLease → Action TrainingPodLease
  promote lease = required lease.cleanup_token >>= λ current.
      when not (is_starting current.state)
      run pure current
      otherwise (enforce_readiness_deadline current >>= λ timely. now env >>= λ ready_at.
          transition_with_evidence env timely
            (Columns.state TrainingPodState.ready ∷ Columns.last_heartbeat_at ready_at ∷ [])
            (saw ((worker_ready_at, ready_at) ∷ [])) only_starting)

  unfoldable pub probed : Probe → Action TrainingPodLease
  probed (returned lease) = pure lease
  probed (proceed lease) = promote lease

  -- `_observe_readiness`
  unfoldable pub observe_readiness : TrainingPodLease → Action TrainingPodLease
  observe_readiness lease = required lease.cleanup_token >>= λ current.
      when not (is_starting current.state)
      run pure current
      otherwise (enforce_readiness_deadline current >>= λ timely.
          try_else (probe timely) probed is_handled (probe_failed timely))

  -- A sleep that is cancelled.
  unfoldable pub sleep_interrupted : TrainingPodLease → Error → Action TrainingPodLease
  sleep_interrupted lease cancelled = cleanup_cancelled env lease "readiness cancellation"
  sleep_interrupted lease e = throw e

  -- The loop of `_wait_ready`, on fuel.
  unfoldable pub wait_loop : ℕ → TrainingPodLease → Action TrainingPodLease
  wait_loop zero lease = throw out_of_fuel
  wait_loop (suc n) lease = observe_readiness lease >>= λ observed.
      when not (is_starting observed.state)
      run pure observed
      otherwise try_else (ask Call.sleep env.sleep) (λ _. wait_loop n observed) is_handled
          (sleep_interrupted observed)

  -- `_wait_ready`
  unfoldable pub wait_ready : TrainingPodLease → Action TrainingPodLease
  wait_ready lease = wait_loop env.fuel lease

  -- A token that was reserved before: a lease that is ready is used again.
  unfoldable pub reuse : TrainingPodLease → Action TrainingPodLease
  reuse lease =
      when is_ready lease.state run heartbeat env lease.cleanup_token otherwise throw conflict

  unfoldable pub provision : TrainingPodSource → TrainingPodLease → Bool → Action TrainingPodLease
  provision source lease wait_for_ready = do
    profile env lease.profile_id
    acquired ←
        when is_created source run acquire_created env lease otherwise acquire_existing env lease
    when wait_for_ready run wait_ready acquired otherwise pure acquired

  unfoldable pub claimed :
      TrainingPodSource → TrainingPodLease × Bool → Bool → Action TrainingPodLease
  claimed source (lease, inserted) wait_for_ready =
      when inserted run provision source lease wait_for_ready otherwise reuse lease

  -- `_acquire`
  unfoldable pub acquire_reserved : TrainingPodRequest → Bool → Action TrainingPodLease
  acquire_reserved request wait_for_ready = do
    refuse (is_historical request.capacity_spec) manager
    claim ← transact (Reserve.reserve request)
    claimed request.source claim wait_for_ready

  -- `acquire`
  unfoldable pub acquire : TrainingPodRequest → Action TrainingPodLease
  acquire request = acquire_reserved request true
