-- ===== src/Service/Admission.antt =====
-- Catalog capacity: lookup by owner, acquisition, readiness polls, and the scoped capability.
use kestrel_cloud_runpod.Prelude.{
  String, Option, none, some, Bool, false, not, ◌&&◌, ◌||◌, ltb, leb, ◌==◌, str_eq, is_none,
}
use Prim.Native.Nat.{min}
use kestrel_cloud_runpod.Capacity.States.{TrainingPodSource, is_ready, is_starting}
use kestrel_cloud_runpod.Capacity.Lease.{
  TrainingPodLease, TrainingPodRequest, PodCapacitySpec, CatalogPodCapacityRequest,
  request_accepted,
}
use kestrel_cloud_runpod.Capacity.Errors.{manager, conflict, value_error}
use kestrel_cloud_runpod.Service.World.{
  Environment, Action, Call, Capability, pure, throw, ◌>>=◌, ◌>>◌, when◌run◌otherwise◌, ask, now,
  get,
}
use kestrel_cloud_runpod.Service.Settlement.{or_raise, require, capacity_spec}
use kestrel_cloud_runpod.Service.Mutations.{refuse, heartbeat}
use kestrel_cloud_runpod.Service.Acquire.{profile}
use kestrel_cloud_runpod.Service.Readiness.{acquire_reserved, observe_readiness}

-- The binding of a capacity to its owner and workload.
unfoldable pub owner_bound :
    String → String → Option TrainingPodLease → Action (Option TrainingPodLease)
owner_bound owner_id workload_id none = pure none
owner_bound owner_id workload_id (some lease) = do
  spec ← capacity_spec lease
  refuse
      (not (str_eq spec.request.owner_id owner_id)
        || not (str_eq spec.request.workload_id workload_id))
      conflict
  pure (some lease)

-- `find_catalog_capacity`
unfoldable pub find_catalog_capacity : String → String → String → Action (Option TrainingPodLease)
find_catalog_capacity capacity_id owner_id workload_id = do
  lease ← get capacity_id
  owner_bound owner_id workload_id lease

-- `get_catalog_capacity`, which `_catalog_lease` is.
unfoldable pub get_catalog_capacity : String → String → String → Action TrainingPodLease
get_catalog_capacity capacity_id owner_id workload_id = do
  lease ← find_catalog_capacity capacity_id owner_id workload_id
  or_raise lease

module _ (env : Environment) where
  -- `_load_capability`
  unfoldable pub load_capability : PodCapacitySpec → Action Capability
  load_capability spec = do
    require env.has_capability_store
    loaded ←
        ask (Call.load_capability spec.request.attempt_id)
          (λ n. env.load_capability n spec.request.attempt_id)
    capability ← or_raise loaded
    require (capability.expires_at == spec.request.bearer_expires_at)
    refuse
        (not (str_eq capability.secret_id spec.capability_secret_id)
          || not (str_eq capability.token_sha256 spec.capability_token_sha256))
        manager
    t ← now env
    refuse (leb capability.expires_at t) manager
    pure capability

  -- A capacity that exists: the same request may be replayed while it is ready, or starting.
  unfoldable pub replay :
      CatalogPodCapacityRequest → String → Bool → TrainingPodLease → Action TrainingPodLease
  replay request environment_sha256 wait_for_ready existing = do
    spec ← capacity_spec existing
    refuse
        (not (str_eq spec.request.fingerprint request.fingerprint)
          || not (str_eq spec.attempt_environment_sha256 environment_sha256))
        conflict
    when is_ready existing.state
          || (not wait_for_ready
              && is_starting existing.state
              && not (is_none existing.provider_pod_id)
              && not existing.creation_uncertain)
        run heartbeat env existing.cleanup_token
        otherwise throw conflict

  abbrev spec_of : CatalogPodCapacityRequest → String → Capability → PodCapacitySpec
  spec_of request environment_sha256 capability = record {
    request = request;
    capability_secret_id = capability.secret_id;
    capability_token_sha256 = capability.token_sha256;
    capability_expires_at = capability.expires_at;
    attempt_environment_sha256 = environment_sha256;
  }

  -- The request of the lease. `fingerprint` is the digest that its property computes.
  abbrev lease_request : CatalogPodCapacityRequest → String → PodCapacitySpec → TrainingPodRequest
  lease_request request fingerprint spec = record {
    cleanup_token = request.capacity_id;
    companion_id = request.owner_id;
    profile_id = request.profile_id;
    source = TrainingPodSource.created;
    resource_name = request.resource_name;
    provider_pod_id = none;
    created_at = request.created_at;
    readiness_deadline = request.readiness_deadline;
    hard_deadline = request.hard_deadline;
    root_cleanup_token = some request.cleanup_family_id;
    capacity_spec = some spec;
    fingerprint = fingerprint;
  }

  -- A capacity that does not exist: the quote is current, and the capability is the attempt's.
  unfoldable pub admit :
      CatalogPodCapacityRequest → String → String → Bool → Action TrainingPodLease
  admit request environment_sha256 fingerprint wait_for_ready = do
    t ← now env
    refuse (ltb t request.created_at || ltb request.created_at request.quote.observed_at) manager
    refuse (leb request.quote.expires_at t) manager
    require env.has_capability_store
    capability ←
        ask (Call.load_capability request.attempt_id)
          (λ n. env.load_or_create n request.attempt_id request.bearer_expires_at)
    require (capability.expires_at == request.bearer_expires_at)
    t' ← now env
    refuse
        (leb (min (min request.quote.expires_at request.readiness_deadline) request.hard_deadline)
          t')
        manager
    refuse
        (not (
          request_accepted
            (lease_request request fingerprint (spec_of request environment_sha256 capability))))
        value_error
    acquire_reserved env
        (lease_request request fingerprint (spec_of request environment_sha256 capability))
        wait_for_ready

  unfoldable pub replay_or_admit :
      CatalogPodCapacityRequest
      → String
      → String
      → Bool
      → Option TrainingPodLease
      → Action TrainingPodLease
  replay_or_admit request environment_sha256 fingerprint wait_for_ready none =
      admit request environment_sha256 fingerprint wait_for_ready
  replay_or_admit request environment_sha256 fingerprint wait_for_ready (some existing) =
      replay request environment_sha256 wait_for_ready existing

  -- `_acquire_catalog`
  unfoldable pub acquire_catalog :
      CatalogPodCapacityRequest → String → String → Bool → Action TrainingPodLease
  acquire_catalog request environment_sha256 fingerprint wait_for_ready = do
    require env.has_workload_transport
    require (elim request.artifact_handoff_protocol_version [ none ↦ false | some v ↦ v == 1 ])
    existing ← get request.capacity_id
    replay_or_admit request environment_sha256 fingerprint wait_for_ready existing

  -- `poll_catalog_readiness`
  unfoldable pub poll_catalog_readiness : String → String → String → Action TrainingPodLease
  poll_catalog_readiness capacity_id owner_id workload_id =
      get_catalog_capacity capacity_id owner_id workload_id >>= λ lease.
      when not (is_starting lease.state)
      run pure lease
      otherwise (refuse (is_none lease.provider_pod_id || lease.creation_uncertain) conflict
          >>= λ _. heartbeat env capacity_id >>= λ beaten.
              profile env beaten.profile_id >>= λ _. observe_readiness env beaten)
