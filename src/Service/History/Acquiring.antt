-- ===== src/Service/History/Acquiring.antt =====
-- Acquisition and readiness keep the claims of active rows apart.
use kestrel_cloud_runpod.Prelude.{ℕ, zero, suc, String, Option, none, some, Bool}
use kestrel_cloud_runpod.Capacity.Lease.{
  TrainingPodLease, TrainingPodRequest, PodCapacitySpec, CatalogPodCapacityRequest,
}
use kestrel_cloud_runpod.Capacity.Errors.{Error, cancelled, lifecycle_error, cleanup_error}
use kestrel_cloud_runpod.Repository.Unique.{reserve-IsExclusive}
use kestrel_cloud_runpod.Service.World.{Environment}
use kestrel_cloud_runpod.Service.Release.{pod_id}
use kestrel_cloud_runpod.Service.Acquire.{
  profile, cleanup_cancelled, raise_after_cleanup, disclaim, discovery_failed, start_failed,
  started, start_stopped, adopt_running, acquire_observed, acquire_existing, create_mismatched,
  create_ambiguous, reject_catalog, reject_training, create_rejected, create_failed, create_pod,
  create_accepted, acquire_created,
}
use kestrel_cloud_runpod.Service.Readiness.{
  sleep_interrupted, Probe, returned, proceed, enforce_readiness_deadline, unhealthy, check_health,
  assess, record_observed, probe, probe_failed, promote, probed, observe_readiness, wait_loop,
  wait_ready, reuse, provision, claimed, acquire_reserved,
}
use kestrel_cloud_runpod.Service.Admission.{
  owner_bound, find_catalog_capacity, get_catalog_capacity, load_capability, replay, admit,
  replay_or_admit, acquire_catalog, poll_catalog_readiness,
}
use kestrel_cloud_runpod.Service.History.Exclusive.{Keeps, Keeps-bind, Keeps-transact, Keeps-get}
use kestrel_cloud_runpod.Service.History.Settling.{
  apart, transition_nonterminal-Keeps, transition_with_evidence-Keeps,
  record_retryable_failure-Keeps, zero_cost_receipt-Keeps, revoke_and_release-Keeps,
  release_unowned_claim-Keeps,
}
use kestrel_cloud_runpod.Service.History.Claims.{release_one-Keeps, heartbeat-Keeps}

ruleset claims = (
  apart, transition_nonterminal-Keeps, transition_with_evidence-Keeps,
  record_retryable_failure-Keeps, zero_cost_receipt-Keeps, revoke_and_release-Keeps,
  release_one-Keeps, heartbeat-Keeps, release_unowned_claim-Keeps,
)

owner_bound-Keeps :
    (owner workload : String) (o : Option TrainingPodLease) → Keeps (owner_bound owner workload o)
unfolding owner_bound
owner_bound-Keeps owner workload none = search claims
owner_bound-Keeps owner workload (some l) = search claims depth 12

module _ (env : Environment) where
  cleanup_cancelled-Keeps :
      {A : Type 0} (l : TrainingPodLease) (operation : String)
      → Keeps (cleanup_cancelled env {A = A} l operation)
  unfolding cleanup_cancelled
  cleanup_cancelled-Keeps l operation = search claims

  raise_after_cleanup-Keeps :
      {A : Type 0} (l : TrainingPodLease) (operation : String)
      → Keeps (raise_after_cleanup env {A = A} l operation)
  unfolding raise_after_cleanup
  raise_after_cleanup-Keeps l operation = search claims

  disclaim-Keeps :
      {A : Type 0} (l : TrainingPodLease) (operation : String) (e : Option Error)
      → Keeps (disclaim env {A = A} l operation e)
  unfolding disclaim
  disclaim-Keeps l operation e = search claims

  discovery_failed-Keeps : (l : TrainingPodLease) (e : Error) → Keeps (discovery_failed env l e)
  unfolding discovery_failed
  discovery_failed-Keeps l cancelled = search claims
  discovery_failed-Keeps l _ = search disclaim-Keeps

  started-Keeps : (l : TrainingPodLease) → Keeps (started env l)
  unfolding started
  started-Keeps l = search claims depth 12

  start_failed-Keeps : (l : TrainingPodLease) (e : Error) → Keeps (start_failed env l e)
  unfolding start_failed
  start_failed-Keeps l cancelled = cleanup_cancelled-Keeps l _
  start_failed-Keeps l _ = search claims depth 12

  start_stopped-Keeps : (l : TrainingPodLease) (pod : String) → Keeps (start_stopped env l pod)
  unfolding start_stopped
  start_stopped-Keeps l pod = search (claims, started-Keeps, start_failed-Keeps) depth 12

  adopt_running-Keeps :
      (l : TrainingPodLease) (url : Option String) → Keeps (adopt_running env l url)
  unfolding adopt_running
  adopt_running-Keeps l url = search claims depth 12

  acquire_existing-Keeps : (l : TrainingPodLease) → Keeps (acquire_existing env l)
  unfolding acquire_existing acquire_observed pod_id
  acquire_existing-Keeps l =
      search
        (claims, adopt_running-Keeps, start_stopped-Keeps, disclaim-Keeps, discovery_failed-Keeps)
        depth 20

  create_failed-Keeps : (l : TrainingPodLease) (e : Error) → Keeps (create_failed env l e)
  unfolding create_failed create_mismatched create_ambiguous create_rejected reject_catalog
      reject_training
  create_failed-Keeps l cancelled = search (claims, cleanup_cancelled-Keeps) depth 12
  create_failed-Keeps l _ = search claims depth 20

  acquire_created-Keeps : (l : TrainingPodLease) → Keeps (acquire_created env l)
  unfolding acquire_created create_pod create_accepted
  acquire_created-Keeps l = search (claims, create_failed-Keeps) depth 20

  enforce_readiness_deadline-Keeps :
      (l : TrainingPodLease) → Keeps (enforce_readiness_deadline env l)
  unfolding enforce_readiness_deadline
  enforce_readiness_deadline-Keeps l = search (claims, raise_after_cleanup-Keeps) depth 12

  check_health-Keeps : (l : TrainingPodLease) (url : Option String) → Keeps (check_health env l url)
  unfolding check_health unhealthy
  check_health-Keeps l none = search claims
  check_health-Keeps l (some url) = search claims depth 20

  probe-Keeps : (l : TrainingPodLease) → Keeps (probe env l)
  unfolding probe record_observed assess pod_id
  probe-Keeps l = search (claims, raise_after_cleanup-Keeps, check_health-Keeps) depth 24

  probe_failed-Keeps : (l : TrainingPodLease) (e : Error) → Keeps (probe_failed env l e)
  unfolding probe_failed
  probe_failed-Keeps l cancelled = cleanup_cancelled-Keeps l _
  probe_failed-Keeps l (lifecycle_error f) = search claims
  probe_failed-Keeps l (cleanup_error f) = search claims
  probe_failed-Keeps l _ = search (claims, raise_after_cleanup-Keeps) depth 12

  probed-Keeps : (p : Probe) → Keeps (probed env p)
  unfolding probed promote
  probed-Keeps (returned l) = search claims
  probed-Keeps (proceed l) = search (claims, enforce_readiness_deadline-Keeps) depth 20

  observe_readiness-Keeps : (l : TrainingPodLease) → Keeps (observe_readiness env l)
  unfolding observe_readiness
  observe_readiness-Keeps l =
      search
        (claims, enforce_readiness_deadline-Keeps, probe-Keeps, probed-Keeps, probe_failed-Keeps)
        depth 20

  sleep_interrupted-Keeps : (l : TrainingPodLease) (e : Error) → Keeps (sleep_interrupted env l e)
  unfolding sleep_interrupted
  sleep_interrupted-Keeps l cancelled = cleanup_cancelled-Keeps l _
  sleep_interrupted-Keeps l _ = search claims

  wait_loop-Keeps : (n : ℕ) (l : TrainingPodLease) → Keeps (wait_loop env n l)
  unfolding wait_loop
  wait_loop-Keeps zero l = search claims
  wait_loop-Keeps (suc n) l =
      search (claims, observe_readiness-Keeps, sleep_interrupted-Keeps, wait_loop-Keeps n) depth 12

  pub acquire_reserved-Keeps :
      (r : TrainingPodRequest) (b : Bool) → Keeps (acquire_reserved env r b)
  unfolding acquire_reserved claimed reuse provision profile wait_ready
  acquire_reserved-Keeps r b = Keeps-bind _ _ (search claims) (λ _.
      Keeps-bind _ _ (Keeps-transact _ (reserve-IsExclusive r)) (λ claim.
        search (claims, acquire_created-Keeps, acquire_existing-Keeps, wait_loop-Keeps) depth 20))

  pub get_catalog_capacity-Keeps :
      (capacity owner workload : String) → Keeps (get_catalog_capacity capacity owner workload)
  unfolding get_catalog_capacity find_catalog_capacity
  get_catalog_capacity-Keeps capacity owner workload =
      search (claims, Keeps-get, owner_bound-Keeps owner workload) depth 12

  pub load_capability-Keeps : (spec : PodCapacitySpec) → Keeps (load_capability env spec)
  unfolding load_capability
  load_capability-Keeps spec = search claims depth 20

  replay_or_admit-Keeps :
      (r : CatalogPodCapacityRequest) (sha fingerprint : String) (b : Bool)
      (o : Option TrainingPodLease)
      → Keeps (replay_or_admit env r sha fingerprint b o)
  unfolding replay_or_admit replay admit
  replay_or_admit-Keeps r sha fingerprint b none = search (claims, acquire_reserved-Keeps) depth 30
  replay_or_admit-Keeps r sha fingerprint b (some l) = search claims depth 20

  pub acquire_catalog-Keeps :
      (r : CatalogPodCapacityRequest) (sha fingerprint : String) (b : Bool)
      → Keeps (acquire_catalog env r sha fingerprint b)
  unfolding acquire_catalog
  acquire_catalog-Keeps r sha fingerprint b =
      search (claims, Keeps-get, replay_or_admit-Keeps) depth 12

  pub poll_catalog_readiness-Keeps :
      (capacity owner workload : String)
      → Keeps (poll_catalog_readiness env capacity owner workload)
  unfolding poll_catalog_readiness profile
  poll_catalog_readiness-Keeps capacity owner workload =
      search (claims, get_catalog_capacity-Keeps, observe_readiness-Keeps) depth 20
