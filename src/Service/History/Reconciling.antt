-- ===== src/Service/History/Reconciling.antt =====
-- The steps of the reconciliation pass keep the claims of active rows apart.
use kestrel_cloud_runpod.Prelude.{ℕ, String, Option, none, some, List, [], ◌∷◌}
use kestrel_cloud_runpod.Capacity.Lease.{TrainingPodLease, PodCapacitySpec}
use kestrel_cloud_runpod.Capacity.Errors.{Error, Result}
use kestrel_cloud_runpod.Service.World.{Environment, Action}
use kestrel_cloud_runpod.Service.History.Exclusive.{
  Keeps, Keeps-bind, Keeps-try_else, Keeps-get, Keeps-query,
}
use kestrel_cloud_runpod.Service.History.Settling.{
  apart, transition_with_evidence-Keeps, zero_cost_receipt-Keeps, revoke_and_release-Keeps,
  release_unowned_claim-Keeps, reconcile_billing-Keeps,
}
use kestrel_cloud_runpod.Service.History.Claims.{
  release_one-Keeps, release-Keeps, record_operation_error-Keeps, record_status-Keeps,
  resolve_uncertain_creation-Keeps,
}
use kestrel_cloud_runpod.Service.Reconcile.{
  settle_unused, release_unused, settle_stopped, refresh_route, reconcile_route, job_status,
  reconcile_job, reconcile_workload, reconcile_uncertain, reconcile_active, reconcile_lease,
  reconcile_found, reconcile_one, record_error, record_reconcile_error, collect, reconcile_roots,
  reconcile_each, reconcile,
}
use kestrel_cloud_runpod.Service.History.Working.{observe_catalog_workload-Keeps}

ruleset reconciling = (
  apart, transition_with_evidence-Keeps, release_unowned_claim-Keeps, zero_cost_receipt-Keeps,
  revoke_and_release-Keeps, reconcile_billing-Keeps, release_one-Keeps, record_status-Keeps,
  record_operation_error-Keeps, resolve_uncertain_creation-Keeps, release-Keeps, Keeps-get,
  Keeps-query, observe_catalog_workload-Keeps,
)

module _ (env : Environment) where
  release_unused-Keeps : (l : TrainingPodLease) (t : ℕ) → Keeps (release_unused env l t)
  unfolding release_unused settle_unused
  release_unused-Keeps l t = search reconciling depth 24

  settle_stopped-Keeps : (l : TrainingPodLease) (t : ℕ) → Keeps (settle_stopped env l t)
  unfolding settle_stopped
  settle_stopped-Keeps l t = search reconciling depth 24

  refresh_route-Keeps :
      (l : TrainingPodLease) (t : ℕ) (pod : Option String) → Keeps (refresh_route env l t pod)
  unfolding refresh_route
  refresh_route-Keeps l t none = search reconciling
  refresh_route-Keeps l t (some pod) = search (reconciling, settle_stopped-Keeps) depth 20

  reconcile_route-Keeps : (l : TrainingPodLease) (t : ℕ) → Keeps (reconcile_route env l t)
  unfolding reconcile_route
  reconcile_route-Keeps l t = search (reconciling, refresh_route-Keeps) depth 12

  job_status-Keeps :
      (l : TrainingPodLease) (t : ℕ) (s : Option String) → Keeps (job_status env l t s)
  unfolding job_status
  job_status-Keeps l t none = reconcile_route-Keeps l t
  job_status-Keeps l t (some s) = search reconciling depth 12

  reconcile_job-Keeps :
      (l : TrainingPodLease) (t : ℕ) (o : Option (ℕ → TrainingPodLease → Result (Option String)))
      → Keeps (reconcile_job env l t o)
  unfolding reconcile_job
  reconcile_job-Keeps l t none = reconcile_route-Keeps l t
  reconcile_job-Keeps l t (some o) =
      search (reconciling, reconcile_route-Keeps, job_status-Keeps) depth 20

  reconcile_workload-Keeps :
      (l : TrainingPodLease) (t : ℕ) (s : Option PodCapacitySpec)
      → Keeps (reconcile_workload env l t s)
  unfolding reconcile_workload
  reconcile_workload-Keeps l t none = reconcile_job-Keeps l t _
  reconcile_workload-Keeps l t (some s) = search (reconciling, reconcile_job-Keeps) depth 12

  reconcile_active-Keeps : (l : TrainingPodLease) (t : ℕ) → Keeps (reconcile_active env l t)
  unfolding reconcile_active reconcile_uncertain
  reconcile_active-Keeps l t =
      search (reconciling, release_unused-Keeps, reconcile_workload-Keeps) depth 20

  reconcile_found-Keeps : (o : Option TrainingPodLease) → Keeps (reconcile_found env o)
  unfolding reconcile_found reconcile_lease
  reconcile_found-Keeps none = search reconciling
  reconcile_found-Keeps (some l) = search (reconciling, reconcile_active-Keeps) depth 20

  reconcile_one-Keeps : (token : String) → Keeps (reconcile_one env token)
  unfolding reconcile_one
  reconcile_one-Keeps token = search (reconciling, reconcile_found-Keeps) depth 12

  record_error-Keeps :
      (token : String) (e : Error) (o : Option TrainingPodLease)
      → Keeps (record_error env token e o)
  unfolding record_error
  record_error-Keeps token e none = search reconciling
  record_error-Keeps token e (some l) = search reconciling depth 20

  record_reconcile_error-Keeps :
      (token : String) (e : Error) → Keeps (record_reconcile_error env token e)
  unfolding record_reconcile_error
  record_reconcile_error-Keeps token e = search (reconciling, record_error-Keeps) depth 12

  collect-Keeps :
      (rest : Action (List TrainingPodLease)) (o : Option TrainingPodLease)
      → Keeps rest
      → Keeps (collect env rest o)
  unfolding collect
  collect-Keeps rest none k = k
  collect-Keeps rest (some l) k = search apart depth 12

  reconcile_roots-Keeps : (ls : List TrainingPodLease) → Keeps (reconcile_roots env ls)
  unfolding reconcile_roots
  reconcile_roots-Keeps [] = search apart
  reconcile_roots-Keeps (l ∷ ls) =
      Keeps-try_else _ _ _ _ (release-Keeps env _ _)
        (λ r. collect-Keeps _ (some r) (reconcile_roots-Keeps ls))
        (λ e.
          Keeps-bind _ _ (record_reconcile_error-Keeps _ e)
            (λ r. collect-Keeps _ r (reconcile_roots-Keeps ls)))

  reconcile_each-Keeps : (ls : List TrainingPodLease) → Keeps (reconcile_each env ls)
  unfolding reconcile_each
  reconcile_each-Keeps [] = search apart
  reconcile_each-Keeps (l ∷ ls) =
      Keeps-try_else _ _ _ _ (reconcile_one-Keeps _)
        (λ r. collect-Keeps _ r (reconcile_each-Keeps ls))
        (λ e.
          Keeps-bind _ _ (record_reconcile_error-Keeps _ e)
            (λ r. collect-Keeps _ r (reconcile_each-Keeps ls)))

  pub reconcile-Keeps : Keeps (reconcile env)
  unfolding reconcile
  reconcile-Keeps = search (reconciling, reconcile_roots-Keeps, reconcile_each-Keeps) depth 20
