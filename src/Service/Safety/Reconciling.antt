-- ===== src/Service/Safety/Reconciling.antt =====
-- Reconciliation revives no released row.
use kestrel_cloud_runpod.Prelude.{ℕ, String, Option, none, some, List, [], ◌∷◌}
use kestrel_cloud_runpod.Capacity.Lease.{TrainingPodLease, PodCapacitySpec}
use kestrel_cloud_runpod.Capacity.Errors.{Error, Result}
use kestrel_cloud_runpod.Repository.Columns.{assign_all}
use kestrel_cloud_runpod.Repository.Table.{Table}
use kestrel_cloud_runpod.Repository.Evolution.{Seen, Seen-Grows}
use kestrel_cloud_runpod.Service.World.{Environment, Action, pure, ◌>>=◌}
use kestrel_cloud_runpod.Service.Reconcile.{
  settle_unused, release_unused, settle_stopped, refresh_route, reconcile_route, job_status,
  reconcile_job, reconcile_workload, reconcile_uncertain, reconcile_active, reconcile_lease,
  reconcile_found, reconcile_one, record_error, record_reconcile_error, collect, reconcile_roots,
  reconcile_each, reconcile,
}
use kestrel_cloud_runpod.Service.Safety.{
  Safely, Anything, Found, Safely-pure, Safely-if, Safely-try, Safely-try_else, Safely-bind,
  Safely-ask, Safely-get, Safely-query, Safely-compare_and_set,
}
use kestrel_cloud_runpod.Service.Safety.Transitions.{Safely-pure-Seen}
use kestrel_cloud_runpod.Service.Safety.Settlement.{Safely-then, reconcile_billing-Safely}
use kestrel_cloud_runpod.Service.Safety.Release.{resolve_uncertain_creation-Safely}
use kestrel_cloud_runpod.Service.Safety.Mutations.{
  record_operation_error-Safely, record_status-Safely,
}
use kestrel_cloud_runpod.Service.Safety.Family.{release-Safely}
use kestrel_cloud_runpod.Service.Safety.Acquiring.{safe}
use kestrel_cloud_runpod.Service.Safety.Working.{observe_catalog_workload-Safely}

ruleset reconciling = (
  safe, reconcile_billing-Safely, resolve_uncertain_creation-Safely, record_operation_error-Safely,
  record_status-Safely, release-Safely, observe_catalog_workload-Safely,
)

-- An option of a row, behind an action.
Safely-Found :
    (m : Action TrainingPodLease) {base : Table}
    → Safely base Seen m
    → Safely base Found (m >>= λ l. pure (some l))
Safely-Found m s =
    Safely-bind _ _ s
      (λ l rows g seen. Safely-pure (some l) (λ last g'. Seen-Grows l rows last g' seen))

module _ (env : Environment) where
  release_unused-Safely :
      (l : TrainingPodLease) (t : ℕ) {base : Table}
      → Seen l base
      → Safely base Seen (release_unused env l t)
  unfolding release_unused settle_unused
  release_unused-Safely l t s = search reconciling depth 24

  settle_stopped-Safely :
      (l : TrainingPodLease) (t : ℕ) {base : Table}
      → Seen l base
      → Safely base Seen (settle_stopped env l t)
  unfolding settle_stopped
  settle_stopped-Safely l t s = search reconciling depth 24

  refresh_route-Safely :
      (l : TrainingPodLease) (t : ℕ) (pod : Option String) {base : Table}
      → Seen l base
      → Safely base Seen (refresh_route env l t pod)
  unfolding refresh_route assign_all
  refresh_route-Safely l t none s = search safe
  refresh_route-Safely l t (some pod) {base} s =
      Safely-if _ _ _ (λ _. Safely-pure-Seen l s)
        (λ _.
          Safely-if _ _ _ (λ _. Safely-pure-Seen l s)
            (λ _. Safely-then _ _ (Safely-ask _ _) (λ o rows g.
              Safely-if _ _ _ (λ _. settle_stopped-Safely l t (Seen-Grows l base rows g s))
                (λ _. Safely-compare_and_set env l _ (Seen-Grows l base rows g s) (λ _ h. h)))))

  reconcile_route-Safely :
      (l : TrainingPodLease) (t : ℕ) {base : Table}
      → Seen l base
      → Safely base Seen (reconcile_route env l t)
  unfolding reconcile_route
  reconcile_route-Safely l t s = search (reconciling, refresh_route-Safely) depth 12

  job_status-Safely :
      (l : TrainingPodLease) (t : ℕ) (status : Option String) {base : Table}
      → Seen l base
      → Safely base Seen (job_status env l t status)
  unfolding job_status
  job_status-Safely l t none s = reconcile_route-Safely l t s
  job_status-Safely l t (some status) s = search reconciling depth 12

  reconcile_job-Safely :
      (l : TrainingPodLease) (t : ℕ)
      (observer : Option (ℕ → TrainingPodLease → Result (Option String))) {base : Table}
      → Seen l base
      → Safely base Seen (reconcile_job env l t observer)
  unfolding reconcile_job
  reconcile_job-Safely l t none s = reconcile_route-Safely l t s
  reconcile_job-Safely l t (some observer) s =
      search (reconciling, reconcile_route-Safely, job_status-Safely) depth 20

  reconcile_workload-Safely :
      (l : TrainingPodLease) (t : ℕ) (spec : Option PodCapacitySpec) {base : Table}
      → Seen l base
      → Safely base Seen (reconcile_workload env l t spec)
  unfolding reconcile_workload
  reconcile_workload-Safely l t none s = reconcile_job-Safely l t _ s
  reconcile_workload-Safely l t (some spec) s = search (reconciling, reconcile_job-Safely) depth 12

  reconcile_active-Safely :
      (l : TrainingPodLease) (t : ℕ) {base : Table}
      → Seen l base
      → Safely base Seen (reconcile_active env l t)
  unfolding reconcile_active reconcile_uncertain
  reconcile_active-Safely l t s =
      search (reconciling, release_unused-Safely, reconcile_workload-Safely) depth 20

  reconcile_lease-Safely :
      (l : TrainingPodLease) {base : Table} → Seen l base → Safely base Seen (reconcile_lease env l)
  unfolding reconcile_lease
  reconcile_lease-Safely l s = search (reconciling, reconcile_active-Safely) depth 12

  reconcile_found-Safely :
      (o : Option TrainingPodLease) {base : Table}
      → Found o base
      → Safely base Found (reconcile_found env o)
  unfolding reconcile_found
  reconcile_found-Safely none s = Safely-pure none (λ _ _. tt)
  reconcile_found-Safely (some l) s = Safely-Found _ (reconcile_lease-Safely l s)

  -- One lease of the pass: what is returned is the row of the table.
  pub reconcile_one-Safely :
      (token : String) {base : Table} → Safely base Found (reconcile_one env token)
  unfolding reconcile_one
  reconcile_one-Safely token =
      Safely-bind _ _ (Safely-get token) (λ o rows g s. reconcile_found-Safely o s)

  record_error-Safely :
      (token : String) (e : Error) (o : Option TrainingPodLease) {base : Table}
      → Found o base
      → Safely base Found (record_error env token e o)
  unfolding record_error assign_all
  record_error-Safely token e none s = Safely-pure none (λ _ _. tt)
  record_error-Safely token e (some l) {base} s =
      Safely-if _ _ _ (λ _. Safely-pure (some l) (λ rows g. Seen-Grows l base rows g s))
        (λ _.
          Safely-try _ _ _ (Safely-Found _ (Safely-compare_and_set env l _ s (λ _ h. h)))
            (λ _. Safely-get token))

  record_reconcile_error-Safely :
      (token : String) (e : Error) {base : Table}
      → Safely base Found (record_reconcile_error env token e)
  unfolding record_reconcile_error
  record_reconcile_error-Safely token e =
      Safely-bind _ _ (Safely-get token) (λ o rows g s. record_error-Safely token e o s)

  collect-Safely :
      (rest : Action (List TrainingPodLease)) (o : Option TrainingPodLease) {base : Table}
      → Safely base Anything rest
      → Safely base Anything (collect env rest o)
  unfolding collect
  collect-Safely rest none s = s
  collect-Safely rest (some l) s = Safely-then _ _ s (λ ls rows g. Safely-pure _ (λ _ _. tt))

  reconcile_roots-Safely :
      (ls : List TrainingPodLease) (base : Table) → Safely base Anything (reconcile_roots env ls)
  unfolding reconcile_roots
  reconcile_roots-Safely [] base = Safely-pure [] (λ _ _. tt)
  reconcile_roots-Safely (l ∷ ls) base =
      Safely-try_else _ _ _ _ (release-Safely env _ _)
        (λ r rows g s. collect-Safely _ (some r) (reconcile_roots-Safely ls rows))
        (λ e rows g.
          Safely-bind _ _ (record_reconcile_error-Safely _ e)
            (λ r rows' g' s. collect-Safely _ r (reconcile_roots-Safely ls rows')))

  reconcile_each-Safely :
      (ls : List TrainingPodLease) (base : Table) → Safely base Anything (reconcile_each env ls)
  unfolding reconcile_each
  reconcile_each-Safely [] base = Safely-pure [] (λ _ _. tt)
  reconcile_each-Safely (l ∷ ls) base =
      Safely-try_else _ _ _ _ (reconcile_one-Safely _)
        (λ r rows g s. collect-Safely _ r (reconcile_each-Safely ls rows))
        (λ e rows g.
          Safely-bind _ _ (record_reconcile_error-Safely _ e)
            (λ r rows' g' s. collect-Safely _ r (reconcile_each-Safely ls rows')))

  pub reconcile-Safely : {base : Table} → Safely base Anything (reconcile env)
  unfolding reconcile
  reconcile-Safely = Safely-then _ _ (Safely-query _) (λ roots rows g.
      Safely-then _ _ (reconcile_roots-Safely roots rows) (λ released a ga.
        Safely-then _ _ (Safely-query _) (λ pending b gb.
          Safely-then _ _ (reconcile_each-Safely pending b)
            (λ reconciled c gc. Safely-pure _ (λ _ _. tt)))))
