-- ===== src/Service/Reconcile.antt =====
-- The reconciliation pass: `reconcile`, `_reconcile_one` and `_record_reconcile_error`.
use kestrel_cloud_runpod.Prelude.{
  ℕ, ◌+◌, ◌*◌, String, Option, none, some, List, [], ◌∷◌, Bool, not, ◌&&◌, ◌||◌, ltb, leb, str_eq,
  is_none, any, ◌++◌,
}
use kestrel_cloud_runpod.Capacity.States.{
  TrainingPodState, TrainingPodCleanupState, PodCapacityBillingState, is_requested, is_starting,
  is_ready, is_job_submitted, is_cancel_requested, is_created, is_unsettled, needs_teardown,
}
use kestrel_cloud_runpod.Capacity.Evidence.{stop_confirmed_at, billing_reconciled_at}
use kestrel_cloud_runpod.Capacity.Lease.{
  TrainingPodLease, PodCapacitySpec, is_terminal, is_catalog_attempt,
}
use kestrel_cloud_runpod.Capacity.Errors.{
  Error, is_manager_error, is_conflict, sanitize_training_error, Result,
}
use kestrel_cloud_runpod.Repository.Columns
use kestrel_cloud_runpod.Repository.Listing
use kestrel_cloud_runpod.Service.World.{
  Environment, Action, Call, pure, ◌>>=◌, try_except, try_else, when◌run◌otherwise◌, ask, now,
  transact, compare_and_set, get, required,
}
use kestrel_cloud_runpod.Service.Transitions.{
  given, nothing_observed, saw, transition_with_evidence, release_unowned_claim,
}
use kestrel_cloud_runpod.Service.Settlement.{
  zero_cost_receipt, revoke_and_release, reconcile_billing,
}
use kestrel_cloud_runpod.Service.Release.{
  nonempty, is_unresolved, resolve_uncertain_creation, release_one,
}
use kestrel_cloud_runpod.Service.Mutations.{record_status, record_operation_error}
use kestrel_cloud_runpod.Service.Family.{release}
use kestrel_cloud_runpod.Service.Workload.{observe_catalog_workload}

-- `timedelta(seconds=idle_timeout)`, in microseconds.
abbrev pub idle_timeout : Environment → Option PodCapacitySpec → ℕ
idle_timeout env none = env.orphan_timeout_seconds * 1000000
idle_timeout env (some spec) = spec.request.idle_timeout_seconds * 1000000

abbrev pub is_stale : Environment → ℕ → TrainingPodLease → Bool
is_stale env t lease = leb (lease.last_heartbeat_at + idle_timeout env lease.capacity_spec) t

module _ (env : Environment) where
  -- A claim that was never used: nothing was created, so nothing was billed.
  unfoldable pub settle_unused : TrainingPodLease → ℕ → Action TrainingPodLease
  settle_unused lease t = do
    receipt ← zero_cost_receipt env lease "before-create"
    released ←
        transition_with_evidence env lease
          (Columns.state TrainingPodState.releasing
            ∷ Columns.cleanup_state TrainingPodCleanupState.complete
            ∷ Columns.last_provider_error none
            ∷ Columns.billing_state PodCapacityBillingState.authoritative
            ∷ Columns.billing_receipt_json (some receipt)
            ∷ Columns.terminated_at (some t)
            ∷ [])
          (record nothing_observed {
            lifecycle = (billing_reconciled_at, t) ∷ [];
            billing = given (some receipt);
          })
          none
    when is_catalog_attempt released run revoke_and_release env released otherwise pure released

  unfoldable pub release_unused : TrainingPodLease → ℕ → Action TrainingPodLease
  release_unused lease t =
      when not (is_created lease.source)
      run release_unowned_claim env lease none
      otherwise when is_catalog_attempt lease
      run settle_unused lease t
      otherwise (transition_with_evidence env lease
            (Columns.state TrainingPodState.released
              ∷ Columns.cleanup_state TrainingPodCleanupState.complete
              ∷ Columns.last_provider_error none
              ∷ [])
            nothing_observed none
          >>= λ released.
              when is_catalog_attempt released
              run revoke_and_release env released
              otherwise pure released)

  -- A Pod that stopped by itself.
  unfoldable pub settle_stopped : TrainingPodLease → ℕ → Action TrainingPodLease
  settle_stopped lease t = do
    stopped ←
        when is_catalog_attempt lease
        run transition_with_evidence env lease
            (Columns.state TrainingPodState.releasing
              ∷ Columns.cleanup_state TrainingPodCleanupState.complete
              ∷ Columns.backend_base_url none
              ∷ Columns.last_provider_error none
              ∷ Columns.billing_state PodCapacityBillingState.pending
              ∷ Columns.terminated_at (some t)
              ∷ [])
            (saw ((stop_confirmed_at, t) ∷ [])) none
        otherwise transition_with_evidence env lease
            (Columns.state TrainingPodState.released
              ∷ Columns.cleanup_state TrainingPodCleanupState.complete
              ∷ Columns.backend_base_url none
              ∷ Columns.last_provider_error none
              ∷ [])
            nothing_observed none
    when is_catalog_attempt stopped run reconcile_billing env stopped otherwise pure stopped

  -- The end of `_reconcile_one`: a Pod that should be running is observed.
  unfoldable pub refresh_route : TrainingPodLease → ℕ → Option String → Action TrainingPodLease
  refresh_route lease t none = pure lease
  refresh_route lease t (some pod) =
      when not (is_starting lease.state || is_ready lease.state)
      run pure lease
      otherwise when not (any (str_eq lease.profile_id) env.profile_ids)
      run pure lease
      otherwise (ask (Call.observe pod) (λ n. env.observe n pod) >>= λ o.
          when o.is_stopped
          run settle_stopped lease t
          otherwise compare_and_set env lease
              (Columns.backend_base_url o.backend_base_url ∷ Columns.last_provider_error none ∷ []))

  unfoldable pub reconcile_route : TrainingPodLease → ℕ → Action TrainingPodLease
  reconcile_route lease t =
      when (is_starting lease.state || is_ready lease.state) && is_stale env t lease
      run release_one env lease.cleanup_token "orphaned acquisition"
      otherwise refresh_route lease t (nonempty lease.provider_pod_id)

  -- What the observer of training jobs answered.
  unfoldable pub job_status : TrainingPodLease → ℕ → Option String → Action TrainingPodLease
  job_status lease t none = reconcile_route lease t
  job_status lease t (some status) = record_status env lease.cleanup_token status >>= λ recorded.
      when is_cancel_requested recorded.state
      run release_one env lease.cleanup_token "terminal training job"
      otherwise pure recorded

  unfoldable pub reconcile_job :
      TrainingPodLease
      → ℕ
      → Option (ℕ → TrainingPodLease → Result (Option String))
      → Action TrainingPodLease
  reconcile_job lease t none = reconcile_route lease t
  reconcile_job lease t (some observer) =
      when not (is_job_submitted lease.state)
      run reconcile_route lease t
      otherwise try_else (ask (Call.observe_status lease.cleanup_token) (λ n. observer n lease))
          (job_status lease t) is_manager_error (record_operation_error env lease.cleanup_token)

  unfoldable pub reconcile_workload :
      TrainingPodLease → ℕ → Option PodCapacitySpec → Action TrainingPodLease
  reconcile_workload lease t none = reconcile_job lease t env.workload_status_observer
  reconcile_workload lease t (some spec) =
      when not (is_job_submitted lease.state)
      run reconcile_job lease t env.workload_status_observer
      otherwise (observe_catalog_workload env lease.cleanup_token spec.request.owner_id
            spec.request.workload_id
          >>= λ _. required lease.cleanup_token)

  unfoldable pub reconcile_uncertain : TrainingPodLease → ℕ → Action TrainingPodLease
  reconcile_uncertain lease t =
      when not (is_stale env t lease) && ltb t lease.hard_deadline
      run pure lease
      otherwise (resolve_uncertain_creation env lease "reconcile" >>= λ resolved.
          when is_none resolved.provider_pod_id
          run pure resolved
          otherwise release_one env lease.cleanup_token "recovered create")

  -- `_reconcile_one` on an active lease, at the time `t`.
  unfoldable pub reconcile_active : TrainingPodLease → ℕ → Action TrainingPodLease
  reconcile_active lease t =
      when is_requested lease.state && (is_stale env t lease || leb lease.readiness_deadline t)
      run release_unused lease t
      otherwise when is_requested lease.state
      run pure lease
      otherwise when is_unresolved env lease
      run reconcile_uncertain lease t
      otherwise when needs_teardown lease.state
      run release_one env lease.cleanup_token "retry teardown"
      otherwise when leb lease.hard_deadline t
      run release_one env lease.cleanup_token "hard deadline"
      otherwise reconcile_workload lease t lease.capacity_spec

  unfoldable pub reconcile_lease : TrainingPodLease → Action TrainingPodLease
  reconcile_lease lease =
      when is_terminal lease
      run (when is_unsettled lease.billing_state
          run reconcile_billing env lease
          otherwise pure lease)
      otherwise (now env >>= λ t. reconcile_active lease t)

  unfoldable pub reconcile_found : Option TrainingPodLease → Action (Option TrainingPodLease)
  reconcile_found none = pure none
  reconcile_found (some lease) = reconcile_lease lease >>= λ l. pure (some l)

  -- `_reconcile_one`
  unfoldable pub reconcile_one : String → Action (Option TrainingPodLease)
  reconcile_one cleanup_token = do found ← get cleanup_token; reconcile_found found

  unfoldable pub record_error :
      String → Error → Option TrainingPodLease → Action (Option TrainingPodLease)
  record_error cleanup_token e none = pure none
  record_error cleanup_token e (some lease) =
      when is_terminal lease && not (is_unsettled lease.billing_state)
      run pure (some lease)
      otherwise try_except
          (compare_and_set env lease
              (Columns.last_provider_error (some (sanitize_training_error e)) ∷ [])
            >>= λ l. pure (some l))
          is_conflict (λ _. get cleanup_token)

  -- `_record_reconcile_error`
  unfoldable pub record_reconcile_error : String → Error → Action (Option TrainingPodLease)
  record_reconcile_error cleanup_token e = do
    found ← get cleanup_token
    record_error cleanup_token e found

  -- `results.append(result)`, behind the other leases of the pass.
  unfoldable pub collect :
      Action (List TrainingPodLease) → Option TrainingPodLease → Action (List TrainingPodLease)
  collect rest none = rest
  collect rest (some l) = rest >>= λ ls. pure (l ∷ ls)

  -- The two loops of `reconcile`: an error of one lease does not stop the pass.
  unfoldable pub reconcile_roots : List TrainingPodLease → Action (List TrainingPodLease)
  reconcile_roots [] = pure []
  reconcile_roots (root ∷ roots) =
      try_else (release env root.cleanup_token "restart family release")
        (λ l. collect (reconcile_roots roots) (some l)) is_manager_error
        (λ e.
          record_reconcile_error root.cleanup_token e >>= λ r. collect (reconcile_roots roots) r)

  unfoldable pub reconcile_each : List TrainingPodLease → Action (List TrainingPodLease)
  reconcile_each [] = pure []
  reconcile_each (initial ∷ more) =
      try_else (reconcile_one initial.cleanup_token) (λ r. collect (reconcile_each more) r)
        is_manager_error
        (λ e.
          record_reconcile_error initial.cleanup_token e >>= λ r. collect (reconcile_each more) r)

  -- `reconcile`
  unfoldable pub reconcile : Action (List TrainingPodLease)
  reconcile = do
    roots ← transact (λ rows. (Listing.list_incomplete_family_releases rows, rows))
    released ← reconcile_roots roots
    pending ← transact (λ rows. (Listing.list_for_reconciliation rows, rows))
    reconciled ← reconcile_each pending
    pure (released ++ reconciled)
