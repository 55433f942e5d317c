-- ===== src/Service/Release.antt =====
-- Teardown: `_resolve_uncertain_creation` and `_release_one`.
use Prim.Native.String.{◌++◌ as append}
use kestrel_cloud_runpod.Prelude.{
  ℕ, zero, suc, ◌+◌, String, Option, none, some, List, [], ◌∷◌, Bool, true, false, not, ◌&&◌, ◌||◌,
  ltb, str_eq, is_none, if◌then◌else◌,
}
use kestrel_cloud_runpod.Capacity.States.{
  TrainingPodState, TrainingPodOwnership, TrainingPodCleanupState, PodCapacityBillingState,
  is_complete, is_unsettled, is_releasing, is_preexisting_running,
}
use kestrel_cloud_runpod.Capacity.Evidence.{
  PodRealizedPlacement, Phase, provider_adopted_at, billing_reconciled_at, stop_confirmed_at,
}
use kestrel_cloud_runpod.Capacity.Lease.{
  TrainingPodLease, PodCapacitySpec, is_terminal, is_catalog_attempt,
}
use kestrel_cloud_runpod.Capacity.Errors.{
  Error, cleanup_error, out_of_fuel, LifecycleFailure, is_conflict, is_manager_error,
}
use kestrel_cloud_runpod.Repository.Columns.{Change}
use kestrel_cloud_runpod.Repository.Columns
use kestrel_cloud_runpod.Service.World.{
  Environment, Action, Call, pure, throw, ◌>>=◌, try_except, try_else, when◌run◌otherwise◌, ask,
  now, compare_and_set, required,
}
use kestrel_cloud_runpod.Service.Transitions.{
  Given, unset, given, nothing_observed, saw, transition_nonterminal, transition_with_evidence,
  record_retryable_failure,
}
use mathlib.Core.Option
use kestrel_cloud_runpod.Service.Settlement.{
  or_raise, zero_cost_receipt, revoke_and_release, reconcile_billing,
}

-- The fields of `_lifecycle_error` and `_cleanup_error`.
abbrev pub failure_of : String → TrainingPodLease → Bool → LifecycleFailure
failure_of operation lease billing_risk = record {
  operation = operation;
  cleanup_token = lease.cleanup_token;
  pod_id = lease.provider_pod_id;
  cleanup_state = lease.cleanup_state;
  billing_risk = billing_risk;
}

-- `_pod_id`: an empty ID is none at all.
unfoldable pub nonempty : Option String → Option String
nonempty none = none
nonempty (some pod) = if str_eq pod "" then none else some pod

unfoldable pub pod_id : TrainingPodLease → Action String
pod_id lease = or_raise (nonempty lease.provider_pod_id)

abbrev catalog_phases : TrainingPodLease → Phase → ℕ → List (Phase × ℕ)
catalog_phases lease phase t = if is_catalog_attempt lease then (phase, t) ∷ [] else []

-- The changes of a confirmed stop: a catalog attempt waits for its billing.
unfoldable pub stopped : Bool → ℕ → List Change
stopped false t =
    Columns.state TrainingPodState.released
    ∷ Columns.cleanup_state TrainingPodCleanupState.complete
    ∷ Columns.creation_uncertain false
    ∷ Columns.backend_base_url none
    ∷ Columns.last_provider_error none
    ∷ Columns.last_heartbeat_at t
    ∷ []
stopped true t =
    Columns.state TrainingPodState.releasing
    ∷ Columns.cleanup_state TrainingPodCleanupState.complete
    ∷ Columns.creation_uncertain false
    ∷ Columns.backend_base_url none
    ∷ Columns.last_provider_error none
    ∷ Columns.last_heartbeat_at t
    ∷ Columns.billing_state PodCapacityBillingState.pending
    ∷ Columns.terminated_at (some t)
    ∷ []

module _ (env : Environment) where
  -- The search of `_resolve_uncertain_creation`: what was found, with its placement for a catalog
  -- lease.
  unfoldable pub search_created :
      TrainingPodLease
      → Option PodCapacitySpec
      → Action (Option (String × Given (Option PodRealizedPlacement)))
  search_created lease (some spec) = do
    recovered ←
        ask (Call.find_exact lease.resource_name) (λ t. env.find_exact t lease.resource_name spec)
    pure (Option.map (λ pod. (pod.provider_pod_id, given pod.realized_placement)) recovered)
  search_created lease none = do
    found ←
        ask (Call.find_by_name lease.resource_name) (λ t. env.find_by_name t lease.resource_name)
    pure (Option.map (λ pod. (pod, unset)) found)

  -- A search that found a Pod: the lease adopts it.
  unfoldable pub adopt :
      TrainingPodLease → String → Given (Option PodRealizedPlacement) → Action TrainingPodLease
  adopt lease pod placement = do
    t ← now env
    transition_with_evidence env lease
        (Columns.provider_pod_id (some pod)
          ∷ Columns.ownership TrainingPodOwnership.owned
          ∷ Columns.creation_uncertain false
          ∷ Columns.state TrainingPodState.reconcile_required
          ∷ Columns.cleanup_state TrainingPodCleanupState.pending
          ∷ Columns.last_provider_error none
          ∷ [])
        (record nothing_observed {
          lifecycle = catalog_phases lease provider_adopted_at t;
          realized_placement = placement;
        })
        none

  -- A search that found no Pod: wait for it, or give the claim up after the readiness deadline.
  unfoldable pub nothing_created : TrainingPodLease → String → Action TrainingPodLease
  nothing_created lease reason = do
    t ← now env
    when ltb t lease.readiness_deadline || is_catalog_attempt lease
        run transition_nonterminal env lease (
            Columns.state TrainingPodState.reconcile_required
            ∷ Columns.cleanup_state TrainingPodCleanupState.retryable_failure
            ∷ Columns.billing_state (
                if is_catalog_attempt lease
                then PodCapacityBillingState.unresolved
                else lease.billing_state)
            ∷ Columns.last_provider_error (some (append reason ":AwaitingCreateReconciliation"))
            ∷ [])
        otherwise transition_nonterminal env lease (
            Columns.state TrainingPodState.released
            ∷ Columns.cleanup_state TrainingPodCleanupState.complete
            ∷ Columns.creation_uncertain false
            ∷ Columns.last_provider_error none
            ∷ [])

  unfoldable pub resolve_found :
      TrainingPodLease
      → String
      → Option (String × Given (Option PodRealizedPlacement))
      → Action TrainingPodLease
  resolve_found lease reason none = nothing_created lease reason
  resolve_found lease reason (some (pod, placement)) = adopt lease pod placement

  -- `_resolve_uncertain_creation`: only the search stands in the `try`.
  unfoldable pub resolve_uncertain_creation : TrainingPodLease → String → Action TrainingPodLease
  resolve_uncertain_creation lease reason =
      try_else (search_created lease lease.capacity_spec) (resolve_found lease reason)
        is_manager_error (λ e. record_retryable_failure env lease e (some true))

  -- The tail of `_release_one` for a catalog lease without a Pod: nothing was billed.
  unfoldable pub settle_unprovisioned : TrainingPodLease → ℕ → Action TrainingPodLease
  settle_unprovisioned lease t = do
    receipt ← zero_cost_receipt env lease "no-provider-capacity"
    released ←
        transition_with_evidence env lease
          (Columns.state TrainingPodState.releasing
            ∷ Columns.cleanup_state TrainingPodCleanupState.complete
            ∷ Columns.backend_base_url none
            ∷ Columns.last_provider_error none
            ∷ Columns.last_heartbeat_at t
            ∷ Columns.billing_state PodCapacityBillingState.authoritative
            ∷ Columns.billing_receipt_json (some receipt)
            ∷ Columns.terminated_at (some t)
            ∷ [])
          (record nothing_observed {
            lifecycle = (billing_reconciled_at, t) ∷ [];
            billing = given (some receipt);
          })
          none
    when is_catalog_attempt released run revoke_and_release env released otherwise pure released

  -- The tail of `_release_one` for a lease without a Pod.
  unfoldable pub release_unprovisioned : TrainingPodLease → Action TrainingPodLease
  release_unprovisioned lease = do
    t ← now env
    when is_catalog_attempt lease
        run settle_unprovisioned lease t
        otherwise transition_with_evidence env lease
            (Columns.state TrainingPodState.released
              ∷ Columns.cleanup_state TrainingPodCleanupState.complete
              ∷ Columns.backend_base_url none
              ∷ Columns.last_provider_error none
              ∷ Columns.last_heartbeat_at t
              ∷ [])
            nothing_observed none

  -- The loop that counts a stop attempt, on fuel.
  unfoldable pub count_attempt : ℕ → TrainingPodLease → Action TrainingPodLease
  count_attempt zero lease = when is_terminal lease run pure lease otherwise throw out_of_fuel
  count_attempt (suc n) lease =
      when is_terminal lease
      run pure lease
      otherwise try_except
          (compare_and_set env lease (Columns.stop_attempts (lease.stop_attempts + 1) ∷ []))
          is_conflict (λ _. required lease.cleanup_token >>= λ fresh. count_attempt n fresh)

  -- The provider call of `_release_one`.
  unfoldable pub stop_call : TrainingPodLease → Action Bool
  stop_call lease = pod_id lease >>= λ pod.
      when is_catalog_attempt lease
      run ask (Call.terminate pod) (λ t. env.terminate t pod)
      otherwise ask (Call.stop pod) (λ t. env.stop t pod)

  -- What the provider answered: not yet stopped, or stopped.
  unfoldable pub stop_answer : String → TrainingPodLease → Bool → Action TrainingPodLease
  stop_answer reason lease false = do
    t ← now env
    pending ← transition_nonterminal env lease (
        Columns.cleanup_state TrainingPodCleanupState.pending
        ∷ Columns.last_provider_error (some "StopPending")
        ∷ Columns.last_heartbeat_at t
        ∷ [])
    when is_terminal pending
        run pure pending
        otherwise throw (cleanup_error (failure_of reason pending true))
  stop_answer reason lease true = do
    t ← now env
    released ←
        transition_with_evidence env lease (stopped (is_catalog_attempt lease) t)
          (saw (catalog_phases lease stop_confirmed_at t)) none
    when is_catalog_attempt released run reconcile_billing env released otherwise pure released

  -- The provider's refusal of a stop.
  unfoldable pub stop_refused : String → TrainingPodLease → Error → Action TrainingPodLease
  stop_refused reason lease e = do
    failed ← record_retryable_failure env lease e none
    when is_terminal failed
        run pure failed
        otherwise throw (cleanup_error (failure_of reason failed true))

  unfoldable pub mark_releasing : TrainingPodLease → Action TrainingPodLease
  mark_releasing lease =
      when is_releasing lease.state
      run pure lease
      otherwise (now env >>= λ t. transition_nonterminal env lease (
          Columns.state TrainingPodState.releasing
          ∷ Columns.cleanup_state TrainingPodCleanupState.pending
          ∷ Columns.backend_base_url none
          ∷ Columns.last_heartbeat_at t
          ∷ []))

  -- The tail of `_release_one` for a lease that names a Pod.
  unfoldable pub stop_pod : String → TrainingPodLease → Action TrainingPodLease
  stop_pod reason lease = do
    marked ← mark_releasing lease
    counted ← count_attempt env.fuel marked
    when is_terminal counted
        run pure counted
        otherwise try_else (stop_call counted) (stop_answer reason counted) is_manager_error
            (stop_refused reason counted)

  -- Teardown is confirmed, and only the billing is open.
  abbrev pub awaits_billing : TrainingPodLease → Bool
  awaits_billing lease =
      is_catalog_attempt lease
      && is_complete lease.cleanup_state
      && not (is_none lease.terminated_at)
      && is_unsettled lease.billing_state

  abbrev pub is_unresolved : TrainingPodLease → Bool
  is_unresolved lease = is_none lease.provider_pod_id && lease.creation_uncertain

  -- A lease whose create call was lost is resolved before it is released.
  unfoldable pub locate : String → TrainingPodLease → Action TrainingPodLease
  locate reason lease =
      when not (is_unresolved lease)
      run pure lease
      otherwise (resolve_uncertain_creation lease reason >>= λ found.
          when is_unresolved found
          run throw (cleanup_error (failure_of reason found true))
          otherwise pure found)

  -- `_release_one` behind its early returns.
  unfoldable pub release_owned : String → TrainingPodLease → Action TrainingPodLease
  release_owned reason lease = do
    resolved ← locate reason lease
    when is_none resolved.provider_pod_id
        run release_unprovisioned resolved
        otherwise stop_pod reason resolved

  -- `_release_one` on the lease that it read.
  unfoldable pub release_lease : String → TrainingPodLease → Action TrainingPodLease
  release_lease reason lease =
      when is_terminal lease
      run pure lease
      otherwise when awaits_billing lease
      run reconcile_billing env lease
      otherwise when is_preexisting_running lease.ownership
      run (now env >>= λ t. transition_nonterminal env lease (
          Columns.state TrainingPodState.released
          ∷ Columns.cleanup_state TrainingPodCleanupState.not_owned
          ∷ Columns.backend_base_url none
          ∷ Columns.last_provider_error none
          ∷ Columns.last_heartbeat_at t
          ∷ []))
      otherwise release_owned reason lease

  -- `_release_one`
  unfoldable pub release_one : String → String → Action TrainingPodLease
  release_one cleanup_token reason = do lease ← required cleanup_token; release_lease reason lease
