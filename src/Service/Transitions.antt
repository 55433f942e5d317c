-- ===== src/Service/Transitions.antt =====
-- The transitions of the lease service that retry against concurrent writers.
pub mod Merge
use kestrel_cloud_runpod.Prelude.{
  ℕ, zero, suc, String, Option, none, some, List, [], ◌∷◌, ◌++◌, Bool, true, not, ◌||◌,
  if◌then◌else◌,
}
use kestrel_cloud_runpod.Capacity.States.{
  TrainingPodState, preexisting_running, reconcile_required, retryable_failure, not_owned,
  TrainingPodState, released,
}
use kestrel_cloud_runpod.Capacity.Evidence.{
  PodBillingReceipt, PodRealizedPlacement, CatalogWorkerEvidence, PodCapacityLifecycleEvidence,
  PodCapacityEvidence, Phase, placement_eq, worker_eq, receipt_eq, lifecycle_accepted,
  evidence_accepted, observe_first,
}
use kestrel_cloud_runpod.Capacity.Lease.{TrainingPodLease, is_terminal}
use kestrel_cloud_runpod.Capacity.Errors.{
  Error, manager, conflict, value_error, out_of_fuel, is_conflict, sanitize_training_error, Result,
  ok, raise,
}
use kestrel_cloud_runpod.Repository.Columns.{Change}
use kestrel_cloud_runpod.Repository.Columns
use kestrel_cloud_runpod.Service.World.{
  Environment, Action, pure, throw, ◌>>=◌, try_except, when◌run◌otherwise◌, now, compare_and_set,
  required,
}

-- An argument that may be `_EVIDENCE_UNSET`.
pub data Given (A : Type 0) : Type 0 where
  unset : Given A
  given : A → Given A

-- The evidence arguments of `_transition_with_evidence`.
pub record Observed : Type 0 where
  pub lifecycle : List (Phase × ℕ)
  pub realized_placement : Given (Option PodRealizedPlacement)
  pub worker : Given CatalogWorkerEvidence
  pub billing : Given (Option PodBillingReceipt)

abbrev pub nothing_observed : Observed
nothing_observed = record {
  lifecycle = [];
  realized_placement = unset;
  worker = unset;
  billing = unset;
}

abbrev pub saw : List (Phase × ℕ) → Observed
saw phases = record nothing_observed { lifecycle = phases }

-- `if lifecycle: … replace(updated_lifecycle, **first_values)`
unfoldable pub merge_lifecycle :
    List (Phase × ℕ) → PodCapacityLifecycleEvidence → Result PodCapacityLifecycleEvidence
unfolding observe_first lifecycle_accepted
merge_lifecycle [] e = ok e
merge_lifecycle (p ∷ ps) e =
    if lifecycle_accepted (observe_first (p ∷ ps) e)
    then ok (observe_first (p ∷ ps) e)
    else raise value_error

unfoldable pub merge_placement :
    Given (Option PodRealizedPlacement)
    → Option PodRealizedPlacement
    → Result (Option PodRealizedPlacement)
unfolding placement_eq
merge_placement unset realized = ok realized
merge_placement (given none) realized = raise manager
merge_placement (given (some p)) none = ok (some p)
merge_placement (given (some p)) (some r) = if placement_eq r p then ok (some r) else raise conflict

unfoldable pub merge_worker :
    Given CatalogWorkerEvidence
    → Option CatalogWorkerEvidence
    → Result (Option CatalogWorkerEvidence)
unfolding worker_eq
merge_worker unset worker = ok worker
merge_worker (given v) none = ok (some v)
merge_worker (given v) (some w) = if worker_eq w v then ok (some w) else raise conflict

unfoldable pub merge_billing :
    Given (Option PodBillingReceipt) → Option PodBillingReceipt → Result (Option PodBillingReceipt)
unfolding receipt_eq
merge_billing unset billing = ok billing
merge_billing (given none) none = ok none
merge_billing (given none) (some b) = raise conflict
merge_billing (given (some v)) none = ok (some v)
merge_billing (given (some v)) (some b) = if receipt_eq b v then ok (some b) else raise conflict

-- `replace(evidence, …)`, once the parts are merged: the first error is raised.
unfoldable pub merged :
    PodCapacityEvidence
    → Result PodCapacityLifecycleEvidence
    → Result (Option PodRealizedPlacement)
    → Result (Option CatalogWorkerEvidence)
    → Result (Option PodBillingReceipt)
    → Result PodCapacityEvidence
unfolding evidence_accepted
merged e (raise x) p w b = raise x
merged e (ok l) (raise x) w b = raise x
merged e (ok l) (ok p) (raise x) b = raise x
merged e (ok l) (ok p) (ok w) (raise x) = raise x
merged e (ok l) (ok p) (ok w) (ok b) =
    if evidence_accepted
      (record e { lifecycle = l; realized_placement = p; worker = w; billing = b })
    then ok (record e { lifecycle = l; realized_placement = p; worker = w; billing = b })
    else raise value_error

-- The new evidence value: what was recorded first stays, and a different observation is refused.
unfoldable pub merge_evidence : Observed → PodCapacityEvidence → Result PodCapacityEvidence
unfolding merge_lifecycle merge_placement merge_worker merge_billing merged
merge_evidence seen e =
    merged e (merge_lifecycle seen.lifecycle e.lifecycle)
      (merge_placement seen.realized_placement e.realized_placement)
      (merge_worker seen.worker e.worker) (merge_billing seen.billing e.billing)

-- `persisted`: the changes, and the evidence of a catalog lease.
unfoldable pub persisted_changes :
    List Change → Observed → Option PodCapacityEvidence → Result (List Change)
unfolding merge_evidence
persisted_changes changes seen none = ok changes
persisted_changes changes seen (some e) = elim (merge_evidence seen e) [
  | raise x ↦ raise x
  | ok e' ↦ ok (changes ++ Columns.evidence_json (some e') ∷ [])
]

unfoldable pub lift : {A : Type 0} → Result A → Action A
lift r w = (r, w)

-- The test of `expected_states`; `none` where the argument is left out.
abbrev pub expected : Option (TrainingPodState → Bool) → TrainingPodState → Bool
expected none s = true
expected (some states) s = states s

module _ (env : Environment) where
  -- The loop of `_transition_nonterminal`, on fuel.
  unfoldable pub transition_loop : ℕ → List Change → TrainingPodLease → Action TrainingPodLease
  transition_loop zero changes current =
      when is_terminal current run pure current otherwise throw out_of_fuel
  transition_loop (suc n) changes current =
      when is_terminal current
      run pure current
      otherwise try_except (compare_and_set env current changes) is_conflict
          (λ _. required current.cleanup_token >>= λ fresh. transition_loop n changes fresh)

  -- `_transition_nonterminal`
  unfoldable pub transition_nonterminal : TrainingPodLease → List Change → Action TrainingPodLease
  transition_nonterminal lease changes = transition_loop env.fuel changes lease

  -- The loop of `_transition_with_evidence`, on fuel. Only the write stands in the `try`.
  unfoldable pub evidence_loop :
      ℕ
      → List Change
      → Observed
      → Option (TrainingPodState → Bool)
      → TrainingPodLease
      → Action TrainingPodLease
  evidence_loop zero changes seen states current =
      when is_terminal current run pure current otherwise throw out_of_fuel
  evidence_loop (suc n) changes seen states current =
      when is_terminal current || not (expected states current.state)
      run pure current
      otherwise (lift (persisted_changes changes seen current.evidence) >>= λ persisted.
          try_except (compare_and_set env current persisted) is_conflict (λ _.
            required current.cleanup_token >>= λ fresh. evidence_loop n changes seen states fresh))

  -- `_transition_with_evidence` with `retry_on_conflict=True`.
  unfoldable pub transition_with_evidence :
      TrainingPodLease
      → List Change
      → Observed
      → Option (TrainingPodState → Bool)
      → Action TrainingPodLease
  transition_with_evidence lease changes seen states =
      evidence_loop env.fuel changes seen states lease

  -- The error column of `_release_unowned_claim`.
  abbrev error_name : Option Error → Option String
  error_name none = none
  error_name (some e) = some (sanitize_training_error e)

  -- `_release_unowned_claim`
  unfoldable pub release_unowned_claim : TrainingPodLease → Option Error → Action TrainingPodLease
  release_unowned_claim lease error = do
    t ← now env
    transition_nonterminal lease (
        Columns.ownership preexisting_running
        ∷ Columns.state released
        ∷ Columns.cleanup_state not_owned
        ∷ Columns.backend_base_url none
        ∷ Columns.last_provider_error (error_name error)
        ∷ Columns.last_heartbeat_at t
        ∷ [])

  abbrev uncertainty : Option Bool → List Change
  uncertainty none = []
  uncertainty (some b) = Columns.creation_uncertain b ∷ []

  -- `_record_retryable_failure`
  unfoldable pub record_retryable_failure :
      TrainingPodLease → Error → Option Bool → Action TrainingPodLease
  record_retryable_failure lease error creation_uncertain = do
    current ← required lease.cleanup_token
    when is_terminal current run pure current otherwise do
      t ← now env
      transition_nonterminal current (
          Columns.state reconcile_required
          ∷ Columns.cleanup_state retryable_failure
          ∷ Columns.last_provider_error (some (sanitize_training_error error))
          ∷ Columns.last_heartbeat_at t
          ∷ uncertainty creation_uncertain)
