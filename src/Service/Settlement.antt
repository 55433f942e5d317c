-- ===== src/Service/Settlement.antt =====
-- Billing and the terminal transition of the lease service.
use Prim.Native.String.{◌++◌ as append}
use kestrel_cloud_runpod.Prelude.{
  ℕ, ◌*◌, String, Option, none, some, [], ◌∷◌, Bool, true, false, not, ltb, ◌==◌, str_eq,
  opt_str_eq, if◌then◌else◌,
}
use kestrel_cloud_runpod.Capacity.States.{
  TrainingPodState, PodCapacityBillingState, is_authoritative, is_pending,
}
use kestrel_cloud_runpod.Capacity.Evidence.{
  PodBillingReceipt, PodRealizedPlacement, PodCapacityEvidence, billing_reconciled_at,
}
use kestrel_cloud_runpod.Capacity.Lease.{
  TrainingPodLease, PodCapacitySpec, is_terminal, is_catalog_attempt,
}
use kestrel_cloud_runpod.Capacity.Errors.{manager, is_conflict}
use kestrel_cloud_runpod.Repository.Columns.{Change}
use kestrel_cloud_runpod.Repository.Columns
use kestrel_cloud_runpod.Service.World.{
  Environment, Action, Call, pure, throw, ◌>>=◌, ◌>>◌, try_except, when◌run◌otherwise◌, ask, now,
  compare_and_set, required,
}
use kestrel_cloud_runpod.Service.Transitions.{given, nothing_observed, transition_with_evidence}

unfoldable pub or_raise : {A : Type 0} → Option A → Action A
or_raise none = throw manager
or_raise (some a) = pure a

-- `_capacity_spec`
unfoldable pub capacity_spec : TrainingPodLease → Action PodCapacitySpec
capacity_spec lease = or_raise lease.capacity_spec

-- `if not condition: raise RunPodManagerError`
unfoldable pub require : Bool → Action (Unit {0})
require true = pure tt
require false = throw manager

-- The realized placement of the evidence, if it is that of the leased Pod.
unfoldable pub placement_of : Option PodCapacityEvidence → String → Option PodRealizedPlacement
placement_of none pod = none
placement_of (some e) pod = elim e.realized_placement [
  | none ↦ none
  | some r ↦ if str_eq r.provider_pod_id pod then some r else none
]

module _ (env : Environment) where
  -- `_zero_cost_receipt`
  unfoldable pub zero_cost_receipt : TrainingPodLease → String → Action PodBillingReceipt
  zero_cost_receipt lease reason = do
    spec ← capacity_spec lease
    t ← now env
    pure (record {
      provider_billing_id = append "runpod-no-pod:" (
          env.sha256 (
            append lease.cleanup_token
              (append "\0" (append reason (append "\0" lease.request_fingerprint)))));
      provider_pod_id = none;
      billed_from = t;
      billed_until = t;
      billed_seconds = 0;
      hourly_price_usd =
          spec.request.quote.hourly_cost_usd * spec.request.quote.constraints.gpu_count;
      actual_cost_usd = 0;
      reconciled_at = t;
    })

  -- `_revoke_and_release`
  unfoldable pub revoke_and_release : TrainingPodLease → Action TrainingPodLease
  revoke_and_release lease = do
    require (is_authoritative lease.billing_state)
    require env.has_capability_store
    spec ← capacity_spec lease
    ask (Call.revoke spec.request.attempt_id) (λ t. env.revoke t spec.request.attempt_id)
    current ← required lease.cleanup_token
    when is_terminal current run pure current otherwise do
      t ← now env
      compare_and_set env current
          (Columns.state TrainingPodState.released ∷ Columns.last_heartbeat_at t ∷ [])

  -- The tail of `_reconcile_billing`: the receipt becomes authoritative, and the lease terminal.
  unfoldable pub settle : TrainingPodLease → PodBillingReceipt → Action TrainingPodLease
  settle lease receipt = do
    reconciled ←
        try_except
          (transition_with_evidence env lease
            (Columns.billing_state PodCapacityBillingState.authoritative
              ∷ Columns.billing_receipt_json (some receipt)
              ∷ Columns.last_provider_error none
              ∷ Columns.last_heartbeat_at receipt.reconciled_at
              ∷ [])
            (record nothing_observed {
              lifecycle = (billing_reconciled_at, receipt.reconciled_at) ∷ [];
              billing = given (some receipt);
            })
            none)
          is_conflict
          (λ e. required lease.cleanup_token >>= λ current.
            when is_authoritative current.billing_state run pure current otherwise throw e)
    revoke_and_release reconciled

  -- What the provider answered for a Pod of a known placement.
  unfoldable pub settle_answer :
      TrainingPodLease
      → String
      → ℕ
      → PodRealizedPlacement
      → Option PodBillingReceipt
      → Action TrainingPodLease
  settle_answer lease pod terminated_at realized none =
      when is_pending lease.billing_state
      run pure lease
      otherwise compare_and_set env lease
          (Columns.billing_state PodCapacityBillingState.pending ∷ [])
  settle_answer lease pod terminated_at realized (some receipt) = do
    require (opt_str_eq receipt.provider_pod_id (some pod))
    require (not (ltb receipt.billed_until terminated_at))
    require (receipt.hourly_price_usd == realized.hourly_rate_usd)
    settle lease receipt

  -- The question to the provider, or the refusal where the realized placement is not known.
  unfoldable pub settle_realized :
      TrainingPodLease → String → ℕ → Option PodRealizedPlacement → Action TrainingPodLease
  settle_realized lease pod terminated_at none = compare_and_set env lease (
      Columns.billing_state PodCapacityBillingState.unresolved
      ∷ Columns.last_provider_error (some "RealizedPlacementBillingUnresolved")
      ∷ [])
  settle_realized lease pod terminated_at (some realized) = do
    capacity_spec lease
    receipt ← ask (Call.final_billing pod) (λ t. env.final_billing t lease realized.hourly_rate_usd)
    settle_answer lease pod terminated_at realized receipt

  -- The branches of `_reconcile_billing` for a lease that names its Pod, and for one that does not.
  unfoldable pub settle_pod : TrainingPodLease → Option String → Action TrainingPodLease
  settle_pod lease (some pod) = do
    terminated_at ← or_raise lease.terminated_at
    settle_realized lease pod terminated_at (placement_of lease.evidence pod)
  settle_pod lease none =
      when lease.creation_uncertain
      run compare_and_set env lease (
          Columns.billing_state PodCapacityBillingState.unresolved
          ∷ Columns.last_provider_error (some "AmbiguousCreateBillingUnresolved")
          ∷ [])
      otherwise (zero_cost_receipt lease "no-provider-capacity" >>= λ receipt. settle lease receipt)

  -- `_reconcile_billing`
  unfoldable pub reconcile_billing : TrainingPodLease → Action TrainingPodLease
  reconcile_billing lease =
      when not (is_catalog_attempt lease)
      run pure lease
      otherwise (when is_authoritative lease.billing_state
          run revoke_and_release lease
          otherwise settle_pod lease lease.provider_pod_id)
