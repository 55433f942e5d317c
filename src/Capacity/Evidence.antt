-- ===== src/Capacity/Evidence.antt =====
-- The evidence that a lease carries (kestrel_cloud_runpod/pod_capacity_contracts.py): the billing
-- receipt, the realized placement, the worker's telemetry and the first-observation timestamps.
-- An instant is a number of microseconds, an amount of money a number of units of a fixed power of
-- ten. The patterns of identifiers, digests and display names are not modelled.
use kestrel_cloud_runpod.Prelude.{
  ℕ, String, Option, none, some, List, [], ◌∷◌, Bool, true, false, not, ◌&&◌, ◌||◌, ltb, leb, ◌==◌,
  str_eq, opt_str_eq, opt_nat_eq, is_none, or_else,
}
use kestrel_cloud_runpod.Capacity.States.{CloudType, cloud_eq}

pub record PodBillingReceipt : Type 0 where
  pub provider_billing_id : String
  pub provider_pod_id : Option String
  pub billed_from : ℕ
  pub billed_until : ℕ
  pub billed_seconds : ℕ
  pub hourly_price_usd : ℕ
  pub actual_cost_usd : ℕ
  pub reconciled_at : ℕ

-- The `==` that the dataclass derives.
unfoldable pub receipt_eq : PodBillingReceipt → PodBillingReceipt → Bool
receipt_eq a b =
    str_eq a.provider_billing_id b.provider_billing_id
    && opt_str_eq a.provider_pod_id b.provider_pod_id
    && (a.billed_from == b.billed_from)
    && (a.billed_until == b.billed_until)
    && (a.billed_seconds == b.billed_seconds)
    && (a.hourly_price_usd == b.hourly_price_usd)
    && (a.actual_cost_usd == b.actual_cost_usd)
    && (a.reconciled_at == b.reconciled_at)

abbrev pub opt_receipt_eq : Option PodBillingReceipt → Option PodBillingReceipt → Bool
opt_receipt_eq none none = true
opt_receipt_eq (some a) (some b) = receipt_eq a b
opt_receipt_eq _ _ = false

pub record PodRealizedPlacement : Type 0 where
  pub provider_pod_id : String
  pub gpu_type_id : String
  pub gpu_display_name : String
  pub gpu_count : ℕ
  pub cloud : CloudType
  pub data_center_id : String
  pub hourly_rate_usd : ℕ
  pub observed_at : ℕ

unfoldable pub placement_eq : PodRealizedPlacement → PodRealizedPlacement → Bool
placement_eq a b =
    str_eq a.provider_pod_id b.provider_pod_id
    && str_eq a.gpu_type_id b.gpu_type_id
    && str_eq a.gpu_display_name b.gpu_display_name
    && (a.gpu_count == b.gpu_count)
    && cloud_eq a.cloud b.cloud
    && str_eq a.data_center_id b.data_center_id
    && (a.hourly_rate_usd == b.hourly_rate_usd)
    && (a.observed_at == b.observed_at)

pub record CatalogWorkerEvidence : Type 0 where
  pub schema_version : ℕ
  pub attempt_id : String
  pub request_sha256 : String
  pub image_digest : String
  pub container_process_started_at : Option ℕ
  pub image_pull_and_container_boot_seconds : Option ℕ
  pub image_pull_seconds : Option ℕ
  pub container_boot_seconds : Option ℕ
  pub model_load_seconds : Option ℕ
  pub execution_seconds : Option ℕ
  pub training_seconds : Option ℕ
  pub artifact_upload_seconds : Option ℕ
  pub peak_vram_bytes : Option ℕ
  pub peak_host_ram_bytes : Option ℕ
  pub gpu_seconds : Option ℕ
  pub idle_seconds : Option ℕ

unfoldable pub worker_eq : CatalogWorkerEvidence → CatalogWorkerEvidence → Bool
worker_eq a b =
    (a.schema_version == b.schema_version)
    && str_eq a.attempt_id b.attempt_id
    && str_eq a.request_sha256 b.request_sha256
    && str_eq a.image_digest b.image_digest
    && opt_nat_eq a.container_process_started_at b.container_process_started_at
    && opt_nat_eq a.image_pull_and_container_boot_seconds b.image_pull_and_container_boot_seconds
    && opt_nat_eq a.image_pull_seconds b.image_pull_seconds
    && opt_nat_eq a.container_boot_seconds b.container_boot_seconds
    && opt_nat_eq a.model_load_seconds b.model_load_seconds
    && opt_nat_eq a.execution_seconds b.execution_seconds
    && opt_nat_eq a.training_seconds b.training_seconds
    && opt_nat_eq a.artifact_upload_seconds b.artifact_upload_seconds
    && opt_nat_eq a.peak_vram_bytes b.peak_vram_bytes
    && opt_nat_eq a.peak_host_ram_bytes b.peak_host_ram_bytes
    && opt_nat_eq a.gpu_seconds b.gpu_seconds
    && opt_nat_eq a.idle_seconds b.idle_seconds

pub record PodCapacityLifecycleEvidence : Type 0 where
  pub reservation_at : ℕ
  pub provider_create_accepted_at : Option ℕ
  pub provider_adopted_at : Option ℕ
  pub first_running_observed_at : Option ℕ
  pub worker_ready_at : Option ℕ
  pub workload_submitted_at : Option ℕ
  pub workload_running_at : Option ℕ
  pub workload_terminal_at : Option ℕ
  pub stop_confirmed_at : Option ℕ
  pub billing_reconciled_at : Option ℕ

-- `tuple(value for value in ordered if value is not None)`
abbrev pub present : List (Option ℕ) → List ℕ
present [] = []
present (none ∷ os) = present os
present (some t ∷ os) = t ∷ present os

-- No later entry precedes the one before it.
abbrev pub ordered_from : ℕ → List ℕ → Bool
ordered_from t [] = true
ordered_from t (u ∷ us) = leb t u && ordered_from u us

abbrev pub milestones : PodCapacityLifecycleEvidence → List ℕ
milestones e = present (
    or_else e.provider_create_accepted_at e.provider_adopted_at
    ∷ e.first_running_observed_at
    ∷ e.worker_ready_at
    ∷ e.workload_submitted_at
    ∷ e.workload_running_at
    ∷ e.workload_terminal_at
    ∷ e.stop_confirmed_at
    ∷ e.billing_reconciled_at
    ∷ [])

-- `PodCapacityLifecycleEvidence.__post_init__`: false where it raises `ValueError`.
unfoldable pub lifecycle_accepted : PodCapacityLifecycleEvidence → Bool
lifecycle_accepted e =
    ordered_from e.reservation_at (milestones e)
    && (is_none e.provider_create_accepted_at || is_none e.provider_adopted_at)

-- The optional fields, which the service names by strings.
pub data Phase : Type 0 where
  provider_create_accepted_at provider_adopted_at first_running_observed_at worker_ready_at : Phase
  workload_submitted_at workload_running_at workload_terminal_at stop_confirmed_at : Phase
  billing_reconciled_at : Phase

-- `getattr(updated_lifecycle, name)`
unfoldable pub phase_time : Phase → PodCapacityLifecycleEvidence → Option ℕ
phase_time provider_create_accepted_at e = e.provider_create_accepted_at
phase_time provider_adopted_at e = e.provider_adopted_at
phase_time first_running_observed_at e = e.first_running_observed_at
phase_time worker_ready_at e = e.worker_ready_at
phase_time workload_submitted_at e = e.workload_submitted_at
phase_time workload_running_at e = e.workload_running_at
phase_time workload_terminal_at e = e.workload_terminal_at
phase_time stop_confirmed_at e = e.stop_confirmed_at
phase_time billing_reconciled_at e = e.billing_reconciled_at

unfoldable pub set_phase :
    Phase → Option ℕ → PodCapacityLifecycleEvidence → PodCapacityLifecycleEvidence
set_phase provider_create_accepted_at t e = record e { provider_create_accepted_at = t }
set_phase provider_adopted_at t e = record e { provider_adopted_at = t }
set_phase first_running_observed_at t e = record e { first_running_observed_at = t }
set_phase worker_ready_at t e = record e { worker_ready_at = t }
set_phase workload_submitted_at t e = record e { workload_submitted_at = t }
set_phase workload_running_at t e = record e { workload_running_at = t }
set_phase workload_terminal_at t e = record e { workload_terminal_at = t }
set_phase stop_confirmed_at t e = record e { stop_confirmed_at = t }
set_phase billing_reconciled_at t e = record e { billing_reconciled_at = t }

-- `first_values` and the `replace` that stores them: a phase that was observed keeps its time.
unfoldable pub observe_first :
    List (Phase × ℕ) → PodCapacityLifecycleEvidence → PodCapacityLifecycleEvidence
unfolding phase_time set_phase
observe_first [] e = e
observe_first ((p, t) ∷ ps) e = observe_first ps (set_phase p (or_else (phase_time p e) (some t)) e)

pub record PodCapacityEvidence : Type 0 where
  pub schema_version : ℕ
  pub capacity_id : String
  pub resource_name : String
  pub provider_quote_id : String
  pub catalog_observed_at : ℕ
  pub attempt_id : String
  pub request_sha256 : String
  pub image_digest : String
  pub accepted_gpu_type_id : String
  pub accepted_gpu_display_name : String
  pub accepted_gpu_count : ℕ
  pub accepted_cloud : CloudType
  pub accepted_hourly_rate_usd : ℕ
  pub lifecycle : PodCapacityLifecycleEvidence
  pub realized_placement : Option PodRealizedPlacement
  pub worker : Option CatalogWorkerEvidence
  pub billing : Option PodBillingReceipt

-- The realized placement stays within the accepted quote.
unfoldable pub placement_within : PodCapacityEvidence → Option PodRealizedPlacement → Bool
placement_within e none = true
placement_within e (some r) =
    str_eq r.gpu_type_id e.accepted_gpu_type_id
    && str_eq r.gpu_display_name e.accepted_gpu_display_name
    && (r.gpu_count == e.accepted_gpu_count)
    && cloud_eq r.cloud e.accepted_cloud
    && leb r.hourly_rate_usd e.accepted_hourly_rate_usd

unfoldable pub worker_bound : PodCapacityEvidence → Option CatalogWorkerEvidence → Bool
worker_bound e none = true
worker_bound e (some w) =
    str_eq w.attempt_id e.attempt_id
    && str_eq w.request_sha256 e.request_sha256
    && str_eq w.image_digest e.image_digest

unfoldable pub billing_bound : PodCapacityEvidence → Option PodBillingReceipt → Bool
billing_bound e none = true
billing_bound e (some b) =
    elim e.realized_placement [
      | none ↦ true
      | some r ↦
          opt_str_eq b.provider_pod_id (some r.provider_pod_id)
          && (b.hourly_price_usd == r.hourly_rate_usd)
    ]
    && elim e.lifecycle.billing_reconciled_at [ none ↦ true | some t ↦ t == b.reconciled_at ]

-- `PodCapacityEvidence.__post_init__`, after that of its lifecycle: false where either raises.
unfoldable pub evidence_accepted : PodCapacityEvidence → Bool
unfolding lifecycle_accepted placement_within worker_bound billing_bound
evidence_accepted e =
    lifecycle_accepted e.lifecycle
    && (e.schema_version == 1)
    && leb 1 e.accepted_gpu_count
    && ltb 0 e.accepted_hourly_rate_usd
    && leb e.catalog_observed_at e.lifecycle.reservation_at
    && placement_within e e.realized_placement
    && worker_bound e e.worker
    && billing_bound e e.billing

-- `PodCapacityEvidence.is_complete`
unfoldable pub evidence_complete : PodCapacityEvidence → Bool
evidence_complete e =
    not (is_none e.realized_placement)
    && not (is_none e.worker)
    && not (is_none (or_else l.provider_create_accepted_at l.provider_adopted_at))
    && not (is_none l.first_running_observed_at)
    && not (is_none l.worker_ready_at)
    && not (is_none l.workload_submitted_at)
    && not (is_none l.workload_running_at)
    && not (is_none l.workload_terminal_at)
    && not (is_none l.billing_reconciled_at)
    && elim l.stop_confirmed_at [
      | none ↦ false
      | some stopped ↦ elim e.billing [ none ↦ false | some b ↦ leb stopped b.billed_until ]
    ]
  where
    l : PodCapacityLifecycleEvidence
    l = e.lifecycle

-- A stored evidence value decodes: absent, or accepted by its dataclasses.
abbrev pub evidence_ready : Option PodCapacityEvidence → Bool
evidence_ready none = true
evidence_ready (some e) = evidence_accepted e
