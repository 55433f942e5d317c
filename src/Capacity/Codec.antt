-- ===== src/Capacity/Codec.antt =====
-- The JSON objects of the stored values: `to_dict` and `from_dict`, and the helpers that read a field.
-- A stored object is its keys with their values; the texts of an instant and of an amount are those of
-- Python's datetime and decimal modules, which `Texts` stands for.
pub mod RoundTrip
use kestrel_cloud_runpod.Prelude.{
  ℕ, String, Option, none, some, List, [], ◌∷◌, Bool, true, false, not, ◌&&◌, ◌||◌, ◌-◌, ◌/◌, ◌==◌,
  is_none, leb, str_eq, any, if◌then◌else◌,
}
use kestrel_cloud_runpod.Capacity.States.{CloudType, secure, community}
use kestrel_cloud_runpod.Capacity.Evidence.{
  PodBillingReceipt, PodRealizedPlacement, PodCapacityLifecycleEvidence, lifecycle_accepted,
}
use kestrel_cloud_runpod.Capacity.Lease.{CatalogArtifactHandoffEvidence}
use kestrel_cloud_runpod.Capacity.Errors.{Result, ok, raise, manager, value_error}

-- The values of a flat object.
pub data Value : Type 0 where
  null : Value
  text : String → Value
  number : ℕ → Value

abbrev pub Fields : Type 0
Fields = List (String × Value)

-- The texts of instants and amounts.
pub record Texts : Type 0 where
  pub isoformat : ℕ → String
  pub fromisoformat : String → Option ℕ
  pub decimal_text : ℕ → String
  pub decimal : String → Option ℕ

infixl 20 ◌>>=◌
unfoldable pub ◌>>=◌ {ℓ κ} : {A : Type ℓ} {B : Type κ} → Result A → (A → Result B) → Result B
raise e >>= f = raise e
ok a >>= f = f a

-- `value.get(key)`
unfoldable pub get : String → Fields → Value
get key [] = null
get key ((k, v) ∷ fs) = let rest = get key fs in if str_eq k key then v else rest

abbrev pub has_key : Fields → String → Bool
has_key fs key = any (λ (f : String × Value). str_eq f.0 key) fs

unfoldable pub all_keys : (String → Bool) → List String → Bool
all_keys p [] = true
all_keys p (k ∷ ks) = p k && all_keys p ks

unfoldable pub keys : Fields → List String
keys [] = []
keys ((k, v) ∷ fs) = k ∷ keys fs

-- `_exact_keys`
unfoldable pub exact_keys : Fields → List String → Result (Unit {0})
unfolding all_keys keys
exact_keys fs expected =
    if all_keys (has_key fs) expected && all_keys (λ k. any (str_eq k) expected) (keys fs)
    then ok tt
    else raise manager

-- `_required_string`, on the item.
unfoldable pub required_string : Value → Result String
required_string Value.null = raise manager
required_string (Value.number n) = raise manager
required_string (Value.text s) = if str_eq s "" then raise manager else ok s

-- `_optional_string`
unfoldable pub optional_string : Value → Result (Option String)
optional_string Value.null = ok none
optional_string (Value.number n) = raise manager
optional_string (Value.text s) = ok (some s)

-- `_required_int`, on the item.
unfoldable pub required_int : Value → Result ℕ
required_int (Value.number n) = ok n
required_int v = raise manager

unfoldable pub parsed : Option ℕ → Result ℕ
parsed none = raise manager
parsed (some n) = ok n

abbrev pub text_or_null : Option String → Value
text_or_null none = Value.null
text_or_null (some s) = Value.text s

-- `CloudType.value`, and `CloudType(…)`.
unfoldable pub cloud_text : CloudType → String
cloud_text secure = "SECURE"
cloud_text community = "COMMUNITY"

unfoldable pub read_cloud : String → Result CloudType
read_cloud s =
    if str_eq s "SECURE"
    then ok secure
    else if str_eq s "COMMUNITY"
    then ok community
    else raise value_error

-- `PodBillingReceipt.__post_init__`, without the patterns of identifiers.
unfoldable pub receipt_accepted : PodBillingReceipt → Bool
receipt_accepted r =
    leb r.billed_from r.billed_until
    && (r.billed_seconds == (r.billed_until - r.billed_from) / 1000000)
    && leb r.billed_until r.reconciled_at
    && ((r.actual_cost_usd == 0) || not (is_none r.provider_pod_id))
    && (not (is_none r.provider_pod_id)
        || ((r.billed_from == r.billed_until)
            && (r.billed_seconds == 0)
            && (r.actual_cost_usd == 0)))

module _ (texts : Texts) where
  -- `_required_decimal`, on the item.
  unfoldable pub required_decimal : Value → Result ℕ
  unfolding parsed
  required_decimal (Value.text s) = parsed (texts.decimal s)
  required_decimal v = raise manager

  -- `_datetime`
  unfoldable pub datetime : String → Result ℕ
  unfolding parsed
  datetime s = parsed (texts.fromisoformat s)

  abbrev pub iso_or_null : Option ℕ → Value
  iso_or_null none = Value.null
  iso_or_null (some t) = Value.text (texts.isoformat t)

  -- An optional instant of the lifecycle.
  unfoldable pub optional_datetime : Value → Result (Option ℕ)
  unfolding datetime
  optional_datetime Value.null = ok none
  optional_datetime (Value.number n) = raise manager
  optional_datetime (Value.text s) = datetime s >>= λ t. ok (some t)

  -- `PodBillingReceipt.to_dict`
  unfoldable pub receipt_to_dict : PodBillingReceipt → Fields
  receipt_to_dict r =
      ("provider_billing_id", Value.text r.provider_billing_id)
      ∷ ("provider_pod_id", text_or_null r.provider_pod_id)
      ∷ ("billed_from", Value.text (texts.isoformat r.billed_from))
      ∷ ("billed_until", Value.text (texts.isoformat r.billed_until))
      ∷ ("billed_seconds", Value.number r.billed_seconds)
      ∷ ("hourly_price_usd", Value.text (texts.decimal_text r.hourly_price_usd))
      ∷ ("actual_cost_usd", Value.text (texts.decimal_text r.actual_cost_usd))
      ∷ ("reconciled_at", Value.text (texts.isoformat r.reconciled_at))
      ∷ []

  -- `PodBillingReceipt.from_dict`
  unfoldable pub receipt_from_dict : Fields → Result PodBillingReceipt
  unfolding get required_string optional_string required_int required_decimal datetime
      receipt_accepted
  receipt_from_dict fs = do
    provider_billing_id ← required_string (get "provider_billing_id" fs)
    provider_pod_id ← optional_string (get "provider_pod_id" fs)
    from_text ← required_string (get "billed_from" fs)
    billed_from ← datetime from_text
    until_text ← required_string (get "billed_until" fs)
    billed_until ← datetime until_text
    billed_seconds ← required_int (get "billed_seconds" fs)
    hourly_price_usd ← required_decimal (get "hourly_price_usd" fs)
    actual_cost_usd ← required_decimal (get "actual_cost_usd" fs)
    reconciled_text ← required_string (get "reconciled_at" fs)
    reconciled_at ← datetime reconciled_text
    let receipt : PodBillingReceipt = record {
      provider_billing_id = provider_billing_id;
      provider_pod_id = provider_pod_id;
      billed_from = billed_from;
      billed_until = billed_until;
      billed_seconds = billed_seconds;
      hourly_price_usd = hourly_price_usd;
      actual_cost_usd = actual_cost_usd;
      reconciled_at = reconciled_at;
    } in
        if receipt_accepted receipt then ok receipt else raise value_error

  -- `PodRealizedPlacement.to_dict`
  unfoldable pub placement_to_dict : PodRealizedPlacement → Fields
  unfolding cloud_text
  placement_to_dict p =
      ("provider_pod_id", Value.text p.provider_pod_id)
      ∷ ("gpu_type_id", Value.text p.gpu_type_id)
      ∷ ("gpu_display_name", Value.text p.gpu_display_name)
      ∷ ("gpu_count", Value.number p.gpu_count)
      ∷ ("cloud", Value.text (cloud_text p.cloud))
      ∷ ("data_center_id", Value.text p.data_center_id)
      ∷ ("hourly_rate_usd", Value.text (texts.decimal_text p.hourly_rate_usd))
      ∷ ("observed_at", Value.text (texts.isoformat p.observed_at))
      ∷ []

  -- `PodRealizedPlacement.from_dict`; of the checks of `__post_init__` the one on the GPU count.
  unfoldable pub placement_from_dict : Fields → Result PodRealizedPlacement
  unfolding get exact_keys required_string required_int required_decimal datetime read_cloud
  placement_from_dict fs = do
    _ ← exact_keys fs (
        "provider_pod_id" ∷ "gpu_type_id" ∷ "gpu_display_name" ∷ "gpu_count" ∷ "cloud"
        ∷ "data_center_id" ∷ "hourly_rate_usd" ∷ "observed_at" ∷ [])
    provider_pod_id ← required_string (get "provider_pod_id" fs)
    gpu_type_id ← required_string (get "gpu_type_id" fs)
    gpu_display_name ← required_string (get "gpu_display_name" fs)
    gpu_count ← required_int (get "gpu_count" fs)
    cloud_name ← required_string (get "cloud" fs)
    cloud ← read_cloud cloud_name
    data_center_id ← required_string (get "data_center_id" fs)
    hourly_rate_usd ← required_decimal (get "hourly_rate_usd" fs)
    observed_text ← required_string (get "observed_at" fs)
    observed_at ← datetime observed_text
    if leb 1 gpu_count
        then ok (record {
          provider_pod_id = provider_pod_id;
          gpu_type_id = gpu_type_id;
          gpu_display_name = gpu_display_name;
          gpu_count = gpu_count;
          cloud = cloud;
          data_center_id = data_center_id;
          hourly_rate_usd = hourly_rate_usd;
          observed_at = observed_at;
        })
        else raise value_error

  abbrev lifecycle_keys : List String
  lifecycle_keys =
      "reservation_at" ∷ "provider_create_accepted_at" ∷ "provider_adopted_at"
      ∷ "first_running_observed_at" ∷ "worker_ready_at" ∷ "workload_submitted_at"
      ∷ "workload_running_at" ∷ "workload_terminal_at" ∷ "stop_confirmed_at"
      ∷ "billing_reconciled_at" ∷ []

  -- `PodCapacityLifecycleEvidence.to_dict`
  unfoldable pub lifecycle_to_dict : PodCapacityLifecycleEvidence → Fields
  lifecycle_to_dict e =
      ("reservation_at", Value.text (texts.isoformat e.reservation_at))
      ∷ ("provider_create_accepted_at", iso_or_null e.provider_create_accepted_at)
      ∷ ("provider_adopted_at", iso_or_null e.provider_adopted_at)
      ∷ ("first_running_observed_at", iso_or_null e.first_running_observed_at)
      ∷ ("worker_ready_at", iso_or_null e.worker_ready_at)
      ∷ ("workload_submitted_at", iso_or_null e.workload_submitted_at)
      ∷ ("workload_running_at", iso_or_null e.workload_running_at)
      ∷ ("workload_terminal_at", iso_or_null e.workload_terminal_at)
      ∷ ("stop_confirmed_at", iso_or_null e.stop_confirmed_at)
      ∷ ("billing_reconciled_at", iso_or_null e.billing_reconciled_at)
      ∷ []

  -- `PodCapacityLifecycleEvidence.from_dict`
  unfoldable pub lifecycle_from_dict : Fields → Result PodCapacityLifecycleEvidence
  unfolding get exact_keys parsed optional_datetime lifecycle_accepted
  lifecycle_from_dict fs = do
    _ ← exact_keys fs lifecycle_keys
    reservation ← optional_datetime (get "reservation_at" fs)
    accepted ← optional_datetime (get "provider_create_accepted_at" fs)
    adopted ← optional_datetime (get "provider_adopted_at" fs)
    running ← optional_datetime (get "first_running_observed_at" fs)
    ready ← optional_datetime (get "worker_ready_at" fs)
    submitted ← optional_datetime (get "workload_submitted_at" fs)
    workload_running ← optional_datetime (get "workload_running_at" fs)
    terminal ← optional_datetime (get "workload_terminal_at" fs)
    stopped ← optional_datetime (get "stop_confirmed_at" fs)
    reconciled ← optional_datetime (get "billing_reconciled_at" fs)
    reservation_at ← parsed reservation
    let evidence : PodCapacityLifecycleEvidence = record {
      reservation_at = reservation_at;
      provider_create_accepted_at = accepted;
      provider_adopted_at = adopted;
      first_running_observed_at = running;
      worker_ready_at = ready;
      workload_submitted_at = submitted;
      workload_running_at = workload_running;
      workload_terminal_at = terminal;
      stop_confirmed_at = stopped;
      billing_reconciled_at = reconciled;
    } in
        if lifecycle_accepted evidence then ok evidence else raise value_error
