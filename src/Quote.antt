-- ===== src/Quote.antt =====
-- Quotes of Pod capacity: `PodCapacityQuoteRequest`, the checks of `PodCapacityQuote` and
-- `pod_cost_usd` of `pod_capacity_contracts.py`, and `quote` of `pod_capacity_provider.py`. A unit of
-- money is 10⁻¹² dollars here. The division of `pod_cost_usd` is exact: at the size of a price, the
-- digits of the decimal context leave its ceiling as it is. The float of an hourly limit is the limit.
pub mod Costs
pub mod Offered
use kestrel_cloud_runpod.Prelude.{
  ℕ, ◌+◌, ◌-◌, ◌*◌, ◌/◌, ◌<◌, String, Option, none, some, List, [], ◌∷◌, Bool, true, false, not,
  ◌&&◌, ◌||◌, ltb, leb, ◌==◌, str_eq, if◌then◌else◌,
}
use Prim.Native.String.{◌++◌ as append}
use kestrel_cloud_runpod.Capacity.States.{CloudType}
use kestrel_cloud_runpod.Capacity.Errors.{Error, Result, ok, raise, value_error}
use kestrel_cloud_runpod.Capacity.Lease.{PodCapacityConstraints, PodCapacityQuote}
use kestrel_cloud_runpod.Placement.{
  ComputeProduct, Availability, GpuOffer, PlacementRequirements, PlacementDecision, select_gpu,
}

-- What a quote's ID digests.
pub record QuoteIdentity : Type 0 where
  pub capability_version : String
  pub workload_kind : String
  pub parameters_sha256 : String
  pub gpu_type_id : String
  pub gpu_display_name : String
  pub hourly_cost_usd : ℕ
  pub estimated_cost_usd : ℕ
  pub cost_ceiling_usd : ℕ
  pub estimated_startup_seconds : ℕ
  pub estimated_execution_seconds : ℕ
  pub maximum_runtime_seconds : ℕ
  pub observed_at : ℕ
  pub constraints : PodCapacityConstraints

-- The parts of the Python library and of the Runpod client that a quote uses: `re.fullmatch` of a
-- pattern and a text, whether a stripped text is empty, the SHA-256 digest of the canonical JSON of
-- an identity, and the answer of `list_gpus` to a count, a cloud and a CUDA version.
pub record Platform : Type 0 where
  pub fullmatch : String → String → Bool
  pub is_blank : String → Bool
  pub quote_id : QuoteIdentity → String
  pub list_gpus : ℕ → CloudType → Option String → Result (List GpuOffer)

pub record PodCapacityQuoteRequest : Type 0 where
  pub constraints : PodCapacityConstraints
  pub workload_kind : String
  pub parameters_sha256 : String
  pub estimated_startup_seconds : ℕ
  pub estimated_execution_seconds : ℕ
  pub maximum_runtime_seconds : ℕ
  pub quote_ttl_seconds : ℕ

abbrev pub identifier_pattern : String
identifier_pattern = "[A-Za-z0-9][A-Za-z0-9._:-]{7,127}"

abbrev pub sha256_pattern : String
sha256_pattern = "[0-9a-f]{64}"

abbrev pub is_positive_limit : Option ℕ → Bool
is_positive_limit none = true
is_positive_limit (some n) = ltb 0 n

-- `allowed_products == (ComputeProduct.POD,)`
abbrev pub is_pod_only : List ComputeProduct → Bool
is_pod_only (ComputeProduct.pod ∷ []) = true
is_pod_only _ = false

-- `PodCapacityConstraints.__post_init__`
unfoldable pub constraints_accepted : Platform → PodCapacityConstraints → Bool
constraints_accepted p c =
    ltb 0 c.min_vram_gb
    && ltb 0 c.gpu_count
    && is_pod_only c.allowed_products
    && not (p.is_blank c.benchmark_id)
    && is_positive_limit c.max_hourly_rate_usd

unfoldable pub placement_requirements : PodCapacityConstraints → PlacementRequirements
placement_requirements c = record {
  product = ComputeProduct.pod;
  min_vram_gb = c.min_vram_gb;
  gpu_count = c.gpu_count;
  cloud = c.cloud;
  min_cuda_version = c.min_cuda_version;
  max_cost_per_hr = c.max_hourly_rate_usd;
  allowed_gpu_ids = c.allowed_gpu_ids;
  allowed_gpu_pools = [];
  allowed_data_center_ids = c.allowed_data_center_ids;
  minimum_availability = Availability.low;
  benchmark_id = some c.benchmark_id;
}

-- The pattern of `normalize_cuda_floor`, whose value `PlacementRequirements` drops.
abbrev pub is_cuda_floor : Platform → Option String → Bool
is_cuda_floor p none = true
is_cuda_floor p (some version) = p.fullmatch "[0-9]+(?:\\.[0-9]+)?" version

-- `PlacementRequirements.__post_init__`
unfoldable pub requirements_accepted : Platform → PlacementRequirements → Bool
requirements_accepted p r =
    ltb 0 r.min_vram_gb
    && ltb 0 r.gpu_count
    && is_positive_limit r.max_cost_per_hr
    && is_cuda_floor p r.min_cuda_version

-- `PodCapacityQuoteRequest.__post_init__`
unfoldable pub quote_request_accepted : Platform → PodCapacityQuoteRequest → Bool
quote_request_accepted p r =
    p.fullmatch identifier_pattern r.workload_kind
    && p.fullmatch sha256_pattern r.parameters_sha256
    && ltb 0 r.estimated_execution_seconds
    && ltb 0 r.maximum_runtime_seconds
    && ltb 0 r.quote_ttl_seconds
    && leb (r.estimated_startup_seconds + r.estimated_execution_seconds) r.maximum_runtime_seconds

-- One millionth of a dollar, the step that a cost is rounded up to.
abbrev pub microdollar : ℕ
microdollar = 1000000

-- `quantize(Decimal("0.000001"), rounding=ROUND_CEILING)` of `n / 3600`
unfoldable pub rounded_cost : ℕ → ℕ
rounded_cost n = (n + 3599999999) / 3600000000 * microdollar

unfoldable pub pod_cost_usd : ℕ → ℕ → ℕ → Result ℕ
unfolding rounded_cost
pod_cost_usd hourly_cost_usd billed_seconds gpu_count =
    if hourly_cost_usd == 0 || gpu_count == 0
    then raise value_error
    else ok (rounded_cost (hourly_cost_usd * billed_seconds * gpu_count))

-- `value == pod_cost_usd(...)`, where the right side does not raise.
abbrev pub is_cost : ℕ → Result ℕ → Bool
is_cost n (raise e) = false
is_cost n (ok cost) = n == cost

-- `PodCapacityQuote.__post_init__`, whose instants are aware.
unfoldable pub quote_accepted : Platform → PodCapacityQuote → Bool
unfolding pod_cost_usd
quote_accepted p q =
    q.schema_version == 3
    && not (p.is_blank q.capability_version)
    && not (p.is_blank q.provider_quote_id)
    && not (p.is_blank q.workload_kind)
    && not (p.is_blank q.gpu_type_id)
    && not (p.is_blank q.gpu_display_name)
    && p.fullmatch sha256_pattern q.parameters_sha256
    && ltb 0 q.hourly_cost_usd
    && ltb 0 q.estimated_cost_usd
    && ltb 0 q.cost_ceiling_usd
    && leb q.estimated_cost_usd q.cost_ceiling_usd
    && ltb 0 q.estimated_execution_seconds
    && ltb 0 q.maximum_runtime_seconds
    && leb (q.estimated_startup_seconds + q.estimated_execution_seconds) q.maximum_runtime_seconds
    && q.placement.gpu_count == q.constraints.gpu_count
    && is_cost q.estimated_cost_usd (
        pod_cost_usd q.hourly_cost_usd (q.estimated_startup_seconds + q.estimated_execution_seconds)
          q.placement.gpu_count)
    && is_cost q.cost_ceiling_usd
        (pod_cost_usd q.hourly_cost_usd q.maximum_runtime_seconds q.placement.gpu_count)
    && ltb q.observed_at q.expires_at
    && str_eq q.placement.gpu_id q.gpu_type_id
    && q.placement.offered_cost_per_hr == q.hourly_cost_usd

-- The fields of the digested object.
abbrev pub identity : PodCapacityQuoteRequest → PlacementDecision → ℕ → ℕ → ℕ → QuoteIdentity
identity r d estimated ceiling observed_at = record {
  capability_version = "runpod-pod-capacity-v1";
  workload_kind = r.workload_kind;
  parameters_sha256 = r.parameters_sha256;
  gpu_type_id = d.gpu_id;
  gpu_display_name = d.gpu_name;
  hourly_cost_usd = d.offered_cost_per_hr;
  estimated_cost_usd = estimated;
  cost_ceiling_usd = ceiling;
  estimated_startup_seconds = r.estimated_startup_seconds;
  estimated_execution_seconds = r.estimated_execution_seconds;
  maximum_runtime_seconds = r.maximum_runtime_seconds;
  observed_at = observed_at;
  constraints = r.constraints;
}

-- The quote that `quote` makes, before its checks. The ID is the digest behind a prefix.
unfoldable pub quote_of :
    Platform → PodCapacityQuoteRequest → PlacementDecision → ℕ → ℕ → ℕ → PodCapacityQuote
quote_of p r d estimated ceiling observed_at = record {
  schema_version = 3;
  capability_version = "runpod-pod-capacity-v1";
  provider_quote_id =
      append "runpod-pod:" (p.quote_id (identity r d estimated ceiling observed_at));
  workload_kind = r.workload_kind;
  parameters_sha256 = r.parameters_sha256;
  constraints = r.constraints;
  gpu_type_id = d.gpu_id;
  gpu_display_name = d.gpu_name;
  hourly_cost_usd = d.offered_cost_per_hr;
  estimated_cost_usd = estimated;
  cost_ceiling_usd = ceiling;
  estimated_startup_seconds = r.estimated_startup_seconds;
  estimated_execution_seconds = r.estimated_execution_seconds;
  maximum_runtime_seconds = r.maximum_runtime_seconds;
  observed_at = observed_at;
  expires_at = observed_at + r.quote_ttl_seconds * 1000000;
  placement = d;
}

-- The constructor of `PodCapacityQuote`.
abbrev pub checked_quote : Platform → PodCapacityQuote → Result PodCapacityQuote
unfolding quote_accepted
checked_quote p q = if quote_accepted p q then ok q else raise value_error

-- The two costs, and the quote.
unfoldable pub costed :
    Platform
    → PodCapacityQuoteRequest
    → PlacementDecision
    → ℕ
    → Result ℕ
    → Result ℕ
    → Result PodCapacityQuote
unfolding quote_of quote_accepted
costed p r d observed_at (raise e) ceiling = raise e
costed p r d observed_at (ok estimated) (raise e) = raise e
costed p r d observed_at (ok estimated) (ok ceiling) =
    checked_quote p (quote_of p r d estimated ceiling observed_at)

unfoldable pub quote_placement :
    Platform → PodCapacityQuoteRequest → ℕ → Result PlacementDecision → Result PodCapacityQuote
unfolding pod_cost_usd costed
quote_placement p r observed_at (raise e) = raise e
quote_placement p r observed_at (ok d) =
    costed p r d observed_at
      (pod_cost_usd d.offered_cost_per_hr
        (r.estimated_startup_seconds + r.estimated_execution_seconds) d.gpu_count)
      (pod_cost_usd d.offered_cost_per_hr r.maximum_runtime_seconds d.gpu_count)

unfoldable pub quote_offers :
    Platform → PodCapacityQuoteRequest → ℕ → Result (List GpuOffer) → Result PodCapacityQuote
unfolding quote_placement placement_requirements
quote_offers p r observed_at (raise e) = raise e
quote_offers p r observed_at (ok offers) =
    quote_placement p r observed_at
      (select_gpu offers (placement_requirements r.constraints) observed_at)

-- `quote`, at a given time.
unfoldable pub quote : Platform → PodCapacityQuoteRequest → ℕ → Result PodCapacityQuote
unfolding quote_offers requirements_accepted
quote p r observed_at =
    let needs : PlacementRequirements = placement_requirements r.constraints in
    if requirements_accepted p needs
    then quote_offers p r observed_at
        (p.list_gpus needs.gpu_count needs.cloud needs.min_cuda_version)
    else raise value_error
