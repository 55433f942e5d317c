-- ===== src/Tests/Quotes.antt =====
-- A quote from a catalog of two offers.
use kestrel_cloud_runpod.Prelude.{
  ℕ, ◌≡◌, ◌≤◌, ◌+◌, ◌*◌, ◌==◌, ◌⊎◌, refl, sym, subst, true, false, not, none, some, inl, inr, arith,
  String, List, [], ◌∷◌, All, Bool-cases,
}
use Prim.Native.String.{len}
use text.Mathlib.TextPositions.{len-append}
use mathlib.Core.List.{Memᴰ}
use kestrel_cloud_runpod.Capacity.States.{CloudType}
use kestrel_cloud_runpod.Capacity.Errors.{ok, raise, manager}
use kestrel_cloud_runpod.Capacity.Lease.{PodCapacityQuote}
use kestrel_cloud_runpod.Placement.{
  GpuOffer, ComputeProduct, Availability, Price, candidates, is_compatible, price_for, select_gpu,
}
use kestrel_cloud_runpod.Placement.Choice.{AsGood, Compatible}
use kestrel_cloud_runpod.Quote.{
  Platform, PodCapacityQuoteRequest, constraints_accepted, quote_request_accepted,
  placement_requirements, quote, quote_accepted,
}
use kestrel_cloud_runpod.Quote.Costs.{Covers, quote_never_underfunds}
use kestrel_cloud_runpod.Quote.Offered.{Documented, Quotable, decided, quote_passes_its_checks}

abbrev offer : String → ℕ → GpuOffer
offer id price = record {
  id = id;
  name = id;
  pool = none;
  memory_gb = 24;
  is_secure = true;
  is_community = false;
  secure_price_per_hr = Price.amount price;
  community_price_per_hr = Price.unusable;
  secure_max_count = 4;
  community_max_count = 0;
  availability = some Availability.high;
  data_centers = [];
  availability_min_cuda_version = none;
  serverless_price_per_hr = none;
}

abbrev catalog : List GpuOffer
catalog = offer "dear" 800000000000 ∷ offer "cheap" 400000000000 ∷ []

abbrev platform : Platform
platform = record {
  fullmatch = λ pattern s. not (len s == 0);
  is_blank = λ s. len s == 0;
  quote_id = λ identity. "digest";
  list_gpus = λ count cloud cuda. ok catalog;
}

abbrev asked : PodCapacityQuoteRequest
asked = record {
  constraints = record {
    min_vram_gb = 16;
    gpu_count = 2;
    cloud = CloudType.secure;
    min_cuda_version = none;
    allowed_gpu_ids = [];
    allowed_data_center_ids = [];
    max_hourly_rate_usd = none;
    benchmark_id = "benchmark";
    allowed_products = ComputeProduct.pod ∷ [];
  };
  workload_kind = "training";
  parameters_sha256 = "parameters";
  estimated_startup_seconds = 60;
  estimated_execution_seconds = 600;
  maximum_runtime_seconds = 3600;
  quote_ttl_seconds = 60;
}

documented : Documented platform
documented = record {
  version_shown = refl;
  prefix_shown = λ digest. let e = len-append "runpod-pod:" digest in rw e (ground arith);
  identifier_shown = λ s h. elim (Bool-cases (len s == 0)) [
    | inl y ↦ let e : false ≡ true = rw y at h in cc
    | inr n ↦ n
  ];
}

All-at : (P : GpuOffer → Type 0) (os : List GpuOffer) → All P os → (o : GpuOffer) → Memᴰ o os → P o
All-at P [] h o m = elim m [ ]
All-at P (x ∷ xs) h o (Memᴰ.head e) = subst P (sym e) h.0
All-at P (x ∷ xs) h o (Memᴰ.tail m) = All-at P xs h.1 o m

abbrev Sold : GpuOffer → Type 0
Sold o = Quotable platform (decided (placement_requirements asked.constraints) 7 o)

sold : All Sold catalog
unfolding placement_requirements price_for
sold = (
  record { priced = omega arith; id_shown = refl; name_shown = refl },
  (record { priced = omega arith; id_shown = refl; name_shown = refl }, tt),
)

quote_passes_its_checks_example :
    ((candidates catalog (placement_requirements asked.constraints) ≡ [])
      × (quote platform asked 7 ≡ raise manager))
    ⊎ ((o : GpuOffer) × Compatible catalog (placement_requirements asked.constraints) o
        × All
            (AsGood (placement_requirements asked.constraints) o)
            (candidates catalog (placement_requirements asked.constraints))
        × (q : PodCapacityQuote) × (quote platform asked 7 ≡ ok q)
        × (quote_accepted platform q ≡ true)
        × (q.placement ≡ decided (placement_requirements asked.constraints) 7 o))
unfolding constraints_accepted quote_request_accepted
quote_passes_its_checks_example =
    quote_passes_its_checks platform asked 7 catalog documented refl refl refl refl
      (λ o c. All-at Sold catalog sold o c.0)

abbrev quoted : PodCapacityQuote
quoted = record {
  schema_version = 3;
  capability_version = "runpod-pod-capacity-v1";
  provider_quote_id = "runpod-pod:digest";
  workload_kind = "training";
  parameters_sha256 = "parameters";
  constraints = asked.constraints;
  gpu_type_id = "cheap";
  gpu_display_name = "cheap";
  hourly_cost_usd = 400000000000;
  estimated_cost_usd = 146667000000;
  cost_ceiling_usd = 800000000000;
  estimated_startup_seconds = 60;
  estimated_execution_seconds = 600;
  maximum_runtime_seconds = 3600;
  observed_at = 7;
  expires_at = 60000007;
  placement = decided (placement_requirements asked.constraints) 7 (offer "cheap" 400000000000);
}

-- The run that chooses the cheaper offer.
cheap_quoted : quote platform asked 7 ≡ ok quoted
unfolding quote placement_requirements select_gpu is_compatible
cheap_quoted = refl

passes : quote_accepted platform quoted ≡ true
unfolding quote_accepted placement_requirements price_for
passes = refl

quote_never_underfunds_example :
    Covers 146667000000 (400000000000 * (60 + 600) * 2)
    × Covers 800000000000 (400000000000 * 3600 * 2)
    × ((seconds : ℕ) → seconds ≤ 3600 → 400000000000 * seconds * 2 ≤ 3600 * 800000000000)
    × (146667000000 ≤ 800000000000)
quote_never_underfunds_example = quote_never_underfunds platform quoted passes
