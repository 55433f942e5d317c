-- ===== src/Quote/Offered.antt =====
-- The quotes that the provider makes, and their own checks.
use kestrel_cloud_runpod.Prelude.{
  ℕ, ◌≡◌, ◌≤◌, ◌<◌, ◌+◌, ◌*◌, ◌==◌, ◌⊎◌, refl, true, false, inl, inr, arith, String, List, [], All,
  str_eq_refl,
}
use Prim.Native.String.{◌++◌ as append}
use native.Mathlib.Nat.{mul-le-mul_left, mul-le-mul_right, mul-pos}
use kestrel_cloud_runpod.Capacity.Lease.{PodCapacityQuote}
use kestrel_cloud_runpod.Capacity.Errors.{ok, raise, manager}
use kestrel_cloud_runpod.Placement.{
  GpuOffer, PlacementRequirements, PlacementDecision, candidates, price_of, decision,
}
use kestrel_cloud_runpod.Placement.Choice.{AsGood, Compatible, select_gpu_best}
use kestrel_cloud_runpod.Quote.{
  requirements_accepted, is_cuda_floor, Platform, PodCapacityQuoteRequest, quote_request_accepted,
  constraints_accepted, placement_requirements, rounded_cost, pod_cost_usd, quote_accepted,
  quote_of, quote, quote_offers, quote_placement, costed, identifier_pattern, identity,
}
use kestrel_cloud_runpod.Quote.Costs.{rounded_cost_mono, rounded_cost_positive}

-- What `str.strip` and `re.fullmatch` do on the texts of a quote: a text that begins with a letter is
-- not blank, and neither is an identifier.
pub record Documented (p : Platform) : Type 0 where
  pub version_shown : p.is_blank "runpod-pod-capacity-v1" ≡ false
  pub prefix_shown : (digest : String) → p.is_blank (append "runpod-pod:" digest) ≡ false
  pub identifier_shown :
      (s : String) → p.fullmatch identifier_pattern s ≡ true → p.is_blank s ≡ false

==_refl : (n : ℕ) → (n == n) ≡ true
==_refl n = ground arith

-- What a decision needs for a quote: a price, and texts that are not blank.
pub record Quotable (p : Platform) (d : PlacementDecision) : Type 0 where
  pub priced : 0 < d.offered_cost_per_hr
  pub id_shown : p.is_blank d.gpu_id ≡ false
  pub name_shown : p.is_blank d.gpu_name ≡ false

pod_cost_usd-ok :
    (rate seconds count : ℕ)
    → 0 < rate
    → 0 < count
    → pod_cost_usd rate seconds count ≡ ok (rounded_cost (rate * seconds * count))
unfolding pod_cost_usd
pod_cost_usd-ok rate seconds count r c =
    let e : (rate == 0) ≡ false = ground arith in
    let f : (count == 0) ≡ false = ground arith in rw (e, f) refl

abbrev timed : PodCapacityQuoteRequest → ℕ
timed r = r.estimated_startup_seconds + r.estimated_execution_seconds

abbrev due : PlacementDecision → ℕ → ℕ
due d seconds = rounded_cost (d.offered_cost_per_hr * seconds * d.gpu_count)

-- The checked quote of an accepted request for a decision that can be quoted.
quote_of-accepted :
    (p : Platform) (r : PodCapacityQuoteRequest) (d : PlacementDecision) (observed_at : ℕ)
    → Documented p
    → quote_request_accepted p r ≡ true
    → Quotable p d
    → 0 < d.gpu_count
    → d.gpu_count ≡ r.constraints.gpu_count
    → quote_accepted p
        (quote_of p r d (due d (timed r)) (due d r.maximum_runtime_seconds) observed_at)
      ≡ true
unfolding quote_accepted quote_of quote_request_accepted
quote_of-accepted p r d observed_at doc accepted qd count same =
    let workload : p.fullmatch identifier_pattern r.workload_kind ≡ true = ground arith in
    let shown = doc.identifier_shown r.workload_kind workload in
    let spent : 0 < timed r = ground arith in
    let fits : timed r ≤ r.maximum_runtime_seconds = ground arith in
    let some_cost = rounded_cost_positive _ (mul-pos (mul-pos qd.priced spent) count) in
    let within =
      rounded_cost_mono _ _
        (mul-le-mul_right d.gpu_count (mul-le-mul_left d.offered_cost_per_hr fits)) in
    let estimate = pod_cost_usd-ok d.offered_cost_per_hr (timed r) d.gpu_count qd.priced count in
    let ceiling =
      pod_cost_usd-ok d.offered_cost_per_hr r.maximum_runtime_seconds d.gpu_count qd.priced count in
    let named =
      doc.prefix_shown (
        p.quote_id
          (identity r d (due d (timed r)) (due d r.maximum_runtime_seconds) observed_at)) in
    rw (estimate, ceiling)
      (ground (arith, doc.version_shown, named, qd.id_shown, qd.name_shown, str_eq_refl d.gpu_id))

-- `quote_placement` returns that quote.
quote_placement-ok :
    (p : Platform) (r : PodCapacityQuoteRequest) (d : PlacementDecision) (observed_at : ℕ)
    → Documented p
    → quote_request_accepted p r ≡ true
    → Quotable p d
    → 0 < d.gpu_count
    → d.gpu_count ≡ r.constraints.gpu_count
    → (q : PodCapacityQuote) × (quote_placement p r observed_at (ok d) ≡ ok q)
      × (quote_accepted p q ≡ true)
      × (q.placement ≡ d)
unfolding quote_placement costed quote_of
quote_placement-ok p r d observed_at doc accepted qd count same =
    let q = quote_of p r d (due d (timed r)) (due d r.maximum_runtime_seconds) observed_at in
    let good = quote_of-accepted p r d observed_at doc accepted qd count same in
    (
      q,
      rw
          (
            pod_cost_usd-ok d.offered_cost_per_hr (timed r) d.gpu_count qd.priced count,
            pod_cost_usd-ok d.offered_cost_per_hr r.maximum_runtime_seconds d.gpu_count qd.priced
                count,
            good,
          )
          refl,
      good,
      refl,
    )

-- The decision on a given offer.
abbrev pub decided : PlacementRequirements → ℕ → GpuOffer → PlacementDecision
decided needs observed_at o = record {
  gpu_id = o.id;
  gpu_pool = o.pool;
  gpu_name = o.name;
  memory_gb = o.memory_gb;
  cloud = needs.cloud;
  gpu_count = needs.gpu_count;
  offered_cost_per_hr = price_of needs o;
  availability = o.availability;
  catalog_observed_at = observed_at;
  requirements = needs;
}

-- Where the constraints, the CUDA version they name and the request are valid, the catalog answers, and each offer that is
-- compatible has a price above zero and texts that are not blank: the provider raises just when no
-- offer may be chosen; otherwise it returns a quote that passes every check of a quote, placed on a
-- compatible offer of the catalog that no candidate is better than.
pub quote_passes_its_checks :
    (p : Platform) (r : PodCapacityQuoteRequest) (observed_at : ℕ) (offers : List GpuOffer)
    → Documented p
    → constraints_accepted p r.constraints ≡ true
    → is_cuda_floor p r.constraints.min_cuda_version ≡ true
    → quote_request_accepted p r ≡ true
    → p.list_gpus r.constraints.gpu_count r.constraints.cloud r.constraints.min_cuda_version
      ≡ ok offers
    → ((o : GpuOffer)
        → Compatible offers (placement_requirements r.constraints) o
        → Quotable p (decided (placement_requirements r.constraints) observed_at o))
    → ((candidates offers (placement_requirements r.constraints) ≡ [])
        × (quote p r observed_at ≡ raise manager))
      ⊎ ((o : GpuOffer) × Compatible offers (placement_requirements r.constraints) o
          × All
              (AsGood (placement_requirements r.constraints) o)
              (candidates offers (placement_requirements r.constraints))
          × (q : PodCapacityQuote) × (quote p r observed_at ≡ ok q)
          × (quote_accepted p q ≡ true)
          × (q.placement ≡ decided (placement_requirements r.constraints) observed_at o))
unfolding quote quote_offers placement_requirements quote_placement decision constraints_accepted
    requirements_accepted
quote_passes_its_checks p r observed_at offers doc valid cuda accepted answer quotable =
    let needs : PlacementRequirements = placement_requirements r.constraints in
    let checked : requirements_accepted p needs ≡ true = ground (arith, valid, cuda) in
    elim (select_gpu_best offers needs observed_at) [
      | inl none_left ↦ inl (none_left.0, rw (checked, answer, none_left.1) refl)
      | inr (o, chosen, compatible, best) ↦
          let made =
            quote_placement-ok p r (decided needs observed_at o) observed_at doc accepted
              (quotable o compatible) (ground arith) refl in
          inr (o, compatible, best, made.0, rw (checked, answer, chosen) made.1, made.2, made.3)
    ]
