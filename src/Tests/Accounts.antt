-- ===== src/Tests/Accounts.antt =====
-- Bills, placements and stored objects.
use kestrel_cloud_runpod.Prelude.{
  ◌≡◌, ◌≤◌, ◌<◌, ◌⊎◌, ◌+◌, arith, refl, none, some, [], ◌∷◌, ℕ, List, String, true, false, All,
}
use kestrel_cloud_runpod.Capacity.States.{CloudType}
use kestrel_cloud_runpod.Capacity.Evidence.{PodBillingReceipt}
use kestrel_cloud_runpod.Capacity.Errors.{Result, ok, raise, manager, value_error}
use kestrel_cloud_runpod.Billing.{
  hour, Amounts, BillingRow, BillingPage, sort_rows, exact_hours, billing_hour_bounds,
  read_exact_pod_billing,
}
use kestrel_cloud_runpod.Billing
use kestrel_cloud_runpod.Billing.Hours.{Window, billing_hour_bounds_least}
use kestrel_cloud_runpod.Billing.Tiling.{Tiles, ends, next}
use kestrel_cloud_runpod.Billing.Exact.{Exact, exact_hours-Exact}
use kestrel_cloud_runpod.Billing.Accepted.{Answers, exact_hours_complete}
use kestrel_cloud_runpod.Billing.Receipt.{Receipted, read_exact_pod_billing_covers}
use kestrel_cloud_runpod.Placement.{
  GpuOffer, PlacementRequirements, ComputeProduct, Availability, Price, candidates, select_gpu,
  decision,
}
use kestrel_cloud_runpod.Placement.Choice.{AsGood, Compatible, select_gpu_best}

billing_hour_bounds_least_example :
    ((9000000000 ≤ 100) × (billing_hour_bounds 100 9000000000 ≡ raise value_error))
    ⊎ ((100 < 9000000000)
        × (first : ℕ) × (until : ℕ) × (billing_hour_bounds 100 9000000000 ≡ ok (first, until))
        × Window 100 9000000000 first until
        × ((first' until' : ℕ)
            → Window 100 9000000000 first' until'
            → (first' ≤ first) × (until ≤ until')))
billing_hour_bounds_least_example = billing_hour_bounds_least 100 9000000000

abbrev row : ℕ → BillingRow
row start = record {
  pod_id = "pod";
  start_time = start;
  end_time = start + hour;
  amounts = record { total_amount = 6; gpu_amount = 3; cpu_amount = 2; disk_amount = 1 };
}

-- Two hours, the later one first.
abbrev page : BillingPage
page = record {
  pod_id = "pod";
  bucket_size = "hour";
  start_time = 0;
  end_time = 7200000000;
  record_count = 2;
  unique_pod_count = 1;
  totals = record { total_amount = 12; gpu_amount = 6; cpu_amount = 4; disk_amount = 2 };
  records = row 3600000000 ∷ row 0 ∷ [];
}

exact : exact_hours page "pod" 0 7200000000 ≡ ok (some (sort_rows page.records))
unfolding exact_hours
exact = refl

exact_hours-Exact_example : Exact page "pod" 0 7200000000 (sort_rows page.records)
exact_hours-Exact_example = exact_hours-Exact page "pod" 0 7200000000 (omega arith) exact

tiling : Tiles 7200000000 0 (sort_rows page.records)
unfolding sort_rows
tiling = next (row 0) refl refl (next (row 3600000000) refl refl ends)

answers : Answers page "pod" 0 7200000000
unfolding Billing.count Billing.sum_of
answers = record {
  row = row 3600000000;
  more = row 0 ∷ [];
  records = refl;
  pod_id = refl;
  bucket_size = refl;
  start_time = refl;
  end_time = refl;
  record_count = refl;
  unique_pod_count = refl;
  total_amount = refl;
  gpu_amount = refl;
  cpu_amount = refl;
  disk_amount = refl;
}

exact_hours_complete_example :
    exact_hours page "pod" 0 7200000000 ≡ ok (some (sort_rows page.records))
exact_hours_complete_example =
    exact_hours_complete page "pod" 0 7200000000 answers ((refl, refl), ((refl, refl), tt)) tiling

abbrev client : ℕ → ℕ → Result BillingPage
client first until = ok page

abbrev receipt : PodBillingReceipt
receipt = record {
  provider_billing_id = "billing-id";
  provider_pod_id = some "pod";
  billed_from = 0;
  billed_until = 7200000000;
  billed_seconds = 7200;
  hourly_price_usd = 6;
  actual_cost_usd = 12;
  reconciled_at = 9000000000;
}

billed :
    read_exact_pod_billing
      (λ rows. "billing-id")
      client
      "pod"
      100
      7000000000
      6
      8000000000
      9000000000
    ≡ ok (some receipt)
unfolding read_exact_pod_billing
billed = refl

read_exact_pod_billing_covers_example :
    (100 < 7000000000)
    × (receipt.billed_until ≤ 8000000000)
    × Window 100 7000000000 receipt.billed_from receipt.billed_until
    × ((first until : ℕ)
        → Window 100 7000000000 first until
        → (first ≤ receipt.billed_from) × (receipt.billed_until ≤ until))
    × Receipted client "pod" 6 8000000000 receipt.billed_from receipt.billed_until receipt
read_exact_pod_billing_covers_example =
    read_exact_pod_billing_covers (λ rows. "billing-id") client "pod" 6 8000000000 9000000000 100
      7000000000 billed

abbrev offer : String → ℕ → GpuOffer
offer id price = record {
  id = id;
  name = id;
  pool = none;
  memory_gb = 24;
  is_secure = true;
  is_community = false;
  secure_price_per_hr = Price.amount price;
  community_price_per_hr = Price.unusable;
  secure_max_count = 4;
  community_max_count = 0;
  availability = some Availability.high;
  data_centers = [];
  availability_min_cuda_version = none;
  serverless_price_per_hr = none;
}

abbrev needs : PlacementRequirements
needs = record {
  product = ComputeProduct.pod;
  min_vram_gb = 16;
  gpu_count = 1;
  cloud = CloudType.secure;
  min_cuda_version = none;
  max_cost_per_hr = some 90;
  allowed_gpu_ids = [];
  allowed_gpu_pools = [];
  allowed_data_center_ids = [];
  minimum_availability = Availability.low;
  benchmark_id = none;
}

abbrev catalog : List GpuOffer
catalog = offer "dear" 80 ∷ offer "cheap" 40 ∷ offer "over" 100 ∷ []

select_gpu_best_example :
    ((candidates catalog needs ≡ []) × (select_gpu catalog needs 7 ≡ raise manager))
    ⊎ ((o : GpuOffer) × (select_gpu catalog needs 7 ≡ decision needs 7 (ok o))
        × Compatible catalog needs o
        × All (AsGood needs o) (candidates catalog needs))
select_gpu_best_example = select_gpu_best catalog needs 7
