-- ===== src/Tests/Codec.antt =====
-- Stored objects, with instants and amounts written as tallies.
use kestrel_cloud_runpod.Prelude.{
  ℕ, zero, suc, ◌+◌, ◌-◌, ◌≡◌, refl, ap, ◌∙◌, some, String, true, false, arith, inl, inr,
  Bool-cases, str_eq, str_eq_sound,
}
use Prim.Native.String.{len, ◌++◌ as append}
use text.Mathlib.TextPositions.{len-append}
use kestrel_cloud_runpod.Capacity.States.{CloudType}
use kestrel_cloud_runpod.Capacity.Evidence.{
  PodBillingReceipt, PodRealizedPlacement, PodCapacityLifecycleEvidence, lifecycle_accepted,
}
use kestrel_cloud_runpod.Capacity.Errors.{ok}
use kestrel_cloud_runpod.Capacity.Codec.{
  Texts, receipt_accepted, receipt_to_dict, receipt_from_dict, placement_to_dict,
  placement_from_dict, lifecycle_to_dict, lifecycle_from_dict,
}
use kestrel_cloud_runpod.Capacity.Codec.RoundTrip.{
  Readable, receipt_from_dict-receipt_to_dict, placement_from_dict-placement_to_dict,
  lifecycle_from_dict-lifecycle_to_dict,
}
use kestrel_cloud_runpod.Tests.Samples.{evidence}

-- One mark more than the number.
unfoldable tally : ℕ → String
tally zero = "|"
tally (suc n) = append "|" (tally n)

len-tally : (n : ℕ) → len (tally n) ≡ n + 1
unfolding tally
len-tally zero = refl
len-tally (suc n) = len-append "|" (tally n) ∙ omega (arith, len-tally n)

abbrev tallies : Texts
tallies = record {
  isoformat = tally;
  fromisoformat = λ s. some (len s - 1);
  decimal_text = tally;
  decimal = λ s. some (len s - 1);
}

read_tally : (n : ℕ) → some (len (tally n) - 1) ≡ some n
read_tally n = ap some (omega (arith, len-tally n))

tally-nonempty : (n : ℕ) → str_eq (tally n) "" ≡ false
tally-nonempty n = elim (Bool-cases (str_eq (tally n) "")) [
  | inl y ↦
      let empty : len (tally n) ≡ 0 = ap len (str_eq_sound (tally n) "" y) in
      absurd (omega (arith, empty, len-tally n))
  | inr differs ↦ differs
]

readable : Readable tallies
readable = record { instant = read_tally; instant_text = tally-nonempty; amount = read_tally }

abbrev bill : PodBillingReceipt
bill = record {
  provider_billing_id = "billing-id";
  provider_pod_id = some "pod";
  billed_from = 0;
  billed_until = 3;
  billed_seconds = 0;
  hourly_price_usd = 6;
  actual_cost_usd = 12;
  reconciled_at = 9;
}

accepted : receipt_accepted bill ≡ true
unfolding receipt_accepted
accepted = refl

receipt_from_dict-receipt_to_dict_example :
    receipt_from_dict tallies (receipt_to_dict tallies bill) ≡ ok bill
receipt_from_dict-receipt_to_dict_example =
    receipt_from_dict-receipt_to_dict tallies readable bill refl accepted

abbrev placed : PodRealizedPlacement
placed = record {
  provider_pod_id = "pod";
  gpu_type_id = "gpu";
  gpu_display_name = "GPU";
  gpu_count = 2;
  cloud = CloudType.community;
  data_center_id = "center";
  hourly_rate_usd = 7;
  observed_at = 8;
}

placement_from_dict-placement_to_dict_example :
    placement_from_dict tallies (placement_to_dict tallies placed) ≡ ok placed
placement_from_dict-placement_to_dict_example =
    placement_from_dict-placement_to_dict tallies readable placed refl refl refl refl refl

abbrev phases : PodCapacityLifecycleEvidence
phases = (evidence (some 110)).lifecycle

ordered : lifecycle_accepted phases ≡ true
unfolding lifecycle_accepted
ordered = refl

lifecycle_from_dict-lifecycle_to_dict_example :
    lifecycle_from_dict tallies (lifecycle_to_dict tallies phases) ≡ ok phases
lifecycle_from_dict-lifecycle_to_dict_example =
    lifecycle_from_dict-lifecycle_to_dict tallies readable phases ordered
