-- ===== src/Quote/Costs.antt =====
-- What a cost is: the least whole number of microdollars that covers a time at a rate.
use kestrel_cloud_runpod.Prelude.{
  ℕ, ◌≡◌, ◌≤◌, ◌<◌, ◌+◌, ◌*◌, ◌==◌, ◌||◌, sym, subst, true, false, inl, inr, arith, Bool-cases,
  ==_sound,
}
use native.Mathlib.Nat.{le_trans, mul-le-mul_left, mul-le-mul_right}
use kestrel_cloud_runpod.Capacity.Lease.{PodCapacityQuote}
use kestrel_cloud_runpod.Quote.{
  Platform, rounded_cost, pod_cost_usd, quote_accepted, microdollar, is_cost,
}

-- `cost` is a number of microdollars that covers `n` / 3600, and no smaller one does.
pub record Covers (cost n : ℕ) : Type 0 where
  pub covers : n ≤ 3600 * cost
  pub least : (k : ℕ) → n ≤ 3600 * (k * microdollar) → cost ≤ k * microdollar

pub rounded_cost-Covers : (n : ℕ) → Covers (rounded_cost n) n
unfolding rounded_cost
rounded_cost-Covers n = record { covers = omega arith; least = λ k h. omega arith }

pub rounded_cost_mono : (m n : ℕ) → m ≤ n → rounded_cost m ≤ rounded_cost n
unfolding rounded_cost
rounded_cost_mono m n h = omega arith

pub rounded_cost_positive : (n : ℕ) → 0 < n → 0 < rounded_cost n
unfolding rounded_cost
rounded_cost_positive n h = omega arith

pub is_cost-Covers :
    (cost rate seconds count : ℕ)
    → is_cost cost (pod_cost_usd rate seconds count) ≡ true
    → Covers cost (rate * seconds * count)
unfolding pod_cost_usd
is_cost-Covers cost rate seconds count h = elim (Bool-cases (rate == 0 || count == 0)) [
  | inl y ↦ let e : false ≡ true = rw y at h in cc
  | inr n ↦
      let e : (cost == rounded_cost (rate * seconds * count)) ≡ true = rw n at h in
      subst (λ c. Covers c (rate * seconds * count)) (sym (==_sound cost _ e))
        (rounded_cost-Covers (rate * seconds * count))
]

-- What the checks of a quote say of its costs.
pub record Costed (q : PodCapacityQuote) : Type 0 where
  pub count : q.placement.gpu_count ≡ q.constraints.gpu_count
  pub estimate :
      is_cost q.estimated_cost_usd (
        pod_cost_usd q.hourly_cost_usd
          (q.estimated_startup_seconds + q.estimated_execution_seconds)
          q.placement.gpu_count)
      ≡ true
  pub ceiling :
      is_cost q.cost_ceiling_usd
        (pod_cost_usd q.hourly_cost_usd q.maximum_runtime_seconds q.placement.gpu_count)
      ≡ true
  pub ordered : q.estimated_cost_usd ≤ q.cost_ceiling_usd

quote_accepted-Costed : (p : Platform) (q : PodCapacityQuote) → quote_accepted p q ≡ true → Costed q
unfolding quote_accepted
quote_accepted-Costed p q h = record {
  count = ground arith;
  estimate = ground arith;
  ceiling = ground arith;
  ordered = ground arith;
}

-- The costs of a quote that passes its checks cover the GPUs that the quote's constraints ask for:
-- the estimate for the estimated time and the ceiling for the maximum runtime, each the least number
-- of microdollars that does. The ceiling covers any shorter run too, and the estimate is no more.
pub quote_never_underfunds :
    (p : Platform) (q : PodCapacityQuote)
    → quote_accepted p q ≡ true
    → Covers q.estimated_cost_usd (
        q.hourly_cost_usd
        * (q.estimated_startup_seconds + q.estimated_execution_seconds)
        * q.constraints.gpu_count)
      × Covers q.cost_ceiling_usd
          (q.hourly_cost_usd * q.maximum_runtime_seconds * q.constraints.gpu_count)
      × ((seconds : ℕ)
          → seconds ≤ q.maximum_runtime_seconds
          → q.hourly_cost_usd * seconds * q.constraints.gpu_count ≤ 3600 * q.cost_ceiling_usd)
      × (q.estimated_cost_usd ≤ q.cost_ceiling_usd)
quote_never_underfunds p q h =
    let c : Costed q = quote_accepted-Costed p q h in
    let estimate =
      subst
        (λ n.
          Covers q.estimated_cost_usd
            (q.hourly_cost_usd * (q.estimated_startup_seconds + q.estimated_execution_seconds) * n))
        c.count (is_cost-Covers _ _ _ _ c.estimate) in
    let ceiling =
      subst (λ n. Covers q.cost_ceiling_usd (q.hourly_cost_usd * q.maximum_runtime_seconds * n))
        c.count (is_cost-Covers _ _ _ _ c.ceiling) in
    (
      estimate,
      ceiling,
      λ seconds le.
          le_trans (mul-le-mul_right q.constraints.gpu_count (mul-le-mul_left q.hourly_cost_usd le))
            ceiling.covers,
      c.ordered,
    )
