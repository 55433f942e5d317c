-- ===== src/Billing/Receipt.antt =====
-- The receipt of `read_exact_pod_billing`.
use kestrel_cloud_runpod.Prelude.{
  ℕ, ◌-◌, ◌/◌, ◌≡◌, ◌≤◌, ◌<◌, refl, sym, subst, String, Option, none, some, List, true, inl, inr,
  arith, Bool-cases, ltb,
}
use kestrel_cloud_runpod.Capacity.Evidence.{PodBillingReceipt}
use kestrel_cloud_runpod.Capacity.Codec.{receipt_accepted}
use kestrel_cloud_runpod.Capacity.Errors.{Result, ok, raise}
use kestrel_cloud_runpod.Billing.{
  BillingRow, BillingPage, sum_of, receipt_of, receipt_from, read_window, read_exact_pod_billing,
}
use kestrel_cloud_runpod.Billing.Hours.{Window, billing_hour_bounds_least}
use kestrel_cloud_runpod.Billing.Exact.{Exact, exact_hours-Exact}

-- A receipt of a page of the client, for the window.
pub record Receipted (client : ℕ → ℕ → Result BillingPage) (pod : String) (rate now first until : ℕ)
    (receipt : PodBillingReceipt) : Type 0 where
  pub page : BillingPage
  pub rows : List BillingRow
  pub answered : client first until ≡ ok page
  pub exact : Exact page pod first until rows
  pub pod_id : receipt.provider_pod_id ≡ some pod
  pub billed_from : receipt.billed_from ≡ first
  pub billed_until : receipt.billed_until ≡ until
  pub hourly_price_usd : receipt.hourly_price_usd ≡ rate
  pub actual_cost_usd : receipt.actual_cost_usd ≡ page.totals.total_amount
  pub accepted : receipt_accepted receipt ≡ true

module _ (billing_id : List BillingRow → String) (client : ℕ → ℕ → Result BillingPage)
    (pod : String) (rate now reconciled_at : ℕ) where
  receipt_of-Receipted :
      (first until : ℕ) (page : BillingPage) (r : Result (Option (List BillingRow)))
      {receipt : PodBillingReceipt}
      → client first until ≡ ok page
      → ((rows : List BillingRow) → r ≡ ok (some rows) → Exact page pod first until rows)
      → receipt_of billing_id pod first until rate reconciled_at r ≡ ok (some receipt)
      → Receipted client pod rate now first until receipt
  unfolding receipt_of
  receipt_of-Receipted first until page (raise e) a x h = cc
  receipt_of-Receipted first until page (ok none) a x h = cc
  receipt_of-Receipted first until page (ok (some rows)) {receipt} a x h =
      let made : PodBillingReceipt = record {
        provider_billing_id = billing_id rows;
        provider_pod_id = some pod;
        billed_from = first;
        billed_until = until;
        billed_seconds = (until - first) / 1000000;
        hourly_price_usd = rate;
        actual_cost_usd = sum_of (λ a. a.total_amount) rows;
        reconciled_at = reconciled_at;
      } in
      elim (Bool-cases (receipt_accepted made)) [
        | inr n ↦ cc (rw n at h)
        | inl y ↦
            let chosen : ok (some made) ≡ ok (some receipt) = rw y at h in
            let same : made ≡ receipt = cc in
            let exact : Exact page pod first until rows = x rows refl in
            subst (Receipted client pod rate now first until) same (record {
              page = page;
              rows = rows;
              answered = a;
              exact = exact;
              pod_id = refl;
              billed_from = refl;
              billed_until = refl;
              hourly_price_usd = refl;
              actual_cost_usd = exact.total;
              accepted = y;
            })
      ]

  receipt_from-Receipted :
      (first until : ℕ) (r : Result BillingPage) {receipt : PodBillingReceipt}
      → first ≤ until
      → client first until ≡ r
      → receipt_from billing_id pod first until rate reconciled_at r ≡ ok (some receipt)
      → Receipted client pod rate now first until receipt
  unfolding receipt_from
  receipt_from-Receipted first until (raise e) c a h = cc
  receipt_from-Receipted first until (ok page) c a h =
      receipt_of-Receipted first until page _ a
        (λ rows e. exact_hours-Exact page pod first until c e) h

  -- A receipt that is returned bills a window of whole hours around the life of the Pod, which has
  -- closed and lies within every other such window: its hours are exactly the hours of that window, its cost is the total that the
  -- provider gave for them, and `PodBillingReceipt` accepts it.
  pub read_exact_pod_billing_covers :
      (created_at terminated_at : ℕ) {receipt : PodBillingReceipt}
      → read_exact_pod_billing billing_id client pod created_at terminated_at rate now reconciled_at
        ≡ ok (some receipt)
      → (created_at < terminated_at)
        × (receipt.billed_until ≤ now)
        × Window created_at terminated_at receipt.billed_from receipt.billed_until
        × ((first until : ℕ)
            → Window created_at terminated_at first until
            → (first ≤ receipt.billed_from) × (receipt.billed_until ≤ until))
        × Receipted client pod rate now receipt.billed_from receipt.billed_until receipt
  unfolding read_exact_pod_billing read_window
  read_exact_pod_billing_covers created_at terminated_at {receipt} h =
      elim (billing_hour_bounds_least created_at terminated_at) [
        | inl (_, e) ↦ cc (rw e at h)
        | inr (positive, first, until, e, w, least) ↦ elim (Bool-cases (ltb now until)) [
          | inl y ↦ cc (rw (e, y) at h)
          | inr n ↦
              let c : first ≤ until = omega (arith, positive, w.covers_start, w.covers_end) in
              let r : Receipted client pod rate now first until receipt =
                receipt_from-Receipted first until (client first until) c refl (rw (e, n) at h) in
              let closed : until ≤ now = ground arith in
              (
                positive,
                subst (λ u. u ≤ now) (sym r.billed_until) closed,
                subst (λ f. Window created_at terminated_at f receipt.billed_until)
                    (sym r.billed_from)
                    (subst (Window created_at terminated_at first) (sym r.billed_until) w),
                λ first' until' w'. (
                  subst (λ f. first' ≤ f) (sym r.billed_from) (least first' until' w').0,
                  subst (λ u. u ≤ until') (sym r.billed_until) (least first' until' w').1,
                ),
                subst (λ f. Receipted client pod rate now f receipt.billed_until receipt)
                    (sym r.billed_from)
                    (subst (λ u. Receipted client pod rate now first u receipt) (sym r.billed_until)
                      r),
              )
        ]
      ]
