-- ===== src/Billing/Accepted.antt =====
-- The pages that `_exact_hours` accepts.
use kestrel_cloud_runpod.Prelude.{
  ℕ, ◌+◌, ◌≡◌, refl, ap, le_refl, String, some, List, [], ◌∷◌, true, false, All, arith, ◌==◌,
  str_eq,
}
use text.Mathlib.TextEquality.{eq_iff}
use kestrel_cloud_runpod.Capacity.Errors.{ok}
use kestrel_cloud_runpod.Billing.{
  Amounts, BillingRow, BillingPage, count, billing_amounts, sum_of, add_row, check_page, parse_rows,
  sort_rows, scan_hours, page_agrees, totals_agree, no_rows, complete_rows, check_rows, exact_hours,
}
use kestrel_cloud_runpod.Billing.Tiling.{Tiles, Tiles-scan}
use kestrel_cloud_runpod.Billing.Exact.{IsSum, IsOwn}

complete_rows-scanned :
    (first until : ℕ) (rs : List BillingRow)
    → Tiles until first rs
    → complete_rows rs (scan_hours first until first false rs) ≡ ok (some rs)
unfolding complete_rows
complete_rows-scanned first until rs t = rw (Tiles-scan first until first rs t (le_refl first)) refl

billing_amounts-of_sum : (a : Amounts) → IsSum a → billing_amounts a ≡ ok a
unfolding billing_amounts
billing_amounts-of_sum a h =
    let e : (a.total_amount == a.gpu_amount + (a.cpu_amount + a.disk_amount)) ≡ true =
      ground (arith, h) in
    rw e refl

parse_rows-of_own :
    (pod : String) (rs : List BillingRow) → All (IsOwn pod) rs → parse_rows pod rs ≡ ok rs
unfolding parse_rows add_row
parse_rows-of_own pod [] h = refl
parse_rows-of_own pod (r ∷ rs) h =
    let named : str_eq r.pod_id pod ≡ true = (eq_iff r.pod_id pod).1 h.0.0 in
    rw (named, billing_amounts-of_sum r.amounts h.0.1, parse_rows-of_own pod rs h.1) refl

-- A page that answers the query: its fields name the Pod and the window, its counts are those of its
-- records, of which there is one at least, and its totals are the sums of its records.
pub record Answers (page : BillingPage) (pod : String) (first until : ℕ) : Type 0 where
  pub row : BillingRow
  pub more : List BillingRow
  pub records : page.records ≡ row ∷ more
  pub pod_id : page.pod_id ≡ pod
  pub bucket_size : page.bucket_size ≡ "hour"
  pub start_time : page.start_time ≡ first
  pub end_time : page.end_time ≡ until
  pub record_count : page.record_count ≡ count page.records
  pub unique_pod_count : page.unique_pod_count ≡ 1
  pub total_amount : sum_of (λ a. a.total_amount) page.records ≡ page.totals.total_amount
  pub gpu_amount : sum_of (λ a. a.gpu_amount) page.records ≡ page.totals.gpu_amount
  pub cpu_amount : sum_of (λ a. a.cpu_amount) page.records ≡ page.totals.cpu_amount
  pub disk_amount : sum_of (λ a. a.disk_amount) page.records ≡ page.totals.disk_amount

==_true : (a b : ℕ) → a ≡ b → (a == b) ≡ true
==_true a b h = ground arith

Answers-page_agrees :
    (page : BillingPage) (pod : String) (first until : ℕ)
    → Answers page pod first until
    → page_agrees page pod first until ≡ true
unfolding count
Answers-page_agrees page pod first until a =
    rw
      (
        (eq_iff page.pod_id pod).1 a.pod_id,
        (eq_iff page.bucket_size "hour").1 a.bucket_size,
        ==_true _ _ a.start_time,
        ==_true _ _ a.end_time,
        ==_true _ _ a.record_count,
        a.unique_pod_count,
        a.records,
      )
      refl

Answers-totals_agree :
    (page : BillingPage) (pod : String) (first until : ℕ)
    → Answers page pod first until
    → totals_agree page.totals page.records ≡ true
Answers-totals_agree page pod first until a =
    rw
      (
        ==_true _ _ a.total_amount,
        ==_true _ _ a.gpu_amount,
        ==_true _ _ a.cpu_amount,
        ==_true _ _ a.disk_amount,
      )
      refl

-- The components of sums are the sum of the totals.
sum_of-components :
    (pod : String) (rs : List BillingRow)
    → All (IsOwn pod) rs
    → sum_of (λ a. a.total_amount) rs
      ≡ sum_of (λ a. a.gpu_amount) rs
        + (sum_of (λ a. a.cpu_amount) rs + sum_of (λ a. a.disk_amount) rs)
unfolding sum_of
sum_of-components pod [] h = refl
sum_of-components pod (r ∷ rs) h = omega (arith, h.0.1, sum_of-components pod rs h.1)

Answers-IsSum :
    (page : BillingPage) (pod : String) (first until : ℕ)
    → Answers page pod first until
    → All (IsOwn pod) page.records
    → IsSum page.totals
Answers-IsSum page pod first until a own = omega (
  arith,
  sum_of-components pod page.records own,
  a.total_amount,
  a.gpu_amount,
  a.cpu_amount,
  a.disk_amount,
)

-- A page that answers the query, whose records are the Pod's, each with its components as its total,
-- and tile the window in the order of their hours, is accepted with all its records, whatever they
-- cost.
pub exact_hours_complete :
    (page : BillingPage) (pod : String) (first until : ℕ)
    → Answers page pod first until
    → All (IsOwn pod) page.records
    → Tiles until first (sort_rows page.records)
    → exact_hours page pod first until ≡ ok (some (sort_rows page.records))
unfolding exact_hours check_page check_rows
exact_hours_complete page pod first until answers own t =
    let some_row : no_rows page.records ≡ false = ap no_rows answers.records in
    rw
      (
        Answers-page_agrees page pod first until answers,
        billing_amounts-of_sum page.totals (Answers-IsSum page pod first until answers own),
        parse_rows-of_own pod page.records own,
        Answers-totals_agree page pod first until answers,
        some_row,
      )
      (complete_rows-scanned first until (sort_rows page.records) t)
