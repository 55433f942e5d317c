-- ===== src/Billing.antt =====
-- The costs of a Pod: `billing.py` and `pod_billing.py`. An instant is a number of microseconds since
-- a whole UTC hour, an amount a number of units of a fixed power of ten.
pub mod Hours
pub mod Tiling
pub mod Exact
pub mod Accepted
pub mod Receipt
use kestrel_cloud_runpod.Prelude.{
  ℕ, ◌+◌, ◌-◌, ◌*◌, ◌/◌, ◌%◌, String, Option, none, some, List, [], ◌∷◌, Bool, true, false, not,
  ◌&&◌, ◌||◌, ltb, leb, ◌==◌, str_eq, is_none, any, map, if◌then◌else◌,
}
use kestrel_cloud_runpod.Capacity.Evidence.{PodBillingReceipt}
use kestrel_cloud_runpod.Capacity.Codec.{receipt_accepted}
use kestrel_cloud_runpod.Capacity.Errors.{Result, ok, raise, manager, value_error}

-- One hour, in microseconds.
abbrev pub hour : ℕ
hour = 3600000000

-- `value.replace(minute=0, second=0, microsecond=0)`
abbrev pub whole_hour : ℕ → ℕ
whole_hour t = t - t % hour

unfoldable pub billing_hour_bounds : ℕ → ℕ → Result (ℕ × ℕ)
billing_hour_bounds started_at coverage_until =
    if leb coverage_until started_at
    then raise value_error
    else ok (
      whole_hour started_at,
      (if coverage_until == whole_hour coverage_until
          then whole_hour coverage_until
          else whole_hour coverage_until + hour),
    )

-- The amounts of a record, as `billing_amounts` returns them.
pub record Amounts : Type 0 where
  pub total_amount : ℕ
  pub gpu_amount : ℕ
  pub cpu_amount : ℕ
  pub disk_amount : ℕ

-- `billing_amounts`, on amounts that are numbers: the components are the total.
unfoldable pub billing_amounts : Amounts → Result Amounts
billing_amounts a =
    if a.total_amount == a.gpu_amount + (a.cpu_amount + a.disk_amount) then ok a else raise manager

-- A billing record, its timestamps parsed.
pub record BillingRow : Type 0 where
  pub pod_id : String
  pub start_time : ℕ
  pub end_time : ℕ
  pub amounts : Amounts

-- A page with the fields that `_keys` asks for.
pub record BillingPage : Type 0 where
  pub pod_id : String
  pub bucket_size : String
  pub start_time : ℕ
  pub end_time : ℕ
  pub record_count : ℕ
  pub unique_pod_count : ℕ
  pub totals : Amounts
  pub records : List BillingRow

unfoldable pub count : List BillingRow → ℕ
count [] = 0
count (r ∷ rs) = 1 + count rs

-- `exact_decimal_sum` of one amount of the rows.
unfoldable pub sum_of : (Amounts → ℕ) → List BillingRow → ℕ
sum_of f [] = 0
sum_of f (r ∷ rs) = f r.amounts + sum_of f rs

-- A parsed row, before the rows behind it.
unfoldable pub add_row :
    BillingRow → Result Amounts → Result (List BillingRow) → Result (List BillingRow)
add_row r (raise e) rest = raise e
add_row r (ok a) (raise e) = raise e
add_row r (ok a) (ok rows) = ok (r ∷ rows)

-- A row that is another Pod's, or whose components are not its total, is refused.
unfoldable pub parse_rows : String → List BillingRow → Result (List BillingRow)
unfolding billing_amounts add_row
parse_rows pod [] = ok []
parse_rows pod (r ∷ rs) =
    let rest = parse_rows pod rs in
    if str_eq r.pod_id pod then add_row r (billing_amounts r.amounts) rest else raise manager

-- `sorted(parsed, key=lambda item: item[0])`, which is stable.
unfoldable pub insert : BillingRow → List BillingRow → List BillingRow
insert r [] = r ∷ []
insert r (s ∷ rs) = if leb r.start_time s.start_time then r ∷ s ∷ rs else s ∷ insert r rs

unfoldable pub sort_rows : List BillingRow → List BillingRow
unfolding insert
sort_rows [] = []
sort_rows (r ∷ rs) = insert r (sort_rows rs)

-- The row overlaps the one before it, or escapes the window.
abbrev pub escapes : ℕ → ℕ → ℕ → BillingRow → Bool
escapes first until cursor r =
    ltb r.start_time cursor
    || ltb r.start_time first
    || leb r.end_time r.start_time
    || ltb until r.end_time

-- The loop over the sorted rows: whether hours are missing.
unfoldable pub scan_hours : ℕ → ℕ → ℕ → Bool → List BillingRow → Result Bool
scan_hours first until cursor incomplete [] = ok (incomplete || ltb cursor until)
scan_hours first until cursor incomplete (r ∷ rs) =
    let rest =
      scan_hours first until r.end_time
        (incomplete || (ltb cursor r.start_time || ltb r.end_time (r.start_time + hour))) rs in
    if escapes first until cursor r
    then raise manager
    else if not (r.start_time == whole_hour r.start_time)
    then raise manager
    else if ltb (r.start_time + hour) r.end_time
    then raise manager
    else rest

-- The echo of the query, and the counts of the page.
abbrev pub page_agrees : BillingPage → String → ℕ → ℕ → Bool
page_agrees page pod first until =
    str_eq page.pod_id pod
    && str_eq page.bucket_size "hour"
    && (page.start_time == first)
    && (page.end_time == until)
    && (page.record_count == count page.records)
    && (page.unique_pod_count == elim page.records [ [] ↦ 0 | r ∷ rs ↦ 1 ])

abbrev pub totals_agree : Amounts → List BillingRow → Bool
totals_agree t rows =
    (sum_of (λ a. a.total_amount) rows == t.total_amount)
    && (sum_of (λ a. a.gpu_amount) rows == t.gpu_amount)
    && (sum_of (λ a. a.cpu_amount) rows == t.cpu_amount)
    && (sum_of (λ a. a.disk_amount) rows == t.disk_amount)

abbrev pub no_rows : List BillingRow → Bool
no_rows [] = true
no_rows (r ∷ rs) = false

-- The rows, unless hours are missing.
unfoldable pub complete_rows : List BillingRow → Result Bool → Result (Option (List BillingRow))
complete_rows rows (raise e) = raise e
complete_rows rows (ok true) = ok none
complete_rows rows (ok false) = ok (some rows)

unfoldable pub check_rows :
    Amounts → ℕ → ℕ → Result (List BillingRow) → Result (Option (List BillingRow))
unfolding sum_of sort_rows scan_hours complete_rows
check_rows totals first until (raise e) = raise e
check_rows totals first until (ok rows) =
    if totals_agree totals rows
    then complete_rows (sort_rows rows)
        (scan_hours first until first (no_rows rows) (sort_rows rows))
    else raise manager

-- What follows the totals of the page.
unfoldable pub check_page :
    BillingPage → String → ℕ → ℕ → Result Amounts → Result (Option (List BillingRow))
unfolding parse_rows check_rows
check_page page pod first until (raise e) = raise e
check_page page pod first until (ok totals) =
    check_rows totals first until (parse_rows pod page.records)

-- `_exact_hours`: none where hours are missing.
unfoldable pub exact_hours : BillingPage → String → ℕ → ℕ → Result (Option (List BillingRow))
unfolding count billing_amounts check_page
exact_hours page pod first until =
    if page_agrees page pod first until
    then check_page page pod first until (billing_amounts page.totals)
    else raise manager

-- The receipt, unless hours are missing. `billing_id` is the digest of the identity.
unfoldable pub receipt_of :
    (List BillingRow → String)
    → String
    → ℕ
    → ℕ
    → ℕ
    → ℕ
    → Result (Option (List BillingRow))
    → Result (Option PodBillingReceipt)
unfolding sum_of receipt_accepted
receipt_of billing_id pod first until rate reconciled_at (raise e) = raise e
receipt_of billing_id pod first until rate reconciled_at (ok none) = ok none
receipt_of billing_id pod first until rate reconciled_at (ok (some rows)) =
    let receipt : PodBillingReceipt = record {
      provider_billing_id = billing_id rows;
      provider_pod_id = some pod;
      billed_from = first;
      billed_until = until;
      billed_seconds = (until - first) / 1000000;
      hourly_price_usd = rate;
      actual_cost_usd = sum_of (λ a. a.total_amount) rows;
      reconciled_at = reconciled_at;
    } in
    if receipt_accepted receipt then ok (some receipt) else raise value_error

unfoldable pub receipt_from :
    (List BillingRow → String)
    → String
    → ℕ
    → ℕ
    → ℕ
    → ℕ
    → Result BillingPage
    → Result (Option PodBillingReceipt)
unfolding exact_hours receipt_of
receipt_from billing_id pod first until rate reconciled_at (raise e) = raise e
receipt_from billing_id pod first until rate reconciled_at (ok page) =
    receipt_of billing_id pod first until rate reconciled_at (exact_hours page pod first until)

-- The client is called once the window has closed.
unfoldable pub read_window :
    (List BillingRow → String)
    → (ℕ → ℕ → Result BillingPage)
    → String
    → ℕ
    → ℕ
    → ℕ
    → Result (ℕ × ℕ)
    → Result (Option PodBillingReceipt)
unfolding receipt_from
read_window billing_id client pod rate now reconciled_at (raise e) = raise e
read_window billing_id client pod rate now reconciled_at (ok (first, until)) =
    if ltb now until
    then ok none
    else receipt_from billing_id pod first until rate reconciled_at (client first until)

-- `read_exact_pod_billing`, with the two readings of the clock.
unfoldable pub read_exact_pod_billing :
    (List BillingRow → String)
    → (ℕ → ℕ → Result BillingPage)
    → String
    → ℕ
    → ℕ
    → ℕ
    → ℕ
    → ℕ
    → Result (Option PodBillingReceipt)
unfolding billing_hour_bounds read_window
read_exact_pod_billing billing_id client pod created_at terminated_at rate now reconciled_at =
    read_window billing_id client pod rate now reconciled_at
      (billing_hour_bounds created_at terminated_at)
