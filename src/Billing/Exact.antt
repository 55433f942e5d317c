-- ===== src/Billing/Exact.antt =====
-- What the rows of `_exact_hours` are.
use kestrel_cloud_runpod.Prelude.{
  ℕ, ◌+◌, ◌≡◌, ◌≤◌, refl, sym, ap, ◌∙◌, subst, String, some, List, [], ◌∷◌, Bool, true, false, All,
  inl, inr, arith, Bool-cases, ◌==◌, str_eq, str_eq_sound,
}
use kestrel_cloud_runpod.Capacity.Errors.{Result, ok, raise}
use kestrel_cloud_runpod.Billing.{
  Amounts, BillingRow, BillingPage, billing_amounts, sum_of, add_row, check_page, parse_rows,
  sort_rows, scan_hours, page_agrees, totals_agree, no_rows, complete_rows, check_rows, exact_hours,
}
use kestrel_cloud_runpod.Billing.Tiling.{Tiles, scan-Tiles, sum_of-sort_rows, sort_rows-All}

-- The components are the total.
abbrev pub IsSum : Amounts → Type 0
IsSum a = a.total_amount ≡ a.gpu_amount + (a.cpu_amount + a.disk_amount)

-- A row of the Pod whose components are its total.
abbrev pub IsOwn : String → BillingRow → Type 0
IsOwn pod r = (r.pod_id ≡ pod) × IsSum r.amounts

billing_amounts-IsSum : (a : Amounts) {b : Amounts} → billing_amounts a ≡ ok b → (a ≡ b) × IsSum a
unfolding billing_amounts
billing_amounts-IsSum a h =
    elim (Bool-cases (a.total_amount == a.gpu_amount + (a.cpu_amount + a.disk_amount))) [
      | inl y ↦ (cc (rw y at h), ground arith)
      | inr n ↦ cc (rw n at h)
    ]

-- What `parse_rows` returns is what it was given.
record Parsed (pod : String) (rs rows : List BillingRow) : Type 0 where
  pub same : rs ≡ rows
  pub own : All (IsOwn pod) rs

add_row-Parsed :
    (pod : String) (r : BillingRow) (rs : List BillingRow) (a : Result Amounts)
    (rest : Result (List BillingRow)) {rows : List BillingRow}
    → r.pod_id ≡ pod
    → ((b : Amounts) → a ≡ ok b → IsSum r.amounts)
    → ((more : List BillingRow) → rest ≡ ok more → Parsed pod rs more)
    → add_row r a rest ≡ ok rows
    → Parsed pod (r ∷ rs) rows
unfolding add_row
add_row-Parsed pod r rs (raise e) rest p x y h = cc
add_row-Parsed pod r rs (ok a) (raise e) p x y h = cc
add_row-Parsed pod r rs (ok a) (ok more) {rows} p x y h =
    let tail : Parsed pod rs more = y more refl in
    let whole : r ∷ more ≡ rows = cc in
    record { same = ap (λ ls. r ∷ ls) tail.same ∙ whole; own = ((p, x a refl), tail.own) }

parse_rows-Parsed :
    (pod : String) (rs : List BillingRow) {rows : List BillingRow}
    → parse_rows pod rs ≡ ok rows
    → Parsed pod rs rows
unfolding parse_rows
parse_rows-Parsed pod [] h = record { same = cc; own = tt }
parse_rows-Parsed pod (r ∷ rs) h = elim (Bool-cases (str_eq r.pod_id pod)) [
  | inr n ↦ cc (rw n at h)
  | inl y ↦
      add_row-Parsed pod r rs (billing_amounts r.amounts) (parse_rows pod rs)
        (str_eq_sound r.pod_id pod y) (λ b e. (billing_amounts-IsSum r.amounts e).1)
        (λ more e. parse_rows-Parsed pod rs e) (rw y at h)
]

-- What the rows of `_exact_hours` are: the records of the page in the order of their hours, which are
-- exactly the hours of the window, and the Pod's own, with the total of the page.
pub record Exact (page : BillingPage) (pod : String) (first until : ℕ) (rows : List BillingRow)
    : Type 0 where
  pub sorted : rows ≡ sort_rows page.records
  pub tiles : Tiles until first rows
  pub own : All (IsOwn pod) rows
  pub total : sum_of (λ a. a.total_amount) rows ≡ page.totals.total_amount
  pub totals : IsSum page.totals

-- What a scan that is complete returns.
complete_rows-Tiles :
    (first until : ℕ) (b : Bool) (rs : List BillingRow) (r : Result Bool) {rows : List BillingRow}
    → first ≤ until
    → scan_hours first until first b rs ≡ r
    → complete_rows rs r ≡ ok (some rows)
    → (rs ≡ rows) × Tiles until first rs
unfolding complete_rows
complete_rows-Tiles first until b rs (raise e) c s h = cc
complete_rows-Tiles first until b rs (ok true) c s h = cc
complete_rows-Tiles first until b rs (ok false) c s h = (cc, scan-Tiles first until first b rs c s)

check_rows-Exact :
    (page : BillingPage) (pod : String) (first until : ℕ) (parsed : Result (List BillingRow))
    {rows : List BillingRow}
    → first ≤ until
    → IsSum page.totals
    → ((rs : List BillingRow) → parsed ≡ ok rs → Parsed pod page.records rs)
    → check_rows page.totals first until parsed ≡ ok (some rows)
    → Exact page pod first until rows
unfolding check_rows
check_rows-Exact page pod first until (raise e) c i p h = cc
check_rows-Exact page pod first until (ok rs) {rows} c i p h =
    elim (Bool-cases (totals_agree page.totals rs)) [
      | inr n ↦ cc (rw n at h)
      | inl y ↦
          let parsed : Parsed pod page.records rs = p rs refl in
          let (e, t) =
            complete_rows-Tiles first until (no_rows rs) (sort_rows rs) _ c refl (rw y at h) in
          let own : All (IsOwn pod) rs = subst (λ ls. All (IsOwn pod) ls) parsed.same parsed.own in
          let total : sum_of (λ a. a.total_amount) rs ≡ page.totals.total_amount = ground arith in
          record {
            sorted = sym e ∙ ap sort_rows (sym parsed.same);
            tiles = subst (Tiles until first) e t;
            own = subst (λ ls. All (IsOwn pod) ls) e (sort_rows-All (IsOwn pod) rs own);
            total =
                ap (sum_of (λ a. a.total_amount)) (sym e)
                ∙ (sum_of-sort_rows (λ a. a.total_amount) rs ∙ total);
            totals = i;
          }
    ]

check_page-Exact :
    (page : BillingPage) (pod : String) (first until : ℕ) (totals : Result Amounts)
    {rows : List BillingRow}
    → first ≤ until
    → ((b : Amounts) → totals ≡ ok b → (page.totals ≡ b) × IsSum page.totals)
    → check_page page pod first until totals ≡ ok (some rows)
    → Exact page pod first until rows
unfolding check_page
check_page-Exact page pod first until (raise e) c t h = cc
check_page-Exact page pod first until (ok b) {rows} c t h =
    let (same, i) = t b refl in
    check_rows-Exact page pod first until (parse_rows pod page.records) c i
      (λ rs e. parse_rows-Parsed pod page.records e)
      (subst (λ x. check_rows x first until (parse_rows pod page.records) ≡ ok (some rows))
        (sym same) h)

-- The rows that `_exact_hours` returns are the records of the page in the order of their hours: they
-- tile the window hour by hour without a gap or an overlap, each is the Pod's and its components are
-- its total, and together they are the total of the page.
pub exact_hours-Exact :
    (page : BillingPage) (pod : String) (first until : ℕ) {rows : List BillingRow}
    → first ≤ until
    → exact_hours page pod first until ≡ ok (some rows)
    → Exact page pod first until rows
unfolding exact_hours
exact_hours-Exact page pod first until c h = elim (Bool-cases (page_agrees page pod first until)) [
  | inr n ↦ cc (rw n at h)
  | inl y ↦
      check_page-Exact page pod first until (billing_amounts page.totals) c
        (λ b e. billing_amounts-IsSum page.totals e) (rw y at h)
]
