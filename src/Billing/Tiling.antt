-- ===== src/Billing/Tiling.antt =====
-- The rows of `_exact_hours` tile the window hour by hour.
use kestrel_cloud_runpod.Prelude.{
  ℕ, ◌+◌, ◌%◌, ◌≡◌, ◌≤◌, refl, sym, ap, ◌∙◌, subst, List, [], ◌∷◌, Bool, true, false, ◌||◌, All,
  inl, inr, arith, Bool-cases, leb, ltb, ◌==◌,
}
use kestrel_cloud_runpod.Capacity.Errors.{ok}
use kestrel_cloud_runpod.Billing.{
  hour, whole_hour, escapes, Amounts, BillingRow, sum_of, insert, sort_rows, scan_hours,
}

-- Each row begins where the one before it ends, and is one whole hour.
pub data Tiles (until : ℕ) : ℕ → List BillingRow → Type 0 where
  ends : Tiles until until []
  next :
      (r : BillingRow) {rs : List BillingRow}
      → r.end_time ≡ r.start_time + hour
      → r.start_time % hour ≡ 0
      → Tiles until r.end_time rs
      → Tiles until r.start_time (r ∷ rs)

-- What a row that passes the tests of the loop is like.
record Passes (first until cursor : ℕ) (b : Bool) (r : BillingRow) (rs : List BillingRow)
    : Type 0 where
  pub start : cursor ≤ r.start_time
  pub stop : r.end_time ≤ until
  pub within : r.end_time ≤ r.start_time + hour
  pub whole : r.start_time ≡ whole_hour r.start_time
  pub rest :
      scan_hours first until r.end_time
        (b || (ltb cursor r.start_time || ltb r.end_time (r.start_time + hour)))
        rs
      ≡ ok false

scan_step :
    (first until cursor : ℕ) (b : Bool) (r : BillingRow) (rs : List BillingRow)
    → scan_hours first until cursor b (r ∷ rs) ≡ ok false
    → Passes first until cursor b r rs
unfolding scan_hours
scan_step first until cursor b r rs h = elim (Bool-cases (escapes first until cursor r)) [
  | inl y ↦ cc (rw y at h)
  | inr n ↦ elim (Bool-cases (r.start_time == whole_hour r.start_time)) [
    | inr odd ↦ cc (rw (n, odd) at h)
    | inl even ↦ elim (Bool-cases (ltb (r.start_time + hour) r.end_time)) [
      | inl y ↦ cc (rw (n, even, y) at h)
      | inr short ↦ record {
        start = ground arith;
        stop = ground arith;
        within = ground arith;
        whole = ground arith;
        rest = rw (n, even, short) at h;
      }
    ]
  ]
]

scan_missing :
    (first until cursor : ℕ) (rs : List BillingRow)
    → scan_hours first until cursor true rs ≡ ok false
    → ⊥
unfolding scan_hours
scan_missing first until cursor [] h = cc
scan_missing first until cursor (r ∷ rs) h =
    scan_missing first until r.end_time rs (scan_step first until cursor true r rs h).rest

-- A scan that finds nothing missing has found a tiling.
pub scan-Tiles :
    (first until cursor : ℕ) (b : Bool) (rs : List BillingRow)
    → cursor ≤ until
    → scan_hours first until cursor b rs ≡ ok false
    → Tiles until cursor rs
unfolding scan_hours
scan-Tiles first until cursor b [] c h =
    let same : cursor ≡ until = ground arith in subst (λ n. Tiles until n []) (sym same) ends
scan-Tiles first until cursor b (r ∷ rs) c h =
    let p : Passes first until cursor b r rs = scan_step first until cursor b r rs h in
    elim (Bool-cases (b || (ltb cursor r.start_time || ltb r.end_time (r.start_time + hour)))) [
      | inl y ↦ absurd (scan_missing first until r.end_time rs (rw y at p.rest))
      | inr n ↦
          let same : cursor ≡ r.start_time = ground (arith, p.start) in
          let long : r.end_time ≡ r.start_time + hour = ground (arith, p.within) in
          subst (λ n. Tiles until n (r ∷ rs)) (sym same)
            (next r long (omega (arith, p.whole))
              (scan-Tiles first until r.end_time _ rs p.stop p.rest))
    ]

Tiles-le : (until cursor : ℕ) (rs : List BillingRow) → Tiles until cursor rs → cursor ≤ until
Tiles-le until _ _ ends = omega arith
Tiles-le until _ _ (next r {rs} long whole t) =
    let rest : r.end_time ≤ until = Tiles-le until r.end_time rs t in omega (arith, long, rest)

-- A tiling passes the loop.
pub Tiles-scan :
    (first until cursor : ℕ) (rs : List BillingRow)
    → Tiles until cursor rs
    → first ≤ cursor
    → scan_hours first until cursor false rs ≡ ok false
unfolding scan_hours
Tiles-scan first until _ _ ends c = let n : ltb until until ≡ false = ground arith in rw n
Tiles-scan first until _ _ (next r {rs} long whole t) c =
    let stop : r.end_time ≤ until = Tiles-le until r.end_time rs t in
    let inside : escapes first until r.start_time r ≡ false = ground (arith, stop, long, c) in
    let even : (r.start_time == whole_hour r.start_time) ≡ true = ground (arith, whole) in
    let short : ltb (r.start_time + hour) r.end_time ≡ false = ground (arith, long) in
    let full : ltb r.end_time (r.start_time + hour) ≡ false = ground (arith, long) in
    let here : ltb r.start_time r.start_time ≡ false = ground arith in
    rw (inside, even, short, full, here)
      (Tiles-scan first until r.end_time rs t (omega (arith, c, long)))

sum_of-insert :
    (f : Amounts → ℕ) (r : BillingRow) (rs : List BillingRow)
    → sum_of f (insert r rs) ≡ f r.amounts + sum_of f rs
unfolding insert sum_of
sum_of-insert f r [] = refl
sum_of-insert f r (s ∷ rs) = elim (Bool-cases (leb r.start_time s.start_time)) [
  | inl y ↦ rw y refl
  | inr n ↦ rw n (omega (arith, sum_of-insert f r rs))
]

-- Sorting keeps the sums.
pub sum_of-sort_rows :
    (f : Amounts → ℕ) (rs : List BillingRow) → sum_of f (sort_rows rs) ≡ sum_of f rs
unfolding sort_rows sum_of
sum_of-sort_rows f [] = refl
sum_of-sort_rows f (r ∷ rs) =
    sum_of-insert f r (sort_rows rs) ∙ ap (λ n. f r.amounts + n) (sum_of-sort_rows f rs)

insert-All :
    (P : BillingRow → Type 0) (r : BillingRow) (rs : List BillingRow)
    → P r
    → All P rs
    → All P (insert r rs)
unfolding insert
insert-All P r [] p ps = (p, tt)
insert-All P r (s ∷ rs) p ps = elim (Bool-cases (leb r.start_time s.start_time)) [
  | inl y ↦ rw y (p, ps)
  | inr n ↦ rw n (ps.0, insert-All P r rs p ps.1)
]

pub sort_rows-All :
    (P : BillingRow → Type 0) (rs : List BillingRow) → All P rs → All P (sort_rows rs)
unfolding sort_rows
sort_rows-All P [] ps = tt
sort_rows-All P (r ∷ rs) ps = insert-All P r (sort_rows rs) ps.0 (sort_rows-All P rs ps.1)
