-- ===== src/Billing/Hours.antt =====
-- The whole hours of `billing_hour_bounds`.
use kestrel_cloud_runpod.Prelude.{
  ℕ, ◌+◌, ◌%◌, ◌≡◌, ◌⊎◌, ◌≤◌, ◌<◌, arith, inl, inr, Bool-cases, leb, ◌==◌, if◌then◌else◌,
}
use kestrel_cloud_runpod.Capacity.Errors.{ok, raise, value_error}
use kestrel_cloud_runpod.Billing.{hour, whole_hour, billing_hour_bounds}

pub whole_hour_le : (t : ℕ) → whole_hour t ≤ t
whole_hour_le t = omega arith

pub lt_whole_hour : (t : ℕ) → t < whole_hour t + hour
lt_whole_hour t = omega arith

pub whole_hour_whole : (t : ℕ) → whole_hour t % hour ≡ 0
whole_hour_whole t = omega arith

-- A window of whole hours that covers the interval from `s` to `e`.
pub record Window (s e first until : ℕ) : Type 0 where
  pub first_whole : first % hour ≡ 0
  pub until_whole : until % hour ≡ 0
  pub covers_start : first ≤ s
  pub covers_end : e ≤ until

until_hour : (e : ℕ) → ℕ
until_hour e = if e == whole_hour e then whole_hour e else whole_hour e + hour

until_hour_whole : (e : ℕ) → until_hour e % hour ≡ 0
unfolding until_hour
until_hour_whole e = elim (Bool-cases (e == whole_hour e)) [
  | inl y ↦ rw y (whole_hour_whole e)
  | inr n ↦ rw n (omega arith)
]

until_hour_covers : (e : ℕ) → e ≤ until_hour e
unfolding until_hour
until_hour_covers e = elim (Bool-cases (e == whole_hour e)) [
  | inl y ↦ rw y (ground arith)
  | inr n ↦ rw n (omega arith)
]

until_hour_least : (e b : ℕ) → b % hour ≡ 0 → e ≤ b → until_hour e ≤ b
unfolding until_hour
until_hour_least e b w c = elim (Bool-cases (e == whole_hour e)) [
  | inl y ↦ rw y (omega (arith, whole_hour_le e, c))
  | inr n ↦ rw n (ground arith)
]

-- The bounds of a positive interval are whole hours that cover it, and no smaller window of whole
-- hours does; an interval that is not positive is refused.
pub billing_hour_bounds_least :
    (s e : ℕ)
    → ((e ≤ s) × (billing_hour_bounds s e ≡ raise value_error))
      ⊎ ((s < e)
          × (first : ℕ) × (until : ℕ) × (billing_hour_bounds s e ≡ ok (first, until))
          × Window s e first until
          × ((first' until' : ℕ) → Window s e first' until' → (first' ≤ first) × (until ≤ until')))
unfolding billing_hour_bounds until_hour
billing_hour_bounds_least s e = elim (Bool-cases (leb e s)) [
  | inl y ↦ inl (ground arith, rw y)
  | inr n ↦ inr (
    ground arith,
    whole_hour s,
    until_hour e,
    rw n,
    record {
      first_whole = whole_hour_whole s;
      until_whole = until_hour_whole e;
      covers_start = whole_hour_le s;
      covers_end = until_hour_covers e;
    },
    λ first' until' w. (
      omega (arith, w.first_whole, w.covers_start),
      until_hour_least e until' w.until_whole w.covers_end,
    ),
  )
]
