-- ===== src/Placement/Choice.antt =====
-- `select_gpu` chooses a compatible offer, and no candidate is better.
use kestrel_cloud_runpod.Prelude.{
  ℕ, ◌≡◌, ◌≤◌, ◌<◌, refl, sym, subst, List, [], ◌∷◌, Bool, true, false, ◌⊎◌, inl, inr, arith, All,
  Bool-cases, ◌==◌,
}
use mathlib.Core.List.{Memᴰ}
use kestrel_cloud_runpod.Capacity.Errors.{ok, raise, manager}
use kestrel_cloud_runpod.Placement.{
  GpuOffer, PlacementRequirements, rank_of, price_of, precedes, insert_offer, sort_offers,
  first_offer, members, filter, compatible_offers, exact_offers, candidates, is_compatible,
  decision, select_gpu, is_pod,
}

-- No worse: more available, or as available and cheaper, or as cheap too and no larger.
pub record AsGood (r : PlacementRequirements) (a b : GpuOffer) : Type 0 where
  pub order :
      (rank_of b.availability < rank_of a.availability)
      ⊎ ((rank_of a.availability ≡ rank_of b.availability)
          × ((price_of r a < price_of r b)
              ⊎ ((price_of r a ≡ price_of r b) × (a.memory_gb ≤ b.memory_gb))))

AsGood-refl : (r : PlacementRequirements) (a : GpuOffer) → AsGood r a a
AsGood-refl r a = record { order = inr (refl, inr (refl, omega arith)) }

AsGood-trans :
    (r : PlacementRequirements) (a b c : GpuOffer) → AsGood r a b → AsGood r b c → AsGood r a c
AsGood-trans r a b c x y = record { order = ground (arith, x.order, y.order) }

precedes-AsGood :
    (r : PlacementRequirements) (a b : GpuOffer) → precedes r a b ≡ true → AsGood r a b
unfolding precedes
precedes-AsGood r a b h = record { order = ground arith }

follows-AsGood :
    (r : PlacementRequirements) (a b : GpuOffer) → precedes r a b ≡ false → AsGood r b a
unfolding precedes
follows-AsGood r a b h = record { order = ground arith }

-- The first offer is as good as every other one.
Heads : PlacementRequirements → List GpuOffer → Type 0
Heads r [] = Unit
Heads r (o ∷ os) = All (AsGood r o) os

All-map :
    (P Q : GpuOffer → Type 0) (os : List GpuOffer)
    → ((o : GpuOffer) → P o → Q o)
    → All P os
    → All Q os
All-map P Q [] f ps = tt
All-map P Q (o ∷ os) f ps = (f o ps.0, All-map P Q os f ps.1)

insert_offer-All :
    (P : GpuOffer → Type 0) (r : PlacementRequirements) (o : GpuOffer) (os : List GpuOffer)
    → P o
    → All P os
    → All P (insert_offer r o os)
unfolding insert_offer
insert_offer-All P r o [] p ps = (p, tt)
insert_offer-All P r o (q ∷ qs) p ps = elim (Bool-cases (precedes r o q)) [
  | inl y ↦ rw y (p, ps)
  | inr n ↦ rw n (ps.0, insert_offer-All P r o qs p ps.1)
]

insert_offer-Heads :
    (r : PlacementRequirements) (o : GpuOffer) (os : List GpuOffer)
    → Heads r os
    → Heads r (insert_offer r o os)
unfolding insert_offer Heads
insert_offer-Heads r o [] h = tt
insert_offer-Heads r o (q ∷ qs) h = elim (Bool-cases (precedes r o q)) [
  | inl y ↦
      let first : AsGood r o q = precedes-AsGood r o q y in
      rw y (first, All-map (AsGood r q) (AsGood r o) qs (λ x g. AsGood-trans r o q x first g) h)
  | inr n ↦ rw n (insert_offer-All (AsGood r q) r o qs (follows-AsGood r o q n) h)
]

sort_offers-Heads : (r : PlacementRequirements) (os : List GpuOffer) → Heads r (sort_offers r os)
unfolding sort_offers Heads
sort_offers-Heads r [] = tt
sort_offers-Heads r (o ∷ os) = insert_offer-Heads r o (sort_offers r os) (sort_offers-Heads r os)

-- What holds of the sorted offers holds of the offers.
insert_offer-All_back :
    (P : GpuOffer → Type 0) (r : PlacementRequirements) (o : GpuOffer) (os : List GpuOffer)
    → All P (insert_offer r o os)
    → P o × All P os
unfolding insert_offer
insert_offer-All_back P r o [] h = (h.0, tt)
insert_offer-All_back P r o (q ∷ qs) h = elim (Bool-cases (precedes r o q)) [
  | inl y ↦ rw y at h
  | inr n ↦
      let shut : P q × All P (insert_offer r o qs) = rw n at h in
      let rest : P o × All P qs = insert_offer-All_back P r o qs shut.1 in
      (rest.0, (shut.0, rest.1))
]

sort_offers-All_back :
    (P : GpuOffer → Type 0) (r : PlacementRequirements) (os : List GpuOffer)
    → All P (sort_offers r os)
    → All P os
unfolding sort_offers
sort_offers-All_back P r [] h = tt
sort_offers-All_back P r (o ∷ os) h =
    let rest : P o × All P (sort_offers r os) = insert_offer-All_back P r o (sort_offers r os) h in
    (rest.0, sort_offers-All_back P r os rest.1)

sort_offers-All :
    (P : GpuOffer → Type 0) (r : PlacementRequirements) (os : List GpuOffer)
    → All P os
    → All P (sort_offers r os)
unfolding sort_offers
sort_offers-All P r [] h = tt
sort_offers-All P r (o ∷ os) h =
    insert_offer-All P r o (sort_offers r os) h.0 (sort_offers-All P r os h.1)

-- The offers that pass a test are offers, and pass it.
filter-All :
    (P : GpuOffer → Type 0) (p : GpuOffer → Bool) (os : List GpuOffer)
    → All P os
    → All (λ o. P o × (p o ≡ true)) (filter p os)
unfolding filter
filter-All P p [] h = tt
filter-All P p (o ∷ os) h = elim (Bool-cases (p o)) [
  | inl y ↦ rw y ((h.0, y), filter-All P p os h.1)
  | inr n ↦ rw n (filter-All P p os h.1)
]

All-self : (os : List GpuOffer) → All (λ o. Memᴰ o os) os
All-self [] = tt
All-self (o ∷ os) = (
  Memᴰ.head refl,
  All-map (λ x. Memᴰ x os) (λ x. Memᴰ x (o ∷ os)) os (λ x m. Memᴰ.tail m) (All-self os),
)

-- A compatible offer of the catalog.
abbrev pub Compatible : List GpuOffer → PlacementRequirements → GpuOffer → Type 0
Compatible offers r o = Memᴰ o offers × (is_compatible o r ≡ true)

exact_offers-All :
    (P : GpuOffer → Type 0) (catalog : List GpuOffer) (b : Bool) (os : List GpuOffer)
    → All P os
    → All P (exact_offers catalog b os)
unfolding exact_offers
exact_offers-All P catalog true os h = h
exact_offers-All P catalog false os h =
    All-map (λ o. P o × ((members o.pool catalog == 1) ≡ true)) P
      (filter (λ o. members o.pool catalog == 1) os) (λ o m. m.0)
      (filter-All P (λ o. members o.pool catalog == 1) os h)

candidates-All :
    (offers : List GpuOffer) (r : PlacementRequirements)
    → All (Compatible offers r) (candidates offers r)
unfolding candidates compatible_offers
candidates-All offers r =
    exact_offers-All (Compatible offers r) offers (is_pod r.product) (compatible_offers offers r)
      (filter-All (λ o. Memᴰ o offers) (λ o. is_compatible o r) offers (All-self offers))

All-nothing : (os : List GpuOffer) → All (λ o. ⊥) os → os ≡ []
All-nothing [] h = refl
All-nothing (o ∷ os) h = absurd h.0

-- `select_gpu` raises just when no offer may be chosen. Otherwise it decides on an offer of the catalog
-- that is compatible, and no offer that may be chosen is better: more available, as available and
-- cheaper, or as cheap too and with less memory.
pub select_gpu_best :
    (offers : List GpuOffer) (r : PlacementRequirements) (observed_at : ℕ)
    → ((candidates offers r ≡ []) × (select_gpu offers r observed_at ≡ raise manager))
      ⊎ ((o : GpuOffer) × (select_gpu offers r observed_at ≡ decision r observed_at (ok o))
          × Compatible offers r o
          × All (AsGood r o) (candidates offers r))
unfolding select_gpu Heads first_offer decision
select_gpu_best offers r observed_at =
    go (candidates offers r) (candidates-All offers r) (sort_offers r (candidates offers r)) refl
      (sort_offers-Heads r (candidates offers r))
  where
    go :
        (cs : List GpuOffer)
        → All (Compatible offers r) cs
        → (sorted : List GpuOffer) → sort_offers r cs ≡ sorted
        → Heads r sorted
        → ((cs ≡ []) × (decision r observed_at (first_offer sorted) ≡ raise manager))
          ⊎ ((o : GpuOffer) × (decision r observed_at (first_offer sorted)
                ≡ decision r observed_at (ok o))
              × Compatible offers r o
              × All (AsGood r o) cs)
    go cs c [] e h = inl (
      All-nothing cs
          (sort_offers-All_back (λ o. ⊥) r cs (subst (λ ls. All (λ o. ⊥) ls) (sym e) tt)),
      refl,
    )
    go cs c (o ∷ os) e h =
        let sorted : All (Compatible offers r) (sort_offers r cs) =
          sort_offers-All (Compatible offers r) r cs c in
        let first : All (Compatible offers r) (o ∷ os) =
          subst (λ ls. All (Compatible offers r) ls) e sorted in
        let good : All (AsGood r o) (o ∷ os) = (AsGood-refl r o, h) in
        inr (
          o,
          refl,
          first.0,
          sort_offers-All_back (AsGood r o) r cs (subst (λ ls. All (AsGood r o) ls) (sym e) good),
        )
