-- ===== src/Placement.antt =====
-- GPU placement: `placement.py`, and the offers of `models.py`.
pub mod Choice
use kestrel_cloud_runpod.Prelude.{
  ℕ, ◌+◌, String, Option, none, some, List, [], ◌∷◌, Bool, true, false, not, ◌&&◌, ◌||◌, ltb, leb,
  ◌==◌, str_eq, opt_str_eq, is_none, or_else, any, if◌then◌else◌,
}
use kestrel_cloud_runpod.Capacity.States.{CloudType, secure, community}
use kestrel_cloud_runpod.Capacity.Errors.{Result, ok, raise, manager}
use text.Mathlib.Text.{is_lt}
use Prim.Native.String.{compare}

pub data ComputeProduct : Type 0 where
  pod serverless : ComputeProduct

abbrev pub is_pod : ComputeProduct → Bool
is_pod ComputeProduct.pod = true
is_pod ComputeProduct.serverless = false

pub data Availability : Type 0 where
  unavailable low medium high : Availability

-- A price: a number of units of a fixed power of ten, or one that is negative or not finite.
pub data Price : Type 0 where
  amount : ℕ → Price
  unusable : Price

pub record PlacementRequirements : Type 0 where
  pub product : ComputeProduct
  pub min_vram_gb : ℕ
  pub gpu_count : ℕ
  pub cloud : CloudType
  pub min_cuda_version : Option String
  pub max_cost_per_hr : Option ℕ
  pub allowed_gpu_ids : List String
  pub allowed_gpu_pools : List String
  pub allowed_data_center_ids : List String
  pub minimum_availability : Availability
  pub benchmark_id : Option String

-- What is read of an entry of `dataCenters`: its ID and its availability.
pub record DataCenter : Type 0 where
  pub id : Option String
  pub availability : Option String

pub record GpuOffer : Type 0 where
  pub id : String
  pub name : String
  pub pool : Option String
  pub memory_gb : ℕ
  pub is_secure : Bool
  pub is_community : Bool
  pub secure_price_per_hr : Price
  pub community_price_per_hr : Price
  pub secure_max_count : ℕ
  pub community_max_count : ℕ
  pub availability : Option Availability
  pub data_centers : List DataCenter
  pub availability_min_cuda_version : Option String
  pub serverless_price_per_hr : Option Price

-- `price_for`; a Serverless offer without a price raises.
unfoldable pub price_for : GpuOffer → CloudType → ComputeProduct → Result Price
price_for o cloud ComputeProduct.serverless = elim o.serverless_price_per_hr [
  | none ↦ raise manager
  | some p ↦ ok p
]
price_for o secure ComputeProduct.pod = ok o.secure_price_per_hr
price_for o community ComputeProduct.pod = ok o.community_price_per_hr

unfoldable pub max_count_for : GpuOffer → CloudType → ℕ
max_count_for o secure = o.secure_max_count
max_count_for o community = o.community_max_count

unfoldable pub supports_cloud : GpuOffer → CloudType → Bool
supports_cloud o secure = o.is_secure
supports_cloud o community = o.is_community

-- `_AVAILABILITY_RANK`
unfoldable pub availability_rank : Availability → ℕ
availability_rank Availability.unavailable = 0
availability_rank Availability.low = 1
availability_rank Availability.medium = 2
availability_rank Availability.high = 3

-- `_AVAILABILITY_RANK.get(offer.availability or Availability.NONE, 0)`
unfoldable pub rank_of : Option Availability → ℕ
unfolding availability_rank
rank_of none = 0
rank_of (some a) = availability_rank a

-- `not offer.pool`
abbrev pub has_pool : Option String → Bool
has_pool none = false
has_pool (some p) = not (str_eq p "")

abbrev pub is_listed : List String → Option String → Bool
is_listed [] value = true
is_listed (a ∷ more) value = any (λ x. opt_str_eq (some x) value) (a ∷ more)

abbrev pub is_affordable : Option ℕ → Price → Bool
is_affordable cap Price.unusable = false
is_affordable none (Price.amount p) = true
is_affordable (some cap) (Price.amount p) = leb p cap

abbrev pub has_price : Option ℕ → Result Price → Bool
has_price cap (raise e) = false
has_price cap (ok p) = is_affordable cap p

-- An allowed data centre that is not `NONE`.
abbrev pub is_open : List String → DataCenter → Bool
is_open allowed d =
    any (λ x. opt_str_eq (some x) d.id) allowed && not (opt_str_eq d.availability (some "NONE"))

abbrev pub has_data_center : List String → List DataCenter → Bool
has_data_center [] ds = true
has_data_center (a ∷ more) ds = any (is_open (a ∷ more)) ds

-- `_is_compatible`
unfoldable pub is_compatible : GpuOffer → PlacementRequirements → Bool
unfolding price_for max_count_for supports_cloud availability_rank rank_of
is_compatible o r =
    leb r.min_vram_gb o.memory_gb
    && (is_none r.min_cuda_version || opt_str_eq o.availability_min_cuda_version r.min_cuda_version)
    && supports_cloud o r.cloud
    && (not (is_pod r.product) || leb r.gpu_count (max_count_for o r.cloud))
    && (is_pod r.product || (has_pool o.pool && not (is_none o.serverless_price_per_hr)))
    && is_listed r.allowed_gpu_ids (some o.id)
    && is_listed r.allowed_gpu_pools o.pool
    && has_price r.max_cost_per_hr (price_for o r.cloud r.product)
    && leb (availability_rank r.minimum_availability) (rank_of o.availability)
    && has_data_center r.allowed_data_center_ids o.data_centers

-- `pool_members[pool]`
unfoldable pub members : Option String → List GpuOffer → ℕ
members pool [] = 0
members pool (o ∷ os) =
    let rest = members pool os in
    if has_pool o.pool && opt_str_eq o.pool pool then 1 + rest else rest

unfoldable pub filter : (GpuOffer → Bool) → List GpuOffer → List GpuOffer
filter p [] = []
filter p (o ∷ os) = let rest = filter p os in if p o then o ∷ rest else rest

-- The price of a compatible offer, which is an amount.
abbrev pub amount_of : Result Price → ℕ
amount_of (raise e) = 0
amount_of (ok Price.unusable) = 0
amount_of (ok (Price.amount p)) = p

abbrev pub price_of : PlacementRequirements → GpuOffer → ℕ
price_of r o = amount_of (price_for o r.cloud r.product)

-- The order of the key (availability downwards, price, memory, ID): whether `a` may stand before `b`.
unfoldable pub precedes : PlacementRequirements → GpuOffer → GpuOffer → Bool
unfolding price_for rank_of
precedes r a b =
    if not (rank_of a.availability == rank_of b.availability)
    then ltb (rank_of b.availability) (rank_of a.availability)
    else if not (price_of r a == price_of r b)
    then ltb (price_of r a) (price_of r b)
    else if not (a.memory_gb == b.memory_gb)
    then ltb a.memory_gb b.memory_gb
    else not (is_lt (compare b.id a.id))

-- `list.sort`, which is stable.
unfoldable pub insert_offer : PlacementRequirements → GpuOffer → List GpuOffer → List GpuOffer
unfolding precedes
insert_offer r o [] = o ∷ []
insert_offer r o (p ∷ ps) = if precedes r o p then o ∷ p ∷ ps else p ∷ insert_offer r o ps

unfoldable pub sort_offers : PlacementRequirements → List GpuOffer → List GpuOffer
unfolding insert_offer
sort_offers r [] = []
sort_offers r (o ∷ os) = insert_offer r o (sort_offers r os)

unfoldable pub first_offer : List GpuOffer → Result GpuOffer
first_offer [] = raise manager
first_offer (o ∷ os) = ok o

unfoldable pub compatible_offers : List GpuOffer → PlacementRequirements → List GpuOffer
unfolding filter
compatible_offers offers r = filter (λ o. is_compatible o r) offers

-- Of a Serverless pool only the offers that are the one GPU type of their pool.
unfoldable pub exact_offers : List GpuOffer → Bool → List GpuOffer → List GpuOffer
unfolding members filter
exact_offers catalog true offers = offers
exact_offers catalog false offers = filter (λ o. members o.pool catalog == 1) offers

-- The offers that may be chosen.
unfoldable pub candidates : List GpuOffer → PlacementRequirements → List GpuOffer
unfolding compatible_offers exact_offers
candidates offers r = exact_offers offers (is_pod r.product) (compatible_offers offers r)

pub record PlacementDecision : Type 0 where
  pub gpu_id : String
  pub gpu_pool : Option String
  pub gpu_name : String
  pub memory_gb : ℕ
  pub cloud : CloudType
  pub gpu_count : ℕ
  pub offered_cost_per_hr : ℕ
  pub availability : Option Availability
  pub catalog_observed_at : ℕ
  pub requirements : PlacementRequirements

unfoldable pub decision : PlacementRequirements → ℕ → Result GpuOffer → Result PlacementDecision
decision r observed_at (raise e) = raise e
decision r observed_at (ok o) = ok (record {
  gpu_id = o.id;
  gpu_pool = o.pool;
  gpu_name = o.name;
  memory_gb = o.memory_gb;
  cloud = r.cloud;
  gpu_count = r.gpu_count;
  offered_cost_per_hr = price_of r o;
  availability = o.availability;
  catalog_observed_at = observed_at;
  requirements = r;
})

-- `select_gpu`, at a given time.
unfoldable pub select_gpu : List GpuOffer → PlacementRequirements → ℕ → Result PlacementDecision
unfolding candidates sort_offers first_offer decision
select_gpu offers r observed_at =
    decision r observed_at (first_offer (sort_offers r (candidates offers r)))
