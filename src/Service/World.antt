-- ===== src/Service/World.antt =====
-- What the lease service works against: the clock, the provider, the capability store and the
-- database that other processes write to as well. A method of the service is an action on a world.
use kestrel_cloud_runpod.Prelude.{
  ℕ, ◌+◌, String, Option, none, some, List, [], ◌∷◌, Bool, if◌then◌else◌,
}
use kestrel_cloud_runpod.Capacity.States.{CatalogPodWorkloadState}
use kestrel_cloud_runpod.Capacity.Evidence.{PodBillingReceipt, PodRealizedPlacement}
use kestrel_cloud_runpod.Capacity.Lease.{TrainingPodLease, PodCapacitySpec}
use kestrel_cloud_runpod.Capacity.Errors.{Error, manager, Result, ok, raise}
use kestrel_cloud_runpod.Repository.Columns.{Change}
use kestrel_cloud_runpod.Repository.Table
use kestrel_cloud_runpod.Repository.Table.{Table}

-- `TrainingPodObservation`, by its tests.
pub record Observation : Type 0 where
  pub is_running : Bool
  pub is_stopped : Bool
  pub is_failed : Bool
  pub backend_base_url : Option String

-- `CreatedTrainingPod`
pub record CreatedPod : Type 0 where
  pub provider_pod_id : String
  pub realized_placement : Option PodRealizedPlacement

-- `CatalogAttemptCapability`, without the bearer token.
pub record Capability : Type 0 where
  pub secret_id : String
  pub token_sha256 : String
  pub expires_at : ℕ

-- `CatalogPodWorkloadObservation`
pub record WorkloadObservation : Type 0 where
  pub attempt_id : String
  pub request_sha256 : Option String
  pub state : CatalogPodWorkloadState
  pub error_type : Option String
  pub result_available : Bool
  pub result_sha256 : Option String
  pub receipt_sha256 : Option String
  pub acknowledgement_sha256 : Option String

-- What the service reads of a result: the digests of its receipt, if it has one.
pub record ResultPayload : Type 0 where
  pub receipt : Option (Option String × Option String)

-- What the service reads of an acknowledgement, and the digest of its canonical JSON.
pub record Acknowledgement : Type 0 where
  pub attempt_id : Option String
  pub request_sha256 : Option String
  pub result_sha256 : Option String
  pub receipt_sha256 : Option String
  pub acknowledgement_sha256 : Option String
  pub payload_sha256 : String

-- A call that leaves the process.
pub data Call : Type 0 where
  observe start stop terminate final_billing : String → Call
  create find_by_name find_exact : String → Call
  health revoke load_capability submit status result acknowledge recover_handoff cancel :
      String → Call
  observe_status : String → Call
  sleep : Call

-- The clocks, `TrainingPodCapacityProvider`, `CatalogAttemptCapabilityStore` and the transport. The
-- first argument of each is the number of answers that the world gave before: what it answers, and
-- whether the awaiting task is cancelled, may differ from call to call.
pub record Environment : Type 0 where
  pub clock : ℕ → ℕ
  pub utc_now : ℕ → ℕ
  pub observe : ℕ → String → Result Observation
  pub start : ℕ → String → Result (Unit {0})
  pub create : ℕ → TrainingPodLease → Result CreatedPod
  pub find_by_name : ℕ → String → Result (Option String)
  pub find_exact : ℕ → String → PodCapacitySpec → Result (Option CreatedPod)
  pub stop : ℕ → String → Result Bool
  pub terminate : ℕ → String → Result Bool
  pub final_billing : ℕ → TrainingPodLease → ℕ → Result (Option PodBillingReceipt)
  pub revoke : ℕ → String → Result (Unit {0})
  pub health : ℕ → String → Result (Unit {0})
  pub sleep : ℕ → Result (Unit {0})
  pub load_or_create : ℕ → String → ℕ → Result Capability
  pub load_capability : ℕ → String → Result (Option Capability)
  pub submit : ℕ → String → Result WorkloadObservation
  pub status : ℕ → String → Result WorkloadObservation
  pub result : ℕ → String → Result ResultPayload
  pub acknowledge : ℕ → String → Acknowledgement → Result WorkloadObservation
  pub recover_handoff : ℕ → String → Acknowledgement → Result WorkloadObservation
  pub cancel : ℕ → String → Result (Unit {0})
  pub workload_status_observer : Option (ℕ → TrainingPodLease → Result (Option String))
  pub sha256 : String → String
  pub profile_ids : List String
  pub fallback_token : String → String → String
  pub has_capability_store : Bool
  pub has_workload_transport : Bool
  pub orphan_timeout_seconds : ℕ
  -- How many rounds the model gives to a retry loop.
  pub fuel : ℕ

-- `peers` is what other tasks and processes commit before each of the next transactions.
pub record World : Type 0 where
  pub rows : Table
  pub peers : List (Table → Table)
  pub ticks : ℕ
  pub calls : List Call

abbrev pub Action : Type 0 → Type 0
Action A = World → Result A × World

unfoldable pub pure : {A : Type 0} → A → Action A
pure a w = (ok a, w)

unfoldable pub throw : {A : Type 0} → Error → Action A
throw e w = (raise e, w)

abbrev pub continue : {A B : Type 0} → Result A × World → (A → Action B) → Result B × World
continue (ok a, w) f = f a w
continue (raise e, w) f = (raise e, w)

infixl 5 ◌>>=◌ ◌>>◌
unfoldable pub ◌>>=◌ : {A B : Type 0} → Action A → (A → Action B) → Action B
◌>>=◌ m f w = continue (m w) f

abbrev pub ◌>>◌ : {A B : Type 0} → Action A → Action B → Action B
m >> k = m >>= λ _. k

abbrev pub recover :
    {A : Type 0} → Result A × World → (Error → Bool) → (Error → Action A) → Result A × World
recover (ok a, w) p h = (ok a, w)
recover (raise e, w) p h = if p e then h e w else (raise e, w)

-- `try: m` with one `except` clause for the errors that `p` describes.
unfoldable pub try_except : {A : Type 0} → Action A → (Error → Bool) → (Error → Action A) → Action A
try_except m p h w = recover (m w) p h

abbrev pub branch :
    {A B : Type 0}
    → Result A × World
    → (A → Action B)
    → (Error → Bool)
    → (Error → Action B)
    → Result B × World
branch (ok a, w) f p h = f a w
branch (raise e, w) f p h = if p e then h e w else (raise e, w)

-- `try: a = m` with one `except` clause that leaves the block, and `f a` behind it.
unfoldable pub try_else :
    {A B : Type 0} → Action A → (A → Action B) → (Error → Bool) → (Error → Action B) → Action B
try_else m f p h w = branch (m w) f p h

-- The rows at the next transaction, and the peers after it.
abbrev pub arrive : List (Table → Table) → Table → Table
arrive [] rows = rows
arrive (peer ∷ peers) rows = peer rows

abbrev pub later : List (Table → Table) → List (Table → Table)
later [] = []
later (peer ∷ peers) = peers

-- A test between two actions.
infix 1 when◌run◌otherwise◌
unfoldable pub when◌run◌otherwise◌ : {A : Type 0} → Bool → Action A → Action A → Action A
when b run m otherwise n = if b then m else n

-- Opens the building blocks of actions, for a run.
unfoldable pub actions : Unit {0}
unfolding pure throw ◌>>=◌ try_except try_else when◌run◌otherwise◌
actions = tt

-- One transaction, after what the peers committed in the meantime.
unfoldable pub transact : {A : Type 0} → (Table → Result A × Table) → Action A
transact f w =
    let (r, rows) = f (arrive w.peers w.rows) in
    (r, record w { rows = rows; peers = later w.peers; ticks = w.ticks + 1 })

-- One answer of the environment, with the call on record.
unfoldable pub ask : {A : Type 0} → Call → (ℕ → Result A) → Action A
ask call answer w = (answer w.ticks, record w { ticks = w.ticks + 1; calls = call ∷ w.calls })

module _ (env : Environment) where
  -- `_now`
  unfoldable pub now : Action ℕ
  now w = (ok (env.clock w.ticks), record w { ticks = w.ticks + 1 })

  -- `repository.compare_and_set`
  unfoldable pub compare_and_set : TrainingPodLease → List Change → Action TrainingPodLease
  compare_and_set lease changes w =
      transact (Table.compare_and_set (env.utc_now w.ticks) lease changes) w

-- `repository.get`
unfoldable pub get : String → Action (Option TrainingPodLease)
get token = transact (λ rows. (Table.get token rows, rows))

unfoldable pub present_or_raise : Option TrainingPodLease → Action TrainingPodLease
present_or_raise none = throw manager
present_or_raise (some lease) = pure lease

-- `_required`
unfoldable pub required : String → Action TrainingPodLease
required token = do found ← get token; present_or_raise found
