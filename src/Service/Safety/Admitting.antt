-- ===== src/Service/Safety/Admitting.antt =====
-- Admission of a catalog capacity revives no released row.
use kestrel_cloud_runpod.Prelude.{String, Option, none, some, Bool}
use kestrel_cloud_runpod.Capacity.Lease.{
  TrainingPodLease, PodCapacitySpec, CatalogPodCapacityRequest,
}
use kestrel_cloud_runpod.Repository.Table.{Table}
use kestrel_cloud_runpod.Repository.Evolution.{Grows, Seen, Seen-Grows}
use kestrel_cloud_runpod.Service.World.{Environment, Action, get, ◌>>=◌}
use kestrel_cloud_runpod.Service.Settlement.{or_raise}
use kestrel_cloud_runpod.Service.Acquire.{profile}
use kestrel_cloud_runpod.Service.Admission.{
  owner_bound, find_catalog_capacity, get_catalog_capacity, load_capability, replay, admit,
  replay_or_admit, acquire_catalog, poll_catalog_readiness,
}
use kestrel_cloud_runpod.Service.Safety.{
  Safely, Found, Safely-throw, Safely-pure, Safely-bind, Safely-get, Anything,
}
use kestrel_cloud_runpod.Service.Safety.Transitions.{Safely-pure-Seen}
use kestrel_cloud_runpod.Service.Safety.Settlement.{Safely-then, capacity_spec-Safely}
use kestrel_cloud_runpod.Service.Safety.Mutations.{Safely-refuse, heartbeat-Safely}
use kestrel_cloud_runpod.Service.Safety.Acquiring.{safe}
use kestrel_cloud_runpod.Service.Safety.Readying.{observe_readiness-Safely, acquire_reserved-Safely}

owner_bound-Safely :
    (owner workload : String) (o : Option TrainingPodLease) {base : Table}
    → Found o base
    → Safely base Found (owner_bound owner workload o)
unfolding owner_bound
owner_bound-Safely owner workload none s = Safely-pure none (λ _ _. tt)
owner_bound-Safely owner workload (some l) {base} s =
    Safely-then _ _ (capacity_spec-Safely l) (λ spec rows g. Safely-refuse _ _ _ (λ _ rows' g'.
      Safely-pure (some l) (λ last g''.
        Seen-Grows l rows' last g'' (Seen-Grows l rows rows' g' (Seen-Grows l base rows g s)))))

or_raise-Found :
    (o : Option TrainingPodLease) {base : Table} → Found o base → Safely base Seen (or_raise o)
unfolding or_raise
or_raise-Found none s = Safely-throw _
or_raise-Found (some l) s = Safely-pure-Seen l s

pub get_catalog_capacity-Safely :
    (capacity owner workload : String) {base : Table}
    → Safely base Seen (get_catalog_capacity capacity owner workload)
unfolding get_catalog_capacity find_catalog_capacity
get_catalog_capacity-Safely capacity owner workload =
    Safely-bind _ _
      (Safely-bind _ _ (Safely-get capacity) (λ o rows g s. owner_bound-Safely owner workload o s))
      (λ o rows g s. or_raise-Found o s)

pub ruleset admitted = (safe, Safely-refuse, heartbeat-Safely, get_catalog_capacity-Safely)

module _ (env : Environment) where
  pub load_capability-Safely :
      (spec : PodCapacitySpec) {base : Table} → Safely base Anything (load_capability env spec)
  unfolding load_capability
  load_capability-Safely spec = search admitted depth 20

  replay_or_admit-Safely :
      (r : CatalogPodCapacityRequest) (sha fingerprint : String) (b : Bool)
      (o : Option TrainingPodLease) {base : Table}
      → Safely base Seen (replay_or_admit env r sha fingerprint b o)
  unfolding replay_or_admit replay admit
  replay_or_admit-Safely r sha fingerprint b none =
      search (admitted, acquire_reserved-Safely) depth 30
  replay_or_admit-Safely r sha fingerprint b (some l) = search admitted depth 20

  pub acquire_catalog-Safely :
      (r : CatalogPodCapacityRequest) (sha fingerprint : String) (b : Bool) {base : Table}
      → Safely base Seen (acquire_catalog env r sha fingerprint b)
  unfolding acquire_catalog
  acquire_catalog-Safely r sha fingerprint b =
      search (admitted, Safely-reading, replay_or_admit-Safely) depth 12
    where
      Safely-reading :
          {base : Table} (f : Option TrainingPodLease → Action TrainingPodLease)
          → ((o : Option TrainingPodLease) (rows : Table)
              → Grows base rows
              → Safely rows Seen (f o))
          → Safely base Seen (get r.capacity_id >>= f)
      Safely-reading f k = Safely-bind _ _ (Safely-get _) (λ o rows g _. k o rows g)

  pub poll_catalog_readiness-Safely :
      (capacity owner workload : String) {base : Table}
      → Safely base Seen (poll_catalog_readiness env capacity owner workload)
  unfolding poll_catalog_readiness profile
  poll_catalog_readiness-Safely capacity owner workload =
      search (admitted, observe_readiness-Safely) depth 20
