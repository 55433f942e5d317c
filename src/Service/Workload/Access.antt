-- ===== src/Service/Workload/Access.antt =====
-- Whose workload it is: a capacity answers to its owner and workload only.
use kestrel_cloud_runpod.Prelude.{◌≡◌, refl, ap, String, Option, some, true, not, ◌||◌, str_eq}
use kestrel_cloud_runpod.Capacity.Evidence.{CatalogWorkerEvidence}
use kestrel_cloud_runpod.Capacity.Lease.{TrainingPodLease, PodCapacitySpec}
use kestrel_cloud_runpod.Capacity.Errors.{Result, ok, raise, conflict}
use kestrel_cloud_runpod.Repository.Table
use kestrel_cloud_runpod.Service.World.{
  Environment, World, Action, Acknowledgement, ◌>>=◌, continue, arrive, transact, get, pure, throw,
}
use kestrel_cloud_runpod.Service.Settlement.{or_raise, capacity_spec}
use kestrel_cloud_runpod.Service.Mutations.{refuse}
use kestrel_cloud_runpod.Service.Admission.{
  owner_bound, find_catalog_capacity, get_catalog_capacity, poll_catalog_readiness,
}
use kestrel_cloud_runpod.Service.Workload.{
  submission_lease, submit_catalog_workload, observe_catalog_workload, retrieve_catalog_result,
  record_catalog_worker_evidence,
}
use kestrel_cloud_runpod.Service.Workload.Handoff.{
  HandoffRecovery, release_catalog_result, acknowledge_catalog_result, recover_catalog_result,
  cancel_catalog_workload,
}

-- A conflict was raised, no call was made, and the table is as the other writers left it.
pub record IsRefused {A : Type 0} (w : World) (out : Result A × World) : Type 0 where
  pub result : out.0 ≡ raise conflict
  pub calls : out.1.calls ≡ w.calls
  pub rows : out.1.rows ≡ arrive w.peers w.rows

IsRefused-continue :
    {A B : Type 0} (w : World) (out : Result A × World) (f : A → Action B)
    → IsRefused w out
    → IsRefused w (continue out f)
IsRefused-continue w (ok a, w') f r = cc (r.result)
IsRefused-continue w (raise e, w') f r =
    let same : e ≡ conflict = cc (r.result) in
    record { result = ap raise same; calls = r.calls; rows = r.rows }

-- What begins with a refused action is refused.
IsRefused-bind :
    {A B : Type 0} (w : World) (m : Action A) (f : A → Action B)
    → IsRefused w (m w)
    → IsRefused w ((m >>= f) w)
unfolding ◌>>=◌
IsRefused-bind w m f r = IsRefused-continue w (m w) f r

-- The capacity is on record, as the capacity of another owner or workload.
pub record IsForeign (w : World) (capacity owner workload : String) : Type 0 where
  pub lease : TrainingPodLease
  pub spec : PodCapacitySpec
  pub found : Table.get capacity (arrive w.peers w.rows) ≡ ok (some lease)
  pub spec_of : lease.capacity_spec ≡ some spec
  pub differs :
      (not (str_eq spec.request.owner_id owner) || not (str_eq spec.request.workload_id workload))
      ≡ true

module _ (env : Environment) (w : World) (capacity owner workload : String) where
  get_catalog_capacity-IsRefused :
      IsForeign w capacity owner workload
      → IsRefused w (get_catalog_capacity capacity owner workload w)
  unfolding get_catalog_capacity find_catalog_capacity owner_bound capacity_spec or_raise refuse get
      transact ◌>>=◌ throw pure
  get_catalog_capacity-IsRefused x =
      rw (x.found, x.spec_of, x.differs) (record { result = refl; calls = refl; rows = refl })

  -- A capacity answers to its owner and its workload only: with any other owner or workload, each
  -- operation of the catalog workload ends in a conflict, before it calls the worker, the provider or
  -- the capability store, and without a write.
  pub strangers_are-IsRefused :
      (worker : CatalogWorkerEvidence) (a : Option Acknowledgement) (r : HandoffRecovery)
      (digest : Option String)
      → IsForeign w capacity owner workload
      → IsRefused w (poll_catalog_readiness env capacity owner workload w)
        × IsRefused w (submit_catalog_workload env capacity owner workload w)
        × IsRefused w (observe_catalog_workload env capacity owner workload w)
        × IsRefused w (retrieve_catalog_result env capacity owner workload w)
        × IsRefused w (record_catalog_worker_evidence env capacity owner workload worker w)
        × IsRefused w (acknowledge_catalog_result env capacity owner workload a w)
        × IsRefused w (recover_catalog_result env capacity owner workload r w)
        × IsRefused w (release_catalog_result env capacity owner workload digest w)
        × IsRefused w (cancel_catalog_workload env capacity owner workload w)
  unfolding poll_catalog_readiness submit_catalog_workload submission_lease observe_catalog_workload
      retrieve_catalog_result record_catalog_worker_evidence acknowledge_catalog_result
      recover_catalog_result release_catalog_result cancel_catalog_workload
  strangers_are-IsRefused worker a r digest x =
      let refused = get_catalog_capacity-IsRefused x in
      (
        IsRefused-bind w _ _ refused,
        IsRefused-bind w _ _ (IsRefused-bind w _ _ refused),
        IsRefused-bind w _ _ refused,
        IsRefused-bind w _ _ refused,
        IsRefused-bind w _ _ refused,
        IsRefused-bind w _ _ refused,
        IsRefused-bind w _ _ refused,
        IsRefused-bind w _ _ refused,
        IsRefused-bind w _ _ refused,
      )
