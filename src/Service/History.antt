-- ===== src/Service/History.antt =====
-- Histories: the operations of the service and the reservation of the repository, in any order,
-- beside other writers.
pub mod Exclusive
pub mod Settling
pub mod Claims
pub mod Acquiring
pub mod Working
pub mod Reconciling
use kestrel_cloud_runpod.Prelude.{
  ℕ, ◌≡◌, ◌≤◌, ap, ◌∙◌, subst, String, Option, none, some, List, [], ◌∷◌, Bool, true, false, All,
}
use kestrel_cloud_runpod.Capacity.Evidence.{CatalogWorkerEvidence}
use kestrel_cloud_runpod.Capacity.Lease.{
  TrainingPodLease, TrainingPodRequest, CatalogPodCapacityRequest, is_terminal,
}
use kestrel_cloud_runpod.Capacity.Errors.{Error, Result}
use kestrel_cloud_runpod.Repository.Reserve
use kestrel_cloud_runpod.Repository.Table.{Table, find}
use kestrel_cloud_runpod.Repository.Evolution.{
  Evolves, Grows, Grows-refl, Grows-trans, SameIdentity, Seen,
}
use kestrel_cloud_runpod.Repository.Unique.{IsExclusive, reserve-Grows, reserve-IsExclusive}
use kestrel_cloud_runpod.Service.World.{Environment, World, Action, Acknowledgement, transact}
use kestrel_cloud_runpod.Service.Mutations
use kestrel_cloud_runpod.Service.Family
use kestrel_cloud_runpod.Service.Readiness
use kestrel_cloud_runpod.Service.Admission
use kestrel_cloud_runpod.Service.Workload
use kestrel_cloud_runpod.Service.Workload.Handoff.{HandoffRecovery}
use kestrel_cloud_runpod.Service.Workload.Handoff
use kestrel_cloud_runpod.Service.Reconcile
use kestrel_cloud_runpod.Service.Safety.{
  Rely, IsPeer, Safe, Safely, Anything, arrive-Grows, later-Rely, transact-Safe,
}
use kestrel_cloud_runpod.Service.Safety.Mutations.{
  heartbeat-Safely, record_job-Safely, record_operation_error-Safely, record_status-Safely,
  record_result_retrieved-Safely, request_cancellation-Safely,
}
use kestrel_cloud_runpod.Service.Safety.Family.{release-Safely}
use kestrel_cloud_runpod.Service.Safety.Readying.{acquire_reserved-Safely}
use kestrel_cloud_runpod.Service.Safety.Admitting.{
  acquire_catalog-Safely, poll_catalog_readiness-Safely,
}
use kestrel_cloud_runpod.Service.Safety.Working.{
  submit_catalog_workload-Safely, observe_catalog_workload-Safely, retrieve_catalog_result-Safely,
  record_catalog_worker_evidence-Safely,
}
use kestrel_cloud_runpod.Service.Safety.HandingOff.{
  acknowledge_catalog_result-Safely, recover_catalog_result-Safely, cancel_catalog_workload-Safely,
}
use kestrel_cloud_runpod.Service.Safety.Reconciling.{reconcile-Safely}
use kestrel_cloud_runpod.Service.History.Acquiring.{
  acquire_reserved-Keeps, acquire_catalog-Keeps, poll_catalog_readiness-Keeps,
}
use kestrel_cloud_runpod.Service.History.Working.{
  submit_catalog_workload-Keeps, observe_catalog_workload-Keeps, retrieve_catalog_result-Keeps,
  record_catalog_worker_evidence-Keeps, acknowledge_catalog_result-Keeps,
  recover_catalog_result-Keeps, cancel_catalog_workload-Keeps,
}
use kestrel_cloud_runpod.Service.History.Reconciling.{reconcile-Keeps}
use kestrel_cloud_runpod.Service.History.Exclusive.{IsApart, Apart, Keeps, Keeps-transact}
use kestrel_cloud_runpod.Service.History.Claims.{
  heartbeat-Keeps, record_job-Keeps, record_operation_error-Keeps, record_status-Keeps,
  record_result_retrieved-Keeps, request_cancellation-Keeps, release-Keeps,
}

-- A call of the repository's `reserve`, or of a public method of the service.
pub data Operation : Type 0 where
  reserve : TrainingPodRequest → Operation
  heartbeat record_result_retrieved request_cancellation : String → Operation
  record_job record_status release : String → String → Operation
  record_operation_error : String → Error → Operation
  acquire : TrainingPodRequest → Operation
  acquire_catalog : CatalogPodCapacityRequest → String → String → Bool → Operation
  poll_catalog_readiness submit_catalog_workload observe_catalog_workload retrieve_catalog_result
        cancel_catalog_workload :
      String → String → String → Operation
  record_catalog_worker_evidence : String → String → String → CatalogWorkerEvidence → Operation
  acknowledge_catalog_result : String → String → String → Option Acknowledgement → Operation
  recover_catalog_result : String → String → String → HandoffRecovery → Operation
  reconcile : Operation

-- The world after the call, whether it returned or raised.
unfoldable pub perform : Environment → Operation → World → World
perform env (Operation.reserve r) w = (transact (Reserve.reserve r) w).1
perform env (Operation.heartbeat token) w = (Mutations.heartbeat env token w).1
perform env (Operation.record_result_retrieved token) w =
    (Mutations.record_result_retrieved env token w).1
perform env (Operation.request_cancellation token) w =
    (Mutations.request_cancellation env token w).1
perform env (Operation.record_job token job) w = (Mutations.record_job env token job w).1
perform env (Operation.record_status token status) w =
    (Mutations.record_status env token status w).1
perform env (Operation.release token reason) w = (Family.release env token reason w).1
perform env (Operation.record_operation_error token e) w =
    (Mutations.record_operation_error env token e w).1
perform env (Operation.acquire r) w = (Readiness.acquire env r w).1
perform env (Operation.acquire_catalog r sha fingerprint wait) w =
    (Admission.acquire_catalog env r sha fingerprint wait w).1
perform env (Operation.poll_catalog_readiness capacity owner workload) w =
    (Admission.poll_catalog_readiness env capacity owner workload w).1
perform env (Operation.submit_catalog_workload capacity owner workload) w =
    (Workload.submit_catalog_workload env capacity owner workload w).1
perform env (Operation.observe_catalog_workload capacity owner workload) w =
    (Workload.observe_catalog_workload env capacity owner workload w).1
perform env (Operation.retrieve_catalog_result capacity owner workload) w =
    (Workload.retrieve_catalog_result env capacity owner workload w).1
perform env (Operation.cancel_catalog_workload capacity owner workload) w =
    (Handoff.cancel_catalog_workload env capacity owner workload w).1
perform env (Operation.record_catalog_worker_evidence capacity owner workload worker) w =
    (Workload.record_catalog_worker_evidence env capacity owner workload worker w).1
perform env (Operation.acknowledge_catalog_result capacity owner workload a) w =
    (Handoff.acknowledge_catalog_result env capacity owner workload a w).1
perform env (Operation.recover_catalog_result capacity owner workload r) w =
    (Handoff.recover_catalog_result env capacity owner workload r w).1
perform env Operation.reconcile w = (Reconcile.reconcile env w).1

unfoldable pub perform_all : Environment → List Operation → World → World
unfolding perform
perform_all env [] w = w
perform_all env (o ∷ os) w = perform_all env os (perform env o w)

module _ (env : Environment) where
  -- One operation lets the table evolve.
  record Step (w w' : World) : Type 0 where
    pub rely : Rely w'
    pub grows : Grows w.rows w'.rows

  step :
      {A : Type 0} {Q : A → Table → Type 0} (m : Action A) (w : World)
      → Rely w
      → Safely w.rows Q m
      → Step w (m w).1
  step m w r s =
      let out = s.at w r (Grows-refl w.rows) in record { rely = out.rely; grows = out.grows }

  perform-Step : (o : Operation) (w : World) → Rely w → Step w (perform env o w)
  unfolding perform Readiness.acquire
  perform-Step (Operation.reserve request) w r =
      let out =
        transact-Safe w r {Q = Anything} (Reserve.reserve request) (reserve-Grows request _)
          (λ _ _. tt) in
      record { rely = out.rely; grows = out.grows }
  perform-Step (Operation.heartbeat token) w r = step _ w r (heartbeat-Safely env token)
  perform-Step (Operation.record_result_retrieved token) w r =
      step _ w r (record_result_retrieved-Safely env token)
  perform-Step (Operation.request_cancellation token) w r =
      step _ w r (request_cancellation-Safely env token)
  perform-Step (Operation.record_job token job) w r = step _ w r (record_job-Safely env token job)
  perform-Step (Operation.record_status token status) w r =
      step _ w r (record_status-Safely env token status)
  perform-Step (Operation.release token reason) w r = step _ w r (release-Safely env token reason)
  perform-Step (Operation.record_operation_error token e) w r =
      step _ w r (record_operation_error-Safely env token e)
  perform-Step (Operation.acquire r) w rely = step _ w rely (acquire_reserved-Safely env r true)
  perform-Step (Operation.acquire_catalog r sha fingerprint wait) w rely =
      step _ w rely (acquire_catalog-Safely env r sha fingerprint wait)
  perform-Step (Operation.poll_catalog_readiness capacity owner workload) w rely =
      step _ w rely (poll_catalog_readiness-Safely env capacity owner workload)
  perform-Step (Operation.submit_catalog_workload capacity owner workload) w rely =
      step _ w rely (submit_catalog_workload-Safely env capacity owner workload)
  perform-Step (Operation.observe_catalog_workload capacity owner workload) w rely =
      step _ w rely (observe_catalog_workload-Safely env capacity owner workload)
  perform-Step (Operation.retrieve_catalog_result capacity owner workload) w rely =
      step _ w rely (retrieve_catalog_result-Safely env capacity owner workload)
  perform-Step (Operation.cancel_catalog_workload capacity owner workload) w rely =
      step _ w rely (cancel_catalog_workload-Safely env capacity owner workload)
  perform-Step (Operation.record_catalog_worker_evidence capacity owner workload worker) w rely =
      step _ w rely (record_catalog_worker_evidence-Safely env capacity owner workload worker)
  perform-Step (Operation.acknowledge_catalog_result capacity owner workload a) w rely =
      step _ w rely (acknowledge_catalog_result-Safely env capacity owner workload a)
  perform-Step (Operation.recover_catalog_result capacity owner workload r) w rely =
      step _ w rely (recover_catalog_result-Safely env capacity owner workload r)
  perform-Step Operation.reconcile w rely = step _ w rely (reconcile-Safely env)

  perform_all-Grows :
      (os : List Operation) (w : World) → Rely w → Grows w.rows (perform_all env os w).rows
  unfolding perform_all
  perform_all-Grows [] w r = Grows-refl w.rows
  perform_all-Grows (o ∷ os) w r =
      let s = perform-Step o w r in
      let w' : World = perform env o w in
      Grows-trans w.rows w'.rows (perform_all env os w').rows s.grows
        (perform_all-Grows os w' s.rely)

-- Whatever operations of `Operation` run, in whatever order, and beside whatever other writers that
-- keep the rules of the repository, a released lease stays released: its row is never deleted, keeps its identity, and its revision does
-- not fall.
pub released_for_good :
    (env : Environment) (operations : List Operation) (w : World) (token : String)
    (lease : TrainingPodLease)
    → Rely w
    → find token w.rows ≡ some lease
    → is_terminal lease ≡ true
    → (lease' : TrainingPodLease) × (find token (perform_all env operations w).rows ≡ some lease')
      × (is_terminal lease' ≡ true)
      × SameIdentity lease lease'
      × (lease.revision ≤ lease'.revision)
released_for_good env os w token lease r f t =
    let (lease', f', e) = perform_all-Grows env os w r token lease f in
    (lease', f', e.terminal t, e.identity, e.revision_le)

-- The operations of one task are a writer that another task may run beside: each of them, run on a
-- table between two transactions of the other task, lets the table evolve as `Rely` demands.
pub perform-IsPeer :
    (env : Environment) (operations : List Operation) (peers : List (Table → Table)) (ticks : ℕ)
    → All IsPeer peers
    → IsPeer (λ rows.
      (perform_all env operations
        (record { rows = rows; peers = peers; ticks = ticks; calls = [] })).rows)
perform-IsPeer env os peers ticks r rows =
    perform_all-Grows env os (record { rows = rows; peers = peers; ticks = ticks; calls = [] }) r

perform-Apart : (env : Environment) (o : Operation) (w : World) → Apart w → Apart (perform env o w)
unfolding perform Readiness.acquire
perform-Apart env (Operation.reserve r) =
    (Keeps-transact (Reserve.reserve r) (reserve-IsExclusive r)).at
perform-Apart env (Operation.heartbeat token) = (heartbeat-Keeps env token).at
perform-Apart env (Operation.record_result_retrieved token) =
    (record_result_retrieved-Keeps env token).at
perform-Apart env (Operation.request_cancellation token) = (request_cancellation-Keeps env token).at
perform-Apart env (Operation.record_job token job) = (record_job-Keeps env token job).at
perform-Apart env (Operation.record_status token status) = (record_status-Keeps env token status).at
perform-Apart env (Operation.release token reason) = (release-Keeps env token reason).at
perform-Apart env (Operation.record_operation_error token e) =
    (record_operation_error-Keeps env token e).at
perform-Apart env (Operation.acquire r) = (acquire_reserved-Keeps env r true).at
perform-Apart env (Operation.acquire_catalog r sha fingerprint wait) =
    (acquire_catalog-Keeps env r sha fingerprint wait).at
perform-Apart env (Operation.poll_catalog_readiness capacity owner workload) =
    (poll_catalog_readiness-Keeps env capacity owner workload).at
perform-Apart env (Operation.submit_catalog_workload capacity owner workload) =
    (submit_catalog_workload-Keeps env capacity owner workload).at
perform-Apart env (Operation.observe_catalog_workload capacity owner workload) =
    (observe_catalog_workload-Keeps env capacity owner workload).at
perform-Apart env (Operation.retrieve_catalog_result capacity owner workload) =
    (retrieve_catalog_result-Keeps env capacity owner workload).at
perform-Apart env (Operation.cancel_catalog_workload capacity owner workload) =
    (cancel_catalog_workload-Keeps env capacity owner workload).at
perform-Apart env (Operation.record_catalog_worker_evidence capacity owner workload worker) =
    (record_catalog_worker_evidence-Keeps env capacity owner workload worker).at
perform-Apart env (Operation.acknowledge_catalog_result capacity owner workload a) =
    (acknowledge_catalog_result-Keeps env capacity owner workload a).at
perform-Apart env (Operation.recover_catalog_result capacity owner workload r) =
    (recover_catalog_result-Keeps env capacity owner workload r).at
perform-Apart env Operation.reconcile = (reconcile-Keeps env).at

perform_all-Apart :
    (env : Environment) (os : List Operation) (w : World) → Apart w → Apart (perform_all env os w)
unfolding perform_all
perform_all-Apart env [] w a = a
perform_all-Apart env (o ∷ os) w a =
    perform_all-Apart env os (perform env o w) (perform-Apart env o w a)

-- Whatever operations of `Operation` run, in whatever order, and beside whatever other writers that
-- keep the claims apart, on a table that does: no two active rows claim the same resource name, provider Pod or cleanup family.
pub claims_stay_apart :
    (env : Environment) (operations : List Operation) (w : World)
    → All IsApart w.peers
    → IsExclusive w.rows
    → IsExclusive (perform_all env operations w).rows
claims_stay_apart env os w p x = (perform_all-Apart env os w (p, x)).1
