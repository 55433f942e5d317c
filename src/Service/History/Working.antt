-- ===== src/Service/History/Working.antt =====
-- The operations of the catalog workload keep the claims of active rows apart.
use kestrel_cloud_runpod.Prelude.{
  ℕ, zero, suc, String, Option, none, some, List, [], ◌∷◌, Bool, true, false,
}
use kestrel_cloud_runpod.Capacity.Evidence.{Phase, CatalogWorkerEvidence, PodCapacityEvidence}
use kestrel_cloud_runpod.Capacity.Lease.{TrainingPodLease, CatalogArtifactHandoffEvidence}
use kestrel_cloud_runpod.Repository.Columns.{Change}
use kestrel_cloud_runpod.Service.World.{Environment, Action, WorkloadObservation, Acknowledgement}
use kestrel_cloud_runpod.Service.History.Exclusive.{Keeps}
use kestrel_cloud_runpod.Service.History.Settling.{apart, transition_with_evidence-Keeps}
use kestrel_cloud_runpod.Service.History.Claims.{
  heartbeat-Keeps, release-Keeps, record_operation_error-Keeps,
}
use kestrel_cloud_runpod.Service.Workload.{
  route, catalog_result_ready, write_observation, changes_of, apply_changes, observation_loop,
  record_catalog_observation, submission_lease, submit_catalog_workload, after_observation,
  observe_catalog_workload, accept_result, retrieve_catalog_result, add_worker, check_start,
  record_catalog_worker_evidence,
}
use kestrel_cloud_runpod.Service.Workload.Handoff.{
  HandoffRecovery, require_ack_admission, deliver, dispatch_ack, intend_ack, bound_intent,
  acknowledge_loop, declare, confirmation, mark_retrieved, release_catalog_result,
  acknowledge_protocol, acknowledge_catalog_result, recover_catalog_result, send_cancel,
  cancel_remote, cancel_catalog_workload,
}
use kestrel_cloud_runpod.Service.History.Acquiring.{
  get_catalog_capacity-Keeps, load_capability-Keeps,
}

ruleset working = (
  apart, transition_with_evidence-Keeps, get_catalog_capacity-Keeps, load_capability-Keeps,
  heartbeat-Keeps, release-Keeps, record_operation_error-Keeps,
)

module _ (env : Environment) where
  apply_changes-Keeps :
      (l : TrainingPodLease) (again : Action TrainingPodLease)
      (changes : List Change × List (Phase × ℕ))
      → Keeps again
      → Keeps (apply_changes env l again changes)
  unfolding apply_changes write_observation
  apply_changes-Keeps l again ([], lifecycle) k = search apart
  apply_changes-Keeps l again (c ∷ cs, lifecycle) k = search apart depth 20

  observation_loop-Keeps :
      (n : ℕ) (capacity : String) (o : WorkloadObservation) (b : Bool)
      → Keeps (observation_loop env n capacity o b)
  unfolding observation_loop changes_of
  observation_loop-Keeps zero capacity o b = search apart
  observation_loop-Keeps (suc n) capacity o b =
      search (apart, apply_changes-Keeps, observation_loop-Keeps n) depth 20

  submission_lease-Keeps :
      (capacity owner workload : String) → Keeps (submission_lease env capacity owner workload)
  unfolding submission_lease
  submission_lease-Keeps capacity owner workload = search working depth 20

  pub submit_catalog_workload-Keeps :
      (capacity owner workload : String)
      → Keeps (submit_catalog_workload env capacity owner workload)
  unfolding submit_catalog_workload route record_catalog_observation
  submit_catalog_workload-Keeps capacity owner workload =
      search (working, submission_lease-Keeps, observation_loop-Keeps) depth 20

  pub observe_catalog_workload-Keeps :
      (capacity owner workload : String)
      → Keeps (observe_catalog_workload env capacity owner workload)
  unfolding observe_catalog_workload route after_observation record_catalog_observation
  observe_catalog_workload-Keeps capacity owner workload =
      search (working, observation_loop-Keeps) depth 20

  pub retrieve_catalog_result-Keeps :
      (capacity owner workload : String)
      → Keeps (retrieve_catalog_result env capacity owner workload)
  unfolding retrieve_catalog_result catalog_result_ready accept_result route
  retrieve_catalog_result-Keeps capacity owner workload = search working depth 24

  check_start-Keeps : (t : Option ℕ) → Keeps (check_start env t)
  unfolding check_start
  check_start-Keeps none = search apart
  check_start-Keeps (some t) = search apart depth 12

  add_worker-Keeps :
      (l : TrainingPodLease) (worker : CatalogWorkerEvidence) (e : PodCapacityEvidence)
      → Keeps (add_worker env l worker e)
  unfolding add_worker
  add_worker-Keeps l worker e = search working depth 20

  pub record_catalog_worker_evidence-Keeps :
      (capacity owner workload : String) (worker : CatalogWorkerEvidence)
      → Keeps (record_catalog_worker_evidence env capacity owner workload worker)
  unfolding record_catalog_worker_evidence catalog_result_ready
  record_catalog_worker_evidence-Keeps capacity owner workload worker =
      search (working, check_start-Keeps, add_worker-Keeps) depth 20

  require_ack_admission-Keeps : (l : TrainingPodLease) → Keeps (require_ack_admission env l)
  unfolding require_ack_admission catalog_result_ready
  require_ack_admission-Keeps l = search working depth 20

  deliver-Keeps :
      (b : Bool) (attempt : String) (a : Acknowledgement) → Keeps (deliver env b attempt a)
  unfolding deliver
  deliver-Keeps false attempt a = search apart
  deliver-Keeps true attempt a = search apart

  dispatch_ack-Keeps :
      (capacity owner workload : String) (a : Acknowledgement) (b : Bool) (l : TrainingPodLease)
      → Keeps (dispatch_ack env capacity owner workload a b l)
  unfolding dispatch_ack route record_catalog_observation
  dispatch_ack-Keeps capacity owner workload a b l =
      search (working, require_ack_admission-Keeps, deliver-Keeps, observation_loop-Keeps) depth 20

  bound_intent-Keeps : (o : Option CatalogArtifactHandoffEvidence) → Keeps (bound_intent env o)
  unfolding bound_intent
  bound_intent-Keeps none = search apart
  bound_intent-Keeps (some i) = search apart

  acknowledge_loop-Keeps :
      (n : ℕ) (capacity owner workload : String) (a : Acknowledgement) (b : Bool)
      → Keeps (acknowledge_loop env n capacity owner workload a b)
  unfolding acknowledge_loop intend_ack
  acknowledge_loop-Keeps zero capacity owner workload a b = search apart
  acknowledge_loop-Keeps (suc n) capacity owner workload a b =
      search
        (
          working,
          require_ack_admission-Keeps,
          dispatch_ack-Keeps,
          bound_intent-Keeps,
          acknowledge_loop-Keeps n,
        )
        depth 24

  declare-Keeps : (h : CatalogArtifactHandoffEvidence) (t : Option ℕ) → Keeps (declare env h t)
  unfolding declare
  declare-Keeps h (some t) = search apart
  declare-Keeps h none = search apart depth 12

  confirmation-Keeps :
      (b : Bool) (h : Option CatalogArtifactHandoffEvidence) → Keeps (confirmation env b h)
  unfolding confirmation
  confirmation-Keeps true (some h) = declare-Keeps h _
  confirmation-Keeps true none = search apart
  confirmation-Keeps false h = search apart

  mark_retrieved-Keeps : (b : Bool) (l : TrainingPodLease) → Keeps (mark_retrieved env b l)
  unfolding mark_retrieved
  mark_retrieved-Keeps b l = search (working, confirmation-Keeps) depth 20

  release_catalog_result-Keeps :
      (capacity owner workload : String) (digest : Option String)
      → Keeps (release_catalog_result env capacity owner workload digest)
  unfolding release_catalog_result catalog_result_ready
  release_catalog_result-Keeps capacity owner workload digest =
      search (working, mark_retrieved-Keeps) depth 24

  acknowledge_protocol-Keeps :
      (capacity owner workload : String) (a : Option Acknowledgement) (v : Option ℕ)
      → Keeps (acknowledge_protocol env capacity owner workload a v)
  unfolding acknowledge_protocol
  acknowledge_protocol-Keeps capacity owner workload a none =
      search (working, release_catalog_result-Keeps) depth 12
  acknowledge_protocol-Keeps capacity owner workload none (some v) = search apart
  acknowledge_protocol-Keeps capacity owner workload (some a) (some v) =
      acknowledge_loop-Keeps env.fuel capacity owner workload a false

  pub acknowledge_catalog_result-Keeps :
      (capacity owner workload : String) (a : Option Acknowledgement)
      → Keeps (acknowledge_catalog_result env capacity owner workload a)
  unfolding acknowledge_catalog_result
  acknowledge_catalog_result-Keeps capacity owner workload a =
      search (working, acknowledge_protocol-Keeps) depth 12

  pub recover_catalog_result-Keeps :
      (capacity owner workload : String) (r : HandoffRecovery)
      → Keeps (recover_catalog_result env capacity owner workload r)
  unfolding recover_catalog_result
  recover_catalog_result-Keeps capacity owner workload r =
      search (working, acknowledge_loop-Keeps) depth 12

  cancel_remote-Keeps : (l : TrainingPodLease) → Keeps (cancel_remote env l)
  unfolding cancel_remote send_cancel
  cancel_remote-Keeps l = search working depth 20

  pub cancel_catalog_workload-Keeps :
      (capacity owner workload : String)
      → Keeps (cancel_catalog_workload env capacity owner workload)
  unfolding cancel_catalog_workload
  cancel_catalog_workload-Keeps capacity owner workload =
      search (working, cancel_remote-Keeps) depth 20
