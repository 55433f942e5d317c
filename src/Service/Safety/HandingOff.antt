-- ===== src/Service/Safety/HandingOff.antt =====
-- The hand-off of a catalog result revives no released row.
use kestrel_cloud_runpod.Prelude.{ℕ, zero, suc, ◌≡◌, String, Option, none, some, Bool, true, false}
use kestrel_cloud_runpod.Capacity.Lease.{
  TrainingPodLease, CatalogArtifactHandoffEvidence, is_terminal,
}
use kestrel_cloud_runpod.Repository.Columns.{assign_all}
use kestrel_cloud_runpod.Repository.Table.{Table}
use kestrel_cloud_runpod.Repository.Evolution.{Seen, Seen-Grows}
use kestrel_cloud_runpod.Service.World.{Environment, Action, Acknowledgement}
use kestrel_cloud_runpod.Service.Workload.{route, catalog_result_ready}
use kestrel_cloud_runpod.Service.Workload.Handoff.{
  HandoffRecovery, require_ack_admission, deliver, dispatch_ack, intend_ack, bound_intent,
  acknowledge_loop, declare, confirmation, mark_retrieved, release_catalog_result,
  acknowledge_protocol, acknowledge_catalog_result, recover_catalog_result, send_cancel,
  cancel_remote, cancel_catalog_workload,
}
use kestrel_cloud_runpod.Service.Safety.{
  Safely, Anything, Safely-pure, Safely-if, Safely-bind, Safely-ask, Safely-throw, Safely-try_else,
  Safely-compare_and_set,
}
use kestrel_cloud_runpod.Service.Safety.Transitions.{Safely-pure-Seen}
use kestrel_cloud_runpod.Service.Safety.Settlement.{Safely-then, or_raise-Safely}
use kestrel_cloud_runpod.Service.Safety.Mutations.{refuse-Safely, record_operation_error-Safely}
use kestrel_cloud_runpod.Service.Safety.Family.{release-Safely}
use kestrel_cloud_runpod.Service.Safety.Acquiring.{safe}
use kestrel_cloud_runpod.Service.Safety.Admitting.{
  admitted, get_catalog_capacity-Safely, load_capability-Safely,
}
use kestrel_cloud_runpod.Service.Safety.Working.{record_catalog_observation-Safely}

ruleset handing = (
  admitted, load_capability-Safely, release-Safely, refuse-Safely,
  record_catalog_observation-Safely,
)

module _ (env : Environment) where
  require_ack_admission-Safely :
      (l : TrainingPodLease) {base : Table} → Safely base Anything (require_ack_admission env l)
  unfolding require_ack_admission catalog_result_ready
  require_ack_admission-Safely l = search handing depth 20

  deliver-Safely :
      (recovery : Bool) (attempt : String) (a : Acknowledgement) {base : Table}
      → Safely base Anything (deliver env recovery attempt a)
  unfolding deliver
  deliver-Safely false attempt a = Safely-ask _ _
  deliver-Safely true attempt a = Safely-ask _ _

  dispatch_ack-Safely :
      (capacity owner workload : String) (a : Acknowledgement) (recovery : Bool)
      (l : TrainingPodLease) {base : Table}
      → Safely base Seen (dispatch_ack env capacity owner workload a recovery l)
  unfolding dispatch_ack route
  dispatch_ack-Safely capacity owner workload a recovery l =
      search (handing, require_ack_admission-Safely, deliver-Safely) depth 20

  intend_ack-Safely :
      (capacity owner workload : String) (a : Acknowledgement) (recovery : Bool)
      (l : TrainingPodLease) (intent : CatalogArtifactHandoffEvidence)
      (again : Action TrainingPodLease) {base : Table}
      → Seen l base
      → ((rows : Table) → Safely rows Seen again)
      → Safely base Seen (intend_ack env capacity owner workload a recovery l intent again)
  unfolding intend_ack assign_all
  intend_ack-Safely capacity owner workload a recovery l intent again {base} s next =
      Safely-if _ _ _ (λ _. Safely-pure-Seen l s)
        (λ _. Safely-then _ _ (require_ack_admission-Safely l) (λ _ rows g.
          Safely-try_else _ _ _ _
            (Safely-compare_and_set env l _ (Seen-Grows l base rows g s) (λ _ h. h))
            (λ stored rows' g' s'. dispatch_ack-Safely capacity owner workload a recovery stored)
            (λ e rows' g'. next rows')))

  bound_intent-Safely :
      (o : Option CatalogArtifactHandoffEvidence) {base : Table}
      → Safely base Anything (bound_intent env o)
  unfolding bound_intent
  bound_intent-Safely none = Safely-throw _
  bound_intent-Safely (some i) = Safely-pure i (λ _ _. tt)

  acknowledge_loop-Safely :
      (n : ℕ) (capacity owner workload : String) (a : Acknowledgement) (recovery : Bool)
      (base : Table)
      → Safely base Seen (acknowledge_loop env n capacity owner workload a recovery)
  unfolding acknowledge_loop
  acknowledge_loop-Safely zero capacity owner workload a recovery base = Safely-throw _
  acknowledge_loop-Safely (suc n) capacity owner workload a recovery base =
      Safely-bind _ _ (get_catalog_capacity-Safely capacity owner workload) (λ l rows g s.
        Safely-then _ _ (or_raise-Safely _) (λ evidence rows' g'.
          Safely-then _ _ (bound_intent-Safely _) (λ intent last g''.
            intend_ack-Safely capacity owner workload a recovery l intent _
              (Seen-Grows l rows' last g'' (Seen-Grows l rows rows' g' s))
              (acknowledge_loop-Safely n capacity owner workload a recovery))))

  declare-Safely :
      (h : CatalogArtifactHandoffEvidence) (t : Option ℕ) {base : Table}
      → Safely base Anything (declare env h t)
  unfolding declare
  declare-Safely h (some t) = search safe
  declare-Safely h none = search safe depth 12

  confirmation-Safely :
      (b : Bool) (h : Option CatalogArtifactHandoffEvidence) {base : Table}
      → Safely base Anything (confirmation env b h)
  unfolding confirmation
  confirmation-Safely true (some h) = declare-Safely h _
  confirmation-Safely true none = search safe
  confirmation-Safely false h = search safe

  mark_retrieved-Safely :
      (b : Bool) (l : TrainingPodLease) {base : Table}
      → Seen l base
      → is_terminal l ≡ false
      → Safely base Seen (mark_retrieved env b l)
  unfolding mark_retrieved
  mark_retrieved-Safely b l s a = search (handing, confirmation-Safely) depth 20

  release_catalog_result-Safely :
      (capacity owner workload : String) (digest : Option String) {base : Table}
      → Safely base Seen (release_catalog_result env capacity owner workload digest)
  unfolding release_catalog_result catalog_result_ready
  release_catalog_result-Safely capacity owner workload digest =
      search (handing, mark_retrieved-Safely) depth 24

  acknowledge_protocol-Safely :
      (capacity owner workload : String) (a : Option Acknowledgement) (v : Option ℕ) {base : Table}
      → Safely base Seen (acknowledge_protocol env capacity owner workload a v)
  unfolding acknowledge_protocol
  acknowledge_protocol-Safely capacity owner workload a none =
      search (handing, release_catalog_result-Safely) depth 12
  acknowledge_protocol-Safely capacity owner workload none (some v) = search safe
  acknowledge_protocol-Safely capacity owner workload (some a) (some v) {base} =
      acknowledge_loop-Safely env.fuel capacity owner workload a false base

  pub acknowledge_catalog_result-Safely :
      (capacity owner workload : String) (a : Option Acknowledgement) {base : Table}
      → Safely base Seen (acknowledge_catalog_result env capacity owner workload a)
  unfolding acknowledge_catalog_result
  acknowledge_catalog_result-Safely capacity owner workload a =
      search (handing, acknowledge_protocol-Safely) depth 12

  pub recover_catalog_result-Safely :
      (capacity owner workload : String) (r : HandoffRecovery) {base : Table}
      → Safely base Seen (recover_catalog_result env capacity owner workload r)
  unfolding recover_catalog_result
  recover_catalog_result-Safely capacity owner workload r =
      search (handing, acknowledge_loop-Safely env.fuel) depth 12

  send_cancel-Safely :
      (l : TrainingPodLease) {base : Table} → Safely base Anything (send_cancel env l)
  unfolding send_cancel
  send_cancel-Safely l = search handing depth 12

  cancel_remote-Safely :
      (l : TrainingPodLease) {base : Table} → Safely base Seen (cancel_remote env l)
  unfolding cancel_remote
  cancel_remote-Safely l =
      search (handing, send_cancel-Safely, record_operation_error-Safely) depth 12

  pub cancel_catalog_workload-Safely :
      (capacity owner workload : String) {base : Table}
      → Safely base Seen (cancel_catalog_workload env capacity owner workload)
  unfolding cancel_catalog_workload
  cancel_catalog_workload-Safely capacity owner workload =
      search (handing, cancel_remote-Safely) depth 20
