-- ===== src/Service/History/Claims.antt =====
-- Every operation of the service keeps the claims of active rows apart.
use kestrel_cloud_runpod.Prelude.{
  ℕ, zero, suc, String, Option, none, some, List, [], ◌∷◌, Bool, true, false,
}
use kestrel_cloud_runpod.Capacity.Lease.{TrainingPodLease, PodCapacitySpec}
use kestrel_cloud_runpod.Capacity.Evidence.{PodRealizedPlacement}
use kestrel_cloud_runpod.Capacity.Errors.{Error, LifecycleFailure, cleanup_error}
use kestrel_cloud_runpod.Service.World.{Environment}
use kestrel_cloud_runpod.Service.Transitions.{Given}
use kestrel_cloud_runpod.Service.Release.{
  pod_id, search_created, adopt, nothing_created, resolve_found, resolve_uncertain_creation,
  settle_unprovisioned, release_unprovisioned, count_attempt, stop_call, stop_answer,
  mark_releasing, stop_refused, stop_pod, locate, release_owned, release_lease, release_one,
}
use kestrel_cloud_runpod.Service.Mutations.{
  heartbeat, record_job, record_operation_error, record_status, record_result_retrieved,
  request_cancellation, request_loop, mark_family_release_requested, complete_loop,
  mark_family_release_complete,
}
use kestrel_cloud_runpod.Service.Family.{
  cleanup_family, member_failure, release_members, finish_family, release_family, release,
}
use kestrel_cloud_runpod.Service.History.Exclusive.{
  Keeps, Keeps-pure, Keeps-throw, Keeps-when, Keeps-bind, Keeps-try_else, Keeps-query,
}
use kestrel_cloud_runpod.Service.History.Settling.{
  apart, transition_nonterminal-Keeps, transition_with_evidence-Keeps,
  record_retryable_failure-Keeps, zero_cost_receipt-Keeps, revoke_and_release-Keeps,
  reconcile_billing-Keeps,
}

module _ (env : Environment) where
  search_created-Keeps :
      (l : TrainingPodLease) (o : Option PodCapacitySpec) → Keeps (search_created env l o)
  unfolding search_created
  search_created-Keeps l none = search apart
  search_created-Keeps l (some spec) = search apart

  adopt-Keeps :
      (l : TrainingPodLease) (pod : String) (p : Given (Option PodRealizedPlacement))
      → Keeps (adopt env l pod p)
  unfolding adopt
  adopt-Keeps l pod p = search (apart, transition_with_evidence-Keeps)

  nothing_created-Keeps :
      (l : TrainingPodLease) (reason : String) → Keeps (nothing_created env l reason)
  unfolding nothing_created
  nothing_created-Keeps l reason = search (apart, transition_nonterminal-Keeps)

  resolve_found-Keeps :
      (l : TrainingPodLease) (reason : String)
      (o : Option (String × Given (Option PodRealizedPlacement)))
      → Keeps (resolve_found env l reason o)
  unfolding resolve_found
  resolve_found-Keeps l reason none = nothing_created-Keeps l reason
  resolve_found-Keeps l reason (some (pod, p)) = adopt-Keeps l pod p

  pub resolve_uncertain_creation-Keeps :
      (l : TrainingPodLease) (reason : String) → Keeps (resolve_uncertain_creation env l reason)
  unfolding resolve_uncertain_creation
  resolve_uncertain_creation-Keeps l reason =
      search (apart, search_created-Keeps, resolve_found-Keeps, record_retryable_failure-Keeps)

  settle_unprovisioned-Keeps : (l : TrainingPodLease) (t : ℕ) → Keeps (settle_unprovisioned env l t)
  unfolding settle_unprovisioned
  settle_unprovisioned-Keeps l t =
      search
        (apart, zero_cost_receipt-Keeps, transition_with_evidence-Keeps, revoke_and_release-Keeps)
        depth 12

  release_unprovisioned-Keeps : (l : TrainingPodLease) → Keeps (release_unprovisioned env l)
  unfolding release_unprovisioned
  release_unprovisioned-Keeps l =
      search (apart, settle_unprovisioned-Keeps, transition_with_evidence-Keeps)

  count_attempt-Keeps : (n : ℕ) (l : TrainingPodLease) → Keeps (count_attempt env n l)
  unfolding count_attempt
  count_attempt-Keeps zero l = search apart
  count_attempt-Keeps (suc n) l = search (apart, count_attempt-Keeps n)

  stop_call-Keeps : (l : TrainingPodLease) → Keeps (stop_call env l)
  unfolding stop_call pod_id
  stop_call-Keeps l = search apart

  stop_answer-Keeps :
      (reason : String) (l : TrainingPodLease) (b : Bool) → Keeps (stop_answer env reason l b)
  unfolding stop_answer
  stop_answer-Keeps reason l true =
      search (apart, transition_with_evidence-Keeps, reconcile_billing-Keeps) depth 12
  stop_answer-Keeps reason l false = search (apart, transition_nonterminal-Keeps) depth 12

  stop_refused-Keeps :
      (reason : String) (l : TrainingPodLease) (e : Error) → Keeps (stop_refused env reason l e)
  unfolding stop_refused
  stop_refused-Keeps reason l e = search (apart, record_retryable_failure-Keeps) depth 12

  mark_releasing-Keeps : (l : TrainingPodLease) → Keeps (mark_releasing env l)
  unfolding mark_releasing
  mark_releasing-Keeps l = search (apart, transition_nonterminal-Keeps) depth 12

  stop_pod-Keeps : (reason : String) (l : TrainingPodLease) → Keeps (stop_pod env reason l)
  unfolding stop_pod
  stop_pod-Keeps reason l =
      search
        (
          apart, mark_releasing-Keeps, count_attempt-Keeps, stop_call-Keeps, stop_answer-Keeps,
          stop_refused-Keeps,
        )
        depth 12

  locate-Keeps : (reason : String) (l : TrainingPodLease) → Keeps (locate env reason l)
  unfolding locate
  locate-Keeps reason l = search (apart, resolve_uncertain_creation-Keeps) depth 12

  release_owned-Keeps :
      (reason : String) (l : TrainingPodLease) → Keeps (release_owned env reason l)
  unfolding release_owned
  release_owned-Keeps reason l =
      search (apart, locate-Keeps, release_unprovisioned-Keeps, stop_pod-Keeps) depth 12

  pub release_one-Keeps : (token reason : String) → Keeps (release_one env token reason)
  unfolding release_one release_lease
  release_one-Keeps token reason =
      search (apart, reconcile_billing-Keeps, transition_nonterminal-Keeps, release_owned-Keeps)
        depth 12

  pub heartbeat-Keeps : (token : String) → Keeps (heartbeat env token)
  unfolding heartbeat
  heartbeat-Keeps token = search apart depth 12

  pub record_job-Keeps : (token job : String) → Keeps (record_job env token job)
  unfolding record_job
  record_job-Keeps token job = search apart depth 20

  pub record_operation_error-Keeps :
      (token : String) (e : Error) → Keeps (record_operation_error env token e)
  unfolding record_operation_error
  record_operation_error-Keeps token e = search (apart, transition_nonterminal-Keeps) depth 12

  pub record_status-Keeps : (token status : String) → Keeps (record_status env token status)
  unfolding record_status
  record_status-Keeps token status = search (apart, transition_nonterminal-Keeps) depth 12

  pub record_result_retrieved-Keeps : (token : String) → Keeps (record_result_retrieved env token)
  unfolding record_result_retrieved
  record_result_retrieved-Keeps token = search apart depth 20

  pub request_cancellation-Keeps : (token : String) → Keeps (request_cancellation env token)
  unfolding request_cancellation
  request_cancellation-Keeps token = search apart depth 12

  request_loop-Keeps : (n : ℕ) (l : TrainingPodLease) → Keeps (request_loop env n l)
  unfolding request_loop
  request_loop-Keeps zero l = search apart
  request_loop-Keeps (suc n) l = search (apart, request_loop-Keeps n) depth 12

  complete_loop-Keeps : (n : ℕ) (l : TrainingPodLease) → Keeps (complete_loop env n l)
  unfolding complete_loop
  complete_loop-Keeps zero l = search apart
  complete_loop-Keeps (suc n) l = search (apart, complete_loop-Keeps n) depth 12

  member_failure-Keeps :
      (reason : String) (l : TrainingPodLease) (e : Error) → Keeps (member_failure env reason l e)
  unfolding member_failure
  member_failure-Keeps reason l (cleanup_error f) = Keeps-pure _
  member_failure-Keeps reason l _ = search apart

  release_members-Keeps :
      (reason : String) (failure : Option LifecycleFailure) (ls : List TrainingPodLease)
      → Keeps (release_members env reason failure ls)
  unfolding release_members
  release_members-Keeps reason failure [] = Keeps-pure _
  release_members-Keeps reason failure (l ∷ ls) =
      Keeps-when _ _ _ (release_members-Keeps reason failure ls) (
        Keeps-try_else _ _ _ _ (search (apart, release_one-Keeps))
          (λ last. release_members-Keeps reason last ls)
          (λ e.
            Keeps-bind _ _ (member_failure-Keeps reason l e)
              (λ last. release_members-Keeps reason last ls)))

  finish_family-Keeps :
      (token reason : String) (root : TrainingPodLease) (failure : Option LifecycleFailure)
      → Keeps (finish_family env token reason root failure)
  unfolding finish_family mark_family_release_complete
  finish_family-Keeps token reason root none = search (apart, complete_loop-Keeps)
  finish_family-Keeps token reason root (some f) = Keeps-throw _

  pub release-Keeps : (token reason : String) → Keeps (release env token reason)
  unfolding release release_family cleanup_family mark_family_release_requested
  release-Keeps token reason =
      search
        (
          apart, Keeps-query, request_loop-Keeps, release_one-Keeps, release_members-Keeps,
          finish_family-Keeps,
        )
        depth 20
