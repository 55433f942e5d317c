-- ===== src/Service/History/Settling.antt =====
-- The transitions and the settlement of the service keep the claims of active rows apart.
use kestrel_cloud_runpod.Prelude.{ℕ, zero, suc, String, Option, none, some, List, Bool, true, false}
use kestrel_cloud_runpod.Capacity.Lease.{TrainingPodLease}
use kestrel_cloud_runpod.Capacity.States.{TrainingPodState}
use kestrel_cloud_runpod.Capacity.Evidence.{PodBillingReceipt, PodRealizedPlacement}
use kestrel_cloud_runpod.Capacity.Errors.{Error}
use kestrel_cloud_runpod.Repository.Columns.{Change}
use kestrel_cloud_runpod.Service.World.{Environment}
use kestrel_cloud_runpod.Service.Transitions.{
  Observed, transition_loop, transition_nonterminal, evidence_loop, transition_with_evidence,
  record_retryable_failure, release_unowned_claim,
}
use kestrel_cloud_runpod.Service.Settlement.{
  or_raise, capacity_spec, require, zero_cost_receipt, revoke_and_release, settle, settle_answer,
  settle_realized, settle_pod, reconcile_billing,
}
use kestrel_cloud_runpod.Service.Mutations.{refuse}
use kestrel_cloud_runpod.Service.History.Exclusive.{
  Keeps, Keeps-pure, Keeps-throw, Keeps-lift, Keeps-ask, Keeps-when, Keeps-try, Keeps-bind,
  Keeps-try_else, Keeps-now, Keeps-compare_and_set, Keeps-required, Keeps-query,
}

pub or_raise-Keeps : {A : Type 0} (o : Option A) → Keeps (or_raise o)
unfolding or_raise
or_raise-Keeps none = Keeps-throw _
or_raise-Keeps (some a) = Keeps-pure a

pub require-Keeps : (b : Bool) → Keeps (require b)
unfolding require
require-Keeps true = Keeps-pure tt
require-Keeps false = Keeps-throw _

pub refuse-Keeps : (b : Bool) (e : Error) → Keeps (refuse b e)
unfolding refuse
refuse-Keeps true e = Keeps-throw e
refuse-Keeps false e = Keeps-pure tt

pub capacity_spec-Keeps : (l : TrainingPodLease) → Keeps (capacity_spec l)
unfolding capacity_spec
capacity_spec-Keeps l = or_raise-Keeps l.capacity_spec

pub ruleset apart = (
  capacity_spec-Keeps, Keeps-pure, Keeps-throw, Keeps-lift, Keeps-ask, Keeps-when, Keeps-try,
  Keeps-bind, Keeps-try_else, Keeps-now, Keeps-compare_and_set, Keeps-required, or_raise-Keeps,
  require-Keeps, refuse-Keeps,
)

module _ (env : Environment) where
  pub transition_loop-Keeps :
      (n : ℕ) (cs : List Change) (l : TrainingPodLease) → Keeps (transition_loop env n cs l)
  unfolding transition_loop
  transition_loop-Keeps zero cs l = search apart
  transition_loop-Keeps (suc n) cs l = search (apart, transition_loop-Keeps n cs)

  pub transition_nonterminal-Keeps :
      (l : TrainingPodLease) (cs : List Change) → Keeps (transition_nonterminal env l cs)
  unfolding transition_nonterminal
  transition_nonterminal-Keeps l cs = transition_loop-Keeps env.fuel cs l

  pub evidence_loop-Keeps :
      (n : ℕ) (cs : List Change) (seen : Observed) (states : Option (TrainingPodState → Bool))
      (l : TrainingPodLease)
      → Keeps (evidence_loop env n cs seen states l)
  unfolding evidence_loop
  evidence_loop-Keeps zero cs seen states l = search apart
  evidence_loop-Keeps (suc n) cs seen states l =
      search (apart, evidence_loop-Keeps n cs seen states) depth 12

  pub transition_with_evidence-Keeps :
      (l : TrainingPodLease) (cs : List Change) (seen : Observed)
      (states : Option (TrainingPodState → Bool))
      → Keeps (transition_with_evidence env l cs seen states)
  unfolding transition_with_evidence
  transition_with_evidence-Keeps l cs seen states = evidence_loop-Keeps env.fuel cs seen states l

  pub record_retryable_failure-Keeps :
      (l : TrainingPodLease) (e : Error) (u : Option Bool)
      → Keeps (record_retryable_failure env l e u)
  unfolding record_retryable_failure
  record_retryable_failure-Keeps l e u = search (apart, transition_nonterminal-Keeps) depth 12

  pub release_unowned_claim-Keeps :
      (l : TrainingPodLease) (e : Option Error) → Keeps (release_unowned_claim env l e)
  unfolding release_unowned_claim
  release_unowned_claim-Keeps l e = search (apart, transition_nonterminal-Keeps) depth 12

  pub zero_cost_receipt-Keeps :
      (l : TrainingPodLease) (reason : String) → Keeps (zero_cost_receipt env l reason)
  unfolding zero_cost_receipt capacity_spec
  zero_cost_receipt-Keeps l reason = search apart depth 12

  pub revoke_and_release-Keeps : (l : TrainingPodLease) → Keeps (revoke_and_release env l)
  unfolding revoke_and_release capacity_spec
  revoke_and_release-Keeps l = search apart depth 20

  pub settle-Keeps : (l : TrainingPodLease) (r : PodBillingReceipt) → Keeps (settle env l r)
  unfolding settle
  settle-Keeps l r =
      search (apart, transition_with_evidence-Keeps, revoke_and_release-Keeps) depth 12

  pub settle_answer-Keeps :
      (l : TrainingPodLease) (pod : String) (t : ℕ) (p : PodRealizedPlacement)
      (o : Option PodBillingReceipt)
      → Keeps (settle_answer env l pod t p o)
  unfolding settle_answer
  settle_answer-Keeps l pod t p none = search apart
  settle_answer-Keeps l pod t p (some r) = search (apart, settle-Keeps) depth 12

  pub settle_realized-Keeps :
      (l : TrainingPodLease) (pod : String) (t : ℕ) (o : Option PodRealizedPlacement)
      → Keeps (settle_realized env l pod t o)
  unfolding settle_realized capacity_spec
  settle_realized-Keeps l pod t none = search apart
  settle_realized-Keeps l pod t (some p) = search (apart, settle_answer-Keeps) depth 12

  pub settle_pod-Keeps : (l : TrainingPodLease) (o : Option String) → Keeps (settle_pod env l o)
  unfolding settle_pod
  settle_pod-Keeps l none = search (apart, zero_cost_receipt-Keeps, settle-Keeps) depth 12
  settle_pod-Keeps l (some pod) = search (apart, settle_realized-Keeps) depth 12

  pub reconcile_billing-Keeps : (l : TrainingPodLease) → Keeps (reconcile_billing env l)
  unfolding reconcile_billing
  reconcile_billing-Keeps l = search (apart, settle_pod-Keeps, revoke_and_release-Keeps) depth 12
