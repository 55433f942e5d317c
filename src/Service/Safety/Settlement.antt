-- ===== src/Service/Safety/Settlement.antt =====
-- Settlement revives no released row.
use kestrel_cloud_runpod.Prelude.{ℕ, String, Option, none, some, Bool, true, false}
use kestrel_cloud_runpod.Capacity.Evidence.{PodBillingReceipt, PodRealizedPlacement}
use kestrel_cloud_runpod.Capacity.Lease.{TrainingPodLease}
use kestrel_cloud_runpod.Capacity.Errors.{manager}
use kestrel_cloud_runpod.Repository.Columns.{assign_all}
use kestrel_cloud_runpod.Repository.Table.{Table}
use kestrel_cloud_runpod.Repository.Evolution.{Grows, Seen, Seen-Grows}
use kestrel_cloud_runpod.Service.World.{Environment, Action, ◌>>=◌}
use kestrel_cloud_runpod.Service.Settlement.{
  or_raise, capacity_spec, require, zero_cost_receipt, revoke_and_release, settle, settle_answer,
  settle_realized, settle_pod, reconcile_billing,
}
use kestrel_cloud_runpod.Service.Safety.{
  Safely, Anything, Safely-pure, Safely-throw, Safely-if, Safely-try, Safely-bind, Safely-ask,
  Safely-compare_and_set,
}
use kestrel_cloud_runpod.Service.Safety.Transitions.{
  KeepsTerminal-active, Safely-pure-Seen, Safely-after_now, Safely-retry,
  transition_with_evidence-Safely,
}

pub require-Safely : (b : Bool) {base : Table} → Safely base Anything (require b)
unfolding require
require-Safely true = Safely-pure tt (λ _ _. tt)
require-Safely false = Safely-throw manager

-- An action behind one that claims nothing.
pub Safely-then :
    {A B : Type 0} {Q : B → Table → Type 0} (m : Action A) (f : A → Action B) {base : Table}
    → Safely base Anything m
    → ((a : A) (rows : Table) → Grows base rows → Safely rows Q (f a))
    → Safely base Q (m >>= f)
Safely-then m f s k = Safely-bind m f s (λ a rows g _. k a rows g)

pub or_raise-Safely : {A : Type 0} (o : Option A) {base : Table} → Safely base Anything (or_raise o)
unfolding or_raise
or_raise-Safely none = Safely-throw manager
or_raise-Safely (some a) = Safely-pure a (λ _ _. tt)

pub capacity_spec-Safely :
    (l : TrainingPodLease) {base : Table} → Safely base Anything (capacity_spec l)
unfolding capacity_spec
capacity_spec-Safely l = or_raise-Safely l.capacity_spec

module _ (env : Environment) where
  pub zero_cost_receipt-Safely :
      (l : TrainingPodLease) (reason : String) {base : Table}
      → Safely base Anything (zero_cost_receipt env l reason)
  unfolding zero_cost_receipt
  zero_cost_receipt-Safely l reason =
      Safely-then _ _ (capacity_spec-Safely l)
        (λ spec rows g. Safely-after_now env _ (λ t rows' g'. Safely-pure _ (λ _ _. tt)))

  pub revoke_and_release-Safely :
      (l : TrainingPodLease) {base : Table} → Safely base Seen (revoke_and_release env l)
  unfolding revoke_and_release
  revoke_and_release-Safely l = Safely-then _ _ (require-Safely _) (λ _ _ _.
      Safely-then _ _ (require-Safely _) (λ _ _ _.
        Safely-then _ _ (capacity_spec-Safely l) (λ spec _ _.
          Safely-then _ _ (Safely-ask _ _) (λ _ _ _. Safely-retry _ _ (λ current rows s.
            Safely-if _ _ _ (λ _. Safely-pure-Seen current s)
              (λ active. Safely-after_now env _ (λ t rows' g.
                Safely-compare_and_set env current _ (Seen-Grows current rows rows' g s)
                  (KeepsTerminal-active _ current active))))))))

  pub settle-Safely :
      (l : TrainingPodLease) (receipt : PodBillingReceipt) {base : Table}
      → Seen l base
      → Safely base Seen (settle env l receipt)
  unfolding settle
  settle-Safely l receipt {base} s =
      Safely-bind _ _
        (Safely-try _ _ _ (transition_with_evidence-Safely env l _ _ none s) (λ e.
          Safely-retry _ _ (λ current rows s'.
            Safely-if _ _ _ (λ _. Safely-pure-Seen current s') (λ _. Safely-throw e))))
        (λ reconciled rows g s'. revoke_and_release-Safely reconciled)

  pub settle_answer-Safely :
      (l : TrainingPodLease) (pod : String) (t : ℕ) (r : PodRealizedPlacement)
      (answer : Option PodBillingReceipt) {base : Table}
      → Seen l base
      → Safely base Seen (settle_answer env l pod t r answer)
  unfolding settle_answer assign_all
  settle_answer-Safely l pod t r none s =
      Safely-if _ _ _ (λ _. Safely-pure-Seen l s) (λ _. Safely-compare_and_set env l _ s (λ _ h. h))
  settle_answer-Safely l pod t r (some receipt) {base} s =
      Safely-then _ _ (require-Safely _) (λ _ a ga. Safely-then _ _ (require-Safely _) (λ _ b gb.
        Safely-then _ _ (require-Safely _) (λ _ c gc.
          settle-Safely l receipt
            (Seen-Grows l b c gc (Seen-Grows l a b gb (Seen-Grows l base a ga s))))))

  pub settle_realized-Safely :
      (l : TrainingPodLease) (pod : String) (t : ℕ) (r : Option PodRealizedPlacement) {base : Table}
      → Seen l base
      → Safely base Seen (settle_realized env l pod t r)
  unfolding settle_realized assign_all
  settle_realized-Safely l pod t none s = Safely-compare_and_set env l _ s (λ _ h. h)
  settle_realized-Safely l pod t (some r) {base} s =
      Safely-then _ _ (capacity_spec-Safely l) (λ _ a ga.
        Safely-then _ _ (Safely-ask _ _) (λ answer b gb.
          settle_answer-Safely l pod t r answer (Seen-Grows l a b gb (Seen-Grows l base a ga s))))

  pub settle_pod-Safely :
      (l : TrainingPodLease) (pod : Option String) {base : Table}
      → Seen l base
      → Safely base Seen (settle_pod env l pod)
  unfolding settle_pod assign_all
  settle_pod-Safely l (some pod) {base} s =
      Safely-then _ _ (or_raise-Safely l.terminated_at)
        (λ t rows g. settle_realized-Safely l pod t _ (Seen-Grows l base rows g s))
  settle_pod-Safely l none {base} s =
      Safely-if _ _ _ (λ _. Safely-compare_and_set env l _ s (λ _ h. h))
        (λ _.
          Safely-then _ _ (zero_cost_receipt-Safely l "no-provider-capacity")
            (λ receipt rows g. settle-Safely l receipt (Seen-Grows l base rows g s)))

  pub reconcile_billing-Safely :
      (l : TrainingPodLease) {base : Table}
      → Seen l base
      → Safely base Seen (reconcile_billing env l)
  unfolding reconcile_billing
  reconcile_billing-Safely l s =
      Safely-if _ _ _ (λ _. Safely-pure-Seen l s)
        (λ _. Safely-if _ _ _ (λ _. revoke_and_release-Safely l) (λ _. settle_pod-Safely l _ s))
