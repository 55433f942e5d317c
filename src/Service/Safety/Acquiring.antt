-- ===== src/Service/Safety/Acquiring.antt =====
-- Acquisition and readiness revive no released row.
use kestrel_cloud_runpod.Prelude.{◌≡◌, String, Option, List, Bool, false}
use kestrel_cloud_runpod.Capacity.Lease.{TrainingPodLease, is_terminal}
use kestrel_cloud_runpod.Capacity.Errors.{Error, cancelled}
use kestrel_cloud_runpod.Repository.Columns.{Change, assign_all}
use kestrel_cloud_runpod.Repository.Table.{Table}
use kestrel_cloud_runpod.Repository.Evolution.{Grows, Seen, Seen-Grows}
use kestrel_cloud_runpod.Service.World.{Environment, Action, pure, try_else, ◌>>=◌, compare_and_set}
use kestrel_cloud_runpod.Service.Safety.{
  Safely, Anything, Safely-pure, Safely-throw, Safely-if, Safely-try, Safely-try_else, Safely-bind,
  Safely-ask, Safely-now, Safely-lift, Safely-required, Safely-compare_and_set,
}
use kestrel_cloud_runpod.Service.Safety.Transitions.{
  KeepsTerminal-active, Safely-after_now, Safely-retry, Safely-pure-Seen,
  transition_nonterminal-Safely, transition_with_evidence-Safely, release_unowned_claim-Safely,
  record_retryable_failure-Safely,
}
use kestrel_cloud_runpod.Service.Safety.Settlement.{
  Safely-then, require-Safely, or_raise-Safely, capacity_spec-Safely, zero_cost_receipt-Safely,
  revoke_and_release-Safely, reconcile_billing-Safely,
}
use kestrel_cloud_runpod.Service.Safety.Release.{release_one-Safely}
use kestrel_cloud_runpod.Service.Release.{pod_id}
use kestrel_cloud_runpod.Service.Acquire.{
  cleanup_cancelled, raise_after_cleanup, disclaim, discovery_failed, start_failed, started,
  start_stopped, adopt_running, acquire_observed, acquire_existing, create_mismatched,
  create_ambiguous, reject_catalog, reject_training, create_rejected, create_failed, create_pod,
  create_accepted, acquire_created,
}

-- An action behind one that returns a row of the table.
pub Safely-behind :
    {B : Type 0} {R : B → Table → Type 0} {base : Table} (m : Action TrainingPodLease)
    (f : TrainingPodLease → Action B)
    → Safely base Seen m
    → ((l : TrainingPodLease) (rows : Table) → Grows base rows → Seen l rows → Safely rows R (f l))
    → Safely base R (m >>= f)
Safely-behind = Safely-bind

-- An `else` clause behind a `try` block that claims nothing.
pub Safely-attempt :
    {A B : Type 0} {R : B → Table → Type 0} {base : Table} (m : Action A) (f : A → Action B)
    (p : Error → Bool) (h : Error → Action B)
    → Safely base Anything m
    → ((a : A) (rows : Table) → Grows base rows → Safely rows R (f a))
    → ((e : Error) (rows : Table) → Grows base rows → Safely rows R (h e))
    → Safely base R (try_else m f p h)
Safely-attempt m f p h s k l = Safely-try_else m f p h s (λ a rows g _. k a rows g) l

pub Safely-attempt_behind :
    {B : Type 0} {R : B → Table → Type 0} {base : Table} (m : Action TrainingPodLease)
    (f : TrainingPodLease → Action B) (p : Error → Bool) (h : Error → Action B)
    → Safely base Seen m
    → ((l : TrainingPodLease) (rows : Table) → Grows base rows → Seen l rows → Safely rows R (f l))
    → ((e : Error) (rows : Table) → Grows base rows → Safely rows R (h e))
    → Safely base R (try_else m f p h)
Safely-attempt_behind = Safely-try_else

pub Safely-settled : {B : Type 0} {base : Table} (b : B) → Safely base Anything (pure b)
Safely-settled b = Safely-pure b (λ _ _. tt)

-- A write from an active row.
pub Safely-write :
    (env : Environment) (l : TrainingPodLease) (cs : List Change) {base : Table}
    → Seen l base
    → is_terminal l ≡ false
    → Safely base Seen (compare_and_set env l cs)
Safely-write env l cs s a = Safely-compare_and_set env l cs s (KeepsTerminal-active cs l a)

pub ruleset safe = (
  Safely-pure-Seen, Safely-throw, Safely-if, Safely-try, Safely-attempt, Safely-attempt_behind,
  Safely-behind, Safely-then, Safely-settled, Safely-ask, Safely-now, Safely-lift, Safely-required,
  require-Safely, or_raise-Safely, capacity_spec-Safely, Seen-Grows,
  transition_with_evidence-Safely, release_unowned_claim-Safely, record_retryable_failure-Safely,
  zero_cost_receipt-Safely, revoke_and_release-Safely, release_one-Safely, Safely-write,
)

module _ (env : Environment) where
  pub cleanup_cancelled-Safely :
      {A : Type 0} {Q : A → Table → Type 0} {base : Table} (l : TrainingPodLease)
      (operation : String)
      → Safely base Q (cleanup_cancelled env {A = A} l operation)
  unfolding cleanup_cancelled
  cleanup_cancelled-Safely l operation = search safe

  pub raise_after_cleanup-Safely :
      {A : Type 0} {Q : A → Table → Type 0} {base : Table} (l : TrainingPodLease)
      (operation : String)
      → Safely base Q (raise_after_cleanup env {A = A} l operation)
  unfolding raise_after_cleanup
  raise_after_cleanup-Safely l operation = search safe

  disclaim-Safely :
      {A : Type 0} {Q : A → Table → Type 0} {base : Table} (l : TrainingPodLease)
      (operation : String) (e : Option Error)
      → Seen l base
      → Safely base Q (disclaim env {A = A} l operation e)
  unfolding disclaim
  disclaim-Safely l operation e s = search safe

  discovery_failed-Safely :
      {base : Table} (l : TrainingPodLease) (e : Error)
      → Seen l base
      → Safely base Seen (discovery_failed env l e)
  unfolding discovery_failed
  discovery_failed-Safely l cancelled s = search safe
  discovery_failed-Safely l _ s = search disclaim-Safely

  started-Safely : {base : Table} (l : TrainingPodLease) → Safely base Seen (started env l)
  unfolding started assign_all
  started-Safely l = Safely-retry _ _ (λ current rows s. Safely-after_now env _ (λ t rows' g.
      Safely-compare_and_set env current _ (Seen-Grows current rows rows' g s) (λ _ h. h)))

  start_failed-Safely :
      {base : Table} (l : TrainingPodLease) (e : Error) → Safely base Seen (start_failed env l e)
  unfolding start_failed
  start_failed-Safely l cancelled = cleanup_cancelled-Safely l _
  start_failed-Safely l _ = search safe depth 12

  start_stopped-Safely :
      {base : Table} (l : TrainingPodLease) (pod : String)
      → Seen l base
      → is_terminal l ≡ false
      → Safely base Seen (start_stopped env l pod)
  unfolding start_stopped
  start_stopped-Safely l pod s a = search (safe, started-Safely, start_failed-Safely) depth 12

  adopt_running-Safely :
      {base : Table} (l : TrainingPodLease) (url : Option String)
      → Seen l base
      → is_terminal l ≡ false
      → Safely base Seen (adopt_running env l url)
  unfolding adopt_running
  adopt_running-Safely l url s a = search safe depth 12

  pub acquire_existing-Safely :
      {base : Table} (l : TrainingPodLease)
      → Seen l base
      → is_terminal l ≡ false
      → Safely base Seen (acquire_existing env l)
  unfolding acquire_existing acquire_observed pod_id
  acquire_existing-Safely l s a =
      search
        (safe, adopt_running-Safely, start_stopped-Safely, disclaim-Safely, discovery_failed-Safely)
        depth 20

  create_failed-Safely :
      {base : Table} (l : TrainingPodLease) (e : Error)
      → Seen l base
      → Safely base Seen (create_failed env l e)
  unfolding create_failed create_mismatched create_ambiguous create_rejected reject_catalog
      reject_training
  create_failed-Safely l cancelled s = search (safe, cleanup_cancelled-Safely) depth 12
  create_failed-Safely l _ s = search safe depth 20

  pub acquire_created-Safely :
      {base : Table} (l : TrainingPodLease)
      → Seen l base
      → is_terminal l ≡ false
      → Safely base Seen (acquire_created env l)
  unfolding acquire_created create_pod create_accepted
  acquire_created-Safely l s a = search (safe, create_failed-Safely) depth 20
