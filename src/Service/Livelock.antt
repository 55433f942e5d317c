-- ===== src/Service/Livelock.antt =====
-- `_transition_with_evidence` retries every conflict, also one that no retry can resolve.
use kestrel_cloud_runpod.Prelude.{
  ℕ, zero, suc, ◌+◌, ◌≡◌, refl, String, none, some, List, [], ◌∷◌, true, false, arith, ◌==◌, ◌≢◌,
  sym, ◌∙◌, inl, inr, Bool-cases, str_eq_refl,
}
use kestrel_cloud_runpod.Capacity.States.{
  TrainingPodOwnership, TrainingPodState, TrainingPodCleanupState,
}
use kestrel_cloud_runpod.Repository.Evolution.{updated_row-SameIdentity}
use kestrel_cloud_runpod.Repository.Unique.{violates-find}
use kestrel_cloud_runpod.Capacity.Lease.{TrainingPodLease, is_terminal}
use kestrel_cloud_runpod.Capacity.Errors.{ok, raise, out_of_fuel}
use kestrel_cloud_runpod.Repository.Columns.{Change, updated_row}
use kestrel_cloud_runpod.Repository.Columns
use kestrel_cloud_runpod.Repository.Table
use kestrel_cloud_runpod.Repository.Table.{Table, find, clash, violates, lease_from_row}
use kestrel_cloud_runpod.Service.World.{
  Environment, World, Call, pure, throw, ◌>>=◌, try_except, when◌run◌otherwise◌, transact, now,
  compare_and_set, get, required, present_or_raise,
}
use kestrel_cloud_runpod.Service.Transitions.{
  Observed, unset, lift, persisted_changes, evidence_loop, transition_with_evidence,
}
use kestrel_cloud_runpod.Service.Release.{adopt}

abbrev alone : Table → ℕ → List Call → World
alone rows k calls = record { rows = rows; peers = []; ticks = k; calls = calls }

module _ (env : Environment) (cs : List Change) (seen : Observed) (lease : TrainingPodLease)
    (rows : Table) where
  spins :
      find lease.cleanup_token rows ≡ some lease
      → lease_from_row lease ≡ ok lease
      → lease.evidence ≡ none
      → is_terminal lease ≡ false
      → ((t : ℕ) → violates (updated_row t cs lease) rows ≡ true)
      → (n k : ℕ) (calls : List Call)
      → (evidence_loop env n cs seen none lease (alone rows k calls)).0 ≡ raise out_of_fuel
  unfolding evidence_loop try_except when◌run◌otherwise◌ lift ◌>>=◌ compare_and_set transact
      Table.compare_and_set Table.swap_row required get present_or_raise pure throw Table.get
      Table.decode_row persisted_changes
  spins f d e a v zero k calls = rw a refl
  spins f d e a v (suc n) k calls =
      let same : (lease.revision == lease.revision) ≡ true = ground arith in
      rw (a, e, f, same, v (env.utc_now k), f, d) (spins f d e a v n (k + 1 + 1) calls)

-- What `_resolve_uncertain_creation` writes for a Pod that it found.
abbrev adoption : String → List Change
adoption pod =
    Columns.provider_pod_id (some pod)
    ∷ Columns.ownership TrainingPodOwnership.owned
    ∷ Columns.creation_uncertain false
    ∷ Columns.state TrainingPodState.reconcile_required
    ∷ Columns.cleanup_state TrainingPodCleanupState.pending
    ∷ Columns.last_provider_error none
    ∷ []

adoption-clash :
    (t : ℕ) (pod : String) (lease rival : TrainingPodLease)
    → is_terminal rival ≡ false
    → rival.provider_pod_id ≡ some pod
    → clash (updated_row t (adoption pod) lease) rival ≡ true
unfolding clash updated_row
adoption-clash t pod lease rival a p = ground (arith, a, p, str_eq_refl pod)

adoption-violates :
    (t : ℕ) (pod : String) (lease rival : TrainingPodLease) (rows : Table)
    → find rival.cleanup_token rows ≡ some rival
    → lease.cleanup_token ≢ rival.cleanup_token
    → is_terminal rival ≡ false
    → rival.provider_pod_id ≡ some pod
    → violates (updated_row t (adoption pod) lease) rows ≡ true
adoption-violates t pod lease rival rows f n a p =
    elim (Bool-cases (violates (updated_row t (adoption pod) lease) rows)) [
      | inl v ↦ v
      | inr u ↦
          let new : TrainingPodLease = updated_row t (adoption pod) lease in
          let same : new.cleanup_token ≡ lease.cleanup_token =
            (updated_row-SameIdentity t (adoption pod) lease).cleanup_token in
          let quiet : clash new rival ≡ false =
            violates-find new rival.cleanup_token rival rows u f (λ e. n (sym same ∙ e)) in
          let loud : clash new rival ≡ true = adoption-clash t pod lease rival a p in cc
    ]

-- An active lease without evidence that stands in the table, and whose search found a Pod which another
-- active lease claims, is adopted for ever: with no other writer at work, the loop runs out of rounds
-- however many it is given.
pub adopt_never_returns :
    (env : Environment) (lease rival : TrainingPodLease) (pod : String) (rows : Table) (ticks : ℕ)
    (calls : List Call)
    → find lease.cleanup_token rows ≡ some lease
    → lease_from_row lease ≡ ok lease
    → lease.evidence ≡ none
    → is_terminal lease ≡ false
    → find rival.cleanup_token rows ≡ some rival
    → lease.cleanup_token ≢ rival.cleanup_token
    → is_terminal rival ≡ false
    → rival.provider_pod_id ≡ some pod
    → (adopt env lease pod unset
        (record { rows = rows; peers = []; ticks = ticks; calls = calls })).0
      ≡ raise out_of_fuel
unfolding adopt transition_with_evidence now ◌>>=◌
adopt_never_returns env lease rival pod rows k calls f d e a g n b p =
    spins env (adoption pod) _ lease rows f d e a
      (λ t. adoption-violates t pod lease rival rows g n b p) env.fuel (k + 1) calls
