-- ===== src/Service/Safety/Working.antt =====
-- The catalog workload revives no released row.
use kestrel_cloud_runpod.Prelude.{
  ℕ, zero, suc, ◌≡◌, subst, String, Option, none, some, List, [], ◌∷◌, Bool, inl, inr, Bool-cases,
}
use kestrel_cloud_runpod.Capacity.Evidence.{Phase, CatalogWorkerEvidence, PodCapacityEvidence}
use kestrel_cloud_runpod.Capacity.Lease.{
  TrainingPodLease, PodCapacitySpec, CatalogArtifactHandoffEvidence,
}
use kestrel_cloud_runpod.Capacity.Errors.{Result, ok, raise}
use kestrel_cloud_runpod.Repository.Columns.{Change, assign_all}
use kestrel_cloud_runpod.Repository.Table.{Table}
use kestrel_cloud_runpod.Repository.Swap.{KeepsTerminal}
use kestrel_cloud_runpod.Repository.Evolution.{Grows-refl, Seen, Seen-Grows}
use kestrel_cloud_runpod.Service.World.{Environment, Action, WorkloadObservation}
use kestrel_cloud_runpod.Service.Transitions.{lift}
use kestrel_cloud_runpod.Service.Safety.Acquiring.{safe}
use kestrel_cloud_runpod.Service.Workload.Observation.{
  protocol_refuses, handoff_eq, proof_changes, workload_changes, bound_changes, observation_changes,
}
use kestrel_cloud_runpod.Service.Workload.{
  route, catalog_result_ready, write_observation, changes_of, apply_changes, observation_loop,
  record_catalog_observation, submission_lease, submit_catalog_workload, after_observation,
  observe_catalog_workload, accept_result, retrieve_catalog_result, add_worker, check_start,
  record_catalog_worker_evidence,
}
use kestrel_cloud_runpod.Service.Safety.{
  Safely, Anything, Safely-if, Safely-try, Safely-bind, Safely-lift, Safely-compare_and_set,
  Safely-required, Safely-now,
}
use kestrel_cloud_runpod.Service.Safety.Transitions.{
  KeepsTerminal-active, Safely-pure-Seen, Safely-after_now,
}
use kestrel_cloud_runpod.Service.Safety.Settlement.{Safely-then, capacity_spec-Safely}
use kestrel_cloud_runpod.Service.Safety.Mutations.{Safely-refuse, refuse-Safely}
use kestrel_cloud_runpod.Service.Safety.Family.{release-Safely}
use kestrel_cloud_runpod.Service.Safety.Admitting.{admitted, load_capability-Safely}

ruleset working = (admitted, load_capability-Safely, release-Safely)

proof_changes-KeepsTerminal :
    (h s : Option CatalogArtifactHandoffEvidence) (l : TrainingPodLease)
    → KeepsTerminal (proof_changes h s) l
unfolding proof_changes assign_all
proof_changes-KeepsTerminal none none l now t = t
proof_changes-KeepsTerminal (some h) none l now t = t
proof_changes-KeepsTerminal none (some s) l now t = t
proof_changes-KeepsTerminal (some h) (some s) l now t = elim (Bool-cases (handoff_eq h s)) [
  | inl y ↦ rw y t
  | inr n ↦ rw n t
]

workload_changes-KeepsTerminal :
    (t : ℕ) (l : TrainingPodLease) (o : WorkloadObservation) (b : Bool) (proof : List Change)
    → KeepsTerminal proof l
    → KeepsTerminal (workload_changes t l o b proof).0 l
unfolding workload_changes
workload_changes-KeepsTerminal t l o b proof k now h = rw h (k now h)

bound_changes-KeepsTerminal :
    (t : ℕ) (l : TrainingPodLease) (o : WorkloadObservation) (b : Bool)
    (bound : Result (Option CatalogArtifactHandoffEvidence))
    {changes : List Change × List (Phase × ℕ)}
    → bound_changes t l o b bound ≡ ok changes
    → KeepsTerminal changes.0 l
unfolding bound_changes
bound_changes-KeepsTerminal t l o b (raise e) h = cc
bound_changes-KeepsTerminal t l o b (ok handoff) {changes} h =
    let proof : List Change = proof_changes handoff l.artifact_handoff in
    let same : workload_changes t l o b proof ≡ changes = cc in
    subst (λ (cs : List Change × List (Phase × ℕ)). KeepsTerminal cs.0 l) same
      (workload_changes-KeepsTerminal t l o b proof (proof_changes-KeepsTerminal handoff _ l))

observation_changes-KeepsTerminal :
    (t : ℕ) (spec : PodCapacitySpec) (l : TrainingPodLease) (o : WorkloadObservation) (b : Bool)
    {changes : List Change × List (Phase × ℕ)}
    → observation_changes t spec l o b ≡ ok changes
    → KeepsTerminal changes.0 l
unfolding observation_changes
observation_changes-KeepsTerminal t spec l o b {changes} h =
    elim (Bool-cases (protocol_refuses spec.request.artifact_handoff_protocol_version o.state)) [
      | inl y ↦ cc (rw y at h)
      | inr n ↦ bound_changes-KeepsTerminal t l o b _ (rw n at h)
    ]

-- The changes keep a released row released.
abbrev Harmless : TrainingPodLease → List Change × List (Phase × ℕ) → Table → Type 0
Harmless l changes rows = KeepsTerminal changes.0 l

Safely-lift_of :
    {A : Type 0} {Q : A → Table → Type 0} (r : Result A) {base : Table}
    → ((a : A) (rows : Table) → r ≡ ok a → Q a rows)
    → Safely base Q (lift r)
unfolding lift
Safely-lift_of r q = record {
  at = λ w rely g. record { rely = rely; grows = Grows-refl w.rows; returns = λ a e. q a w.rows e };
}

changes_of-Safely :
    (env : Environment) (l : TrainingPodLease) (o : WorkloadObservation) (b : Bool) {base : Table}
    → Safely base (Harmless l) (changes_of env l o b)
unfolding changes_of
changes_of-Safely env l o b = Safely-then _ _ (capacity_spec-Safely l) (λ spec _ _.
    Safely-refuse _ _ _ (λ _ _ _. Safely-after_now env _ (λ t _ _.
      Safely-lift_of _ (λ changes rows e. observation_changes-KeepsTerminal t spec l o b e))))

module _ (env : Environment) where
  write_observation-Safely :
      (l : TrainingPodLease) (cs : List Change) (lifecycle : List (Phase × ℕ)) {base : Table}
      → KeepsTerminal cs l
      → Seen l base
      → Safely base Seen (write_observation env l cs lifecycle)
  unfolding write_observation
  write_observation-Safely l cs lifecycle {base} k s =
      Safely-if _ _ _ (λ _. Safely-compare_and_set env l cs s k)
        (λ active. Safely-bind _ _ (Safely-lift _) (λ persisted rows g _.
          Safely-compare_and_set env l persisted (Seen-Grows l base rows g s)
            (KeepsTerminal-active persisted l active)))

  apply_changes-Safely :
      (l : TrainingPodLease) (again : Action TrainingPodLease)
      (changes : List Change × List (Phase × ℕ)) {base : Table}
      → KeepsTerminal changes.0 l
      → Seen l base
      → ((rows : Table) → Safely rows Seen again)
      → Safely base Seen (apply_changes env l again changes)
  unfolding apply_changes
  apply_changes-Safely l again ([], lifecycle) k s next = Safely-pure-Seen l s
  apply_changes-Safely l again (c ∷ cs, lifecycle) {base} k s next =
      Safely-try _ _ _ (write_observation-Safely l (c ∷ cs) lifecycle k s) (λ _. next base)

  observation_loop-Safely :
      (n : ℕ) (capacity : String) (o : WorkloadObservation) (b : Bool) (base : Table)
      → Safely base Seen (observation_loop env n capacity o b)
  unfolding observation_loop
  observation_loop-Safely zero capacity o b base = search safe
  observation_loop-Safely (suc n) capacity o b base =
      Safely-bind _ _ (Safely-required capacity) (λ l rows g s.
        Safely-bind _ _ (changes_of-Safely env l o b) (λ changes rows' g' k.
          apply_changes-Safely l _ changes k (Seen-Grows l rows rows' g' s)
            (observation_loop-Safely n capacity o b)))

  pub record_catalog_observation-Safely :
      (capacity : String) (o : WorkloadObservation) (b : Bool) {base : Table}
      → Safely base Seen (record_catalog_observation env capacity o b)
  unfolding record_catalog_observation
  record_catalog_observation-Safely capacity o b {base} =
      observation_loop-Safely env.fuel capacity o b base

  submission_lease-Safely :
      (capacity owner workload : String) {base : Table}
      → Safely base Seen (submission_lease env capacity owner workload)
  unfolding submission_lease
  submission_lease-Safely capacity owner workload = search working depth 20

  pub submit_catalog_workload-Safely :
      (capacity owner workload : String) {base : Table}
      → Safely base Anything (submit_catalog_workload env capacity owner workload)
  unfolding submit_catalog_workload route
  submit_catalog_workload-Safely capacity owner workload =
      search (working, submission_lease-Safely, record_catalog_observation-Safely) depth 20

  pub observe_catalog_workload-Safely :
      (capacity owner workload : String) {base : Table}
      → Safely base Anything (observe_catalog_workload env capacity owner workload)
  unfolding observe_catalog_workload after_observation route
  observe_catalog_workload-Safely capacity owner workload =
      search (working, record_catalog_observation-Safely) depth 20

  pub retrieve_catalog_result-Safely :
      (capacity owner workload : String) {base : Table}
      → Safely base Anything (retrieve_catalog_result env capacity owner workload)
  unfolding retrieve_catalog_result catalog_result_ready accept_result route
  retrieve_catalog_result-Safely capacity owner workload = search working depth 20

  check_start-Safely : (t : Option ℕ) {base : Table} → Safely base Anything (check_start env t)
  unfolding check_start
  check_start-Safely none = search working
  check_start-Safely (some t) = Safely-then _ _ (Safely-now env) (λ now rows g. refuse-Safely _ _)

  add_worker-Safely :
      (l : TrainingPodLease) (worker : CatalogWorkerEvidence) (e : PodCapacityEvidence)
      {base : Table}
      → Seen l base
      → Safely base Seen (add_worker env l worker e)
  unfolding add_worker
  add_worker-Safely l worker e s = search working depth 20

  pub record_catalog_worker_evidence-Safely :
      (capacity owner workload : String) (worker : CatalogWorkerEvidence) {base : Table}
      → Safely base Seen (record_catalog_worker_evidence env capacity owner workload worker)
  unfolding record_catalog_worker_evidence catalog_result_ready
  record_catalog_worker_evidence-Safely capacity owner workload worker =
      search (working, check_start-Safely, add_worker-Safely) depth 20
