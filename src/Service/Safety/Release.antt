-- ===== src/Service/Safety/Release.antt =====
-- Teardown of one lease revives no released row.
use kestrel_cloud_runpod.Prelude.{ℕ, zero, suc, String, Option, none, some, Bool, true, false}
use kestrel_cloud_runpod.Capacity.Evidence.{PodRealizedPlacement}
use kestrel_cloud_runpod.Capacity.Lease.{TrainingPodLease, PodCapacitySpec}
use kestrel_cloud_runpod.Capacity.Errors.{Error, out_of_fuel}
use kestrel_cloud_runpod.Repository.Table.{Table}
use kestrel_cloud_runpod.Repository.Evolution.{Seen, Seen-Grows}
use kestrel_cloud_runpod.Service.World.{Environment}
use kestrel_cloud_runpod.Service.Transitions.{Given}
use kestrel_cloud_runpod.Service.Release.{
  pod_id, search_created, adopt, nothing_created, resolve_found, resolve_uncertain_creation,
  settle_unprovisioned, release_unprovisioned, count_attempt, stop_call, stop_answer, stop_refused,
  mark_releasing, stop_pod, locate, release_owned, release_lease, release_one,
}
use kestrel_cloud_runpod.Service.Safety.{
  Safely, Anything, Safely-pure, Safely-throw, Safely-if, Safely-try, Safely-try_else, Safely-bind,
  Safely-ask, Safely-compare_and_set,
}
use kestrel_cloud_runpod.Service.Safety.Transitions.{
  KeepsTerminal-active, Safely-pure-Seen, Safely-after_now, Safely-retry,
  transition_nonterminal-Safely, transition_with_evidence-Safely, record_retryable_failure-Safely,
}
use kestrel_cloud_runpod.Service.Safety.Settlement.{
  Safely-then, or_raise-Safely, zero_cost_receipt-Safely, revoke_and_release-Safely,
  reconcile_billing-Safely,
}

pub pod_id-Safely : (l : TrainingPodLease) {base : Table} → Safely base Anything (pod_id l)
unfolding pod_id
pod_id-Safely l = or_raise-Safely _

module _ (env : Environment) where
  pub search_created-Safely :
      (l : TrainingPodLease) (spec : Option PodCapacitySpec) {base : Table}
      → Safely base Anything (search_created env l spec)
  unfolding search_created
  search_created-Safely l (some spec) =
      Safely-then _ _ (Safely-ask _ _) (λ _ _ _. Safely-pure _ (λ _ _. tt))
  search_created-Safely l none =
      Safely-then _ _ (Safely-ask _ _) (λ _ _ _. Safely-pure _ (λ _ _. tt))

  adopt-Safely :
      (l : TrainingPodLease) (pod : String) (p : Given (Option PodRealizedPlacement)) {base : Table}
      → Seen l base
      → Safely base Seen (adopt env l pod p)
  unfolding adopt
  adopt-Safely l pod p {base} s =
      Safely-after_now env _
        (λ t rows g. transition_with_evidence-Safely env l _ _ none (Seen-Grows l base rows g s))

  nothing_created-Safely :
      (l : TrainingPodLease) (reason : String) {base : Table}
      → Seen l base
      → Safely base Seen (nothing_created env l reason)
  unfolding nothing_created
  nothing_created-Safely l reason {base} s = Safely-after_now env _ (λ t rows g.
      Safely-if _ _ _ (λ _. transition_nonterminal-Safely env l _ (Seen-Grows l base rows g s))
        (λ _. transition_nonterminal-Safely env l _ (Seen-Grows l base rows g s)))

  resolve_found-Safely :
      (l : TrainingPodLease) (reason : String)
      (found : Option (String × Given (Option PodRealizedPlacement))) {base : Table}
      → Seen l base
      → Safely base Seen (resolve_found env l reason found)
  unfolding resolve_found
  resolve_found-Safely l reason none s = nothing_created-Safely l reason s
  resolve_found-Safely l reason (some (pod, p)) s = adopt-Safely l pod p s

  pub resolve_uncertain_creation-Safely :
      (l : TrainingPodLease) (reason : String) {base : Table}
      → Seen l base
      → Safely base Seen (resolve_uncertain_creation env l reason)
  unfolding resolve_uncertain_creation
  resolve_uncertain_creation-Safely l reason {base} s =
      Safely-try_else _ _ _ _ (search_created-Safely l l.capacity_spec)
        (λ found rows g _. resolve_found-Safely l reason found (Seen-Grows l base rows g s))
        (λ e rows g. record_retryable_failure-Safely env l e (some true))

  settle_unprovisioned-Safely :
      (l : TrainingPodLease) (t : ℕ) {base : Table}
      → Seen l base
      → Safely base Seen (settle_unprovisioned env l t)
  unfolding settle_unprovisioned
  settle_unprovisioned-Safely l t {base} s =
      Safely-then _ _ (zero_cost_receipt-Safely env l "no-provider-capacity") (λ receipt rows g.
        Safely-bind _ _
          (transition_with_evidence-Safely env l _ _ none (Seen-Grows l base rows g s))
          (λ released rows' g' s'.
            Safely-if _ _ _ (λ _. revoke_and_release-Safely env released)
              (λ _. Safely-pure-Seen released s')))

  release_unprovisioned-Safely :
      (l : TrainingPodLease) {base : Table}
      → Seen l base
      → Safely base Seen (release_unprovisioned env l)
  unfolding release_unprovisioned
  release_unprovisioned-Safely l {base} s = Safely-after_now env _ (λ t rows g.
      Safely-if _ _ _ (λ _. settle_unprovisioned-Safely l t (Seen-Grows l base rows g s))
        (λ _. transition_with_evidence-Safely env l _ _ none (Seen-Grows l base rows g s)))

  count_attempt-Safely :
      (n : ℕ) (l : TrainingPodLease) (base : Table)
      → Seen l base
      → Safely base Seen (count_attempt env n l)
  unfolding count_attempt
  count_attempt-Safely zero l base s =
      Safely-if _ _ _ (λ _. Safely-pure-Seen l s) (λ _. Safely-throw out_of_fuel)
  count_attempt-Safely (suc n) l base s =
      Safely-if _ _ _ (λ _. Safely-pure-Seen l s)
        (λ active.
          Safely-try _ _ _ (Safely-compare_and_set env l _ s (KeepsTerminal-active _ l active))
            (λ e. Safely-retry _ _ (count_attempt-Safely n)))

  pub stop_call-Safely :
      (l : TrainingPodLease) {base : Table} → Safely base Anything (stop_call env l)
  unfolding stop_call
  stop_call-Safely l =
      Safely-then _ _ (pod_id-Safely l)
        (λ pod _ _. Safely-if _ _ _ (λ _. Safely-ask _ _) (λ _. Safely-ask _ _))

  stop_answer-Safely :
      (reason : String) (l : TrainingPodLease) (confirmed : Bool) {base : Table}
      → Seen l base
      → Safely base Seen (stop_answer env reason l confirmed)
  unfolding stop_answer
  stop_answer-Safely reason l false {base} s = Safely-after_now env _ (λ t rows g.
      Safely-bind _ _ (transition_nonterminal-Safely env l _ (Seen-Grows l base rows g s))
        (λ pending rows' g' s'.
          Safely-if _ _ _ (λ _. Safely-pure-Seen pending s') (λ _. Safely-throw _)))
  stop_answer-Safely reason l true {base} s = Safely-after_now env _ (λ t rows g.
      Safely-bind _ _ (transition_with_evidence-Safely env l _ _ none (Seen-Grows l base rows g s))
        (λ released rows' g' s'.
          Safely-if _ _ _ (λ _. reconcile_billing-Safely env released s')
            (λ _. Safely-pure-Seen released s')))

  stop_refused-Safely :
      (reason : String) (l : TrainingPodLease) (e : Error) {base : Table}
      → Safely base Seen (stop_refused env reason l e)
  unfolding stop_refused
  stop_refused-Safely reason l e =
      Safely-bind _ _ (record_retryable_failure-Safely env l e none)
        (λ failed rows g s. Safely-if _ _ _ (λ _. Safely-pure-Seen failed s) (λ _. Safely-throw _))

  mark_releasing-Safely :
      (l : TrainingPodLease) {base : Table} → Seen l base → Safely base Seen (mark_releasing env l)
  unfolding mark_releasing
  mark_releasing-Safely l {base} s =
      Safely-if _ _ _ (λ _. Safely-pure-Seen l s)
        (λ _.
          Safely-after_now env _
            (λ t rows g. transition_nonterminal-Safely env l _ (Seen-Grows l base rows g s)))

  stop_pod-Safely :
      (reason : String) (l : TrainingPodLease) {base : Table}
      → Seen l base
      → Safely base Seen (stop_pod env reason l)
  unfolding stop_pod
  stop_pod-Safely reason l s = Safely-bind _ _ (mark_releasing-Safely l s) (λ marked rows _ s'.
      Safely-bind _ _ (count_attempt-Safely env.fuel marked rows s') (λ counted rows' _ s''.
        Safely-if _ _ _ (λ _. Safely-pure-Seen counted s'')
          (λ _.
            Safely-try_else _ _ _ _ (stop_call-Safely counted)
              (λ confirmed u g _.
                stop_answer-Safely reason counted confirmed (Seen-Grows counted rows' u g s''))
              (λ e u g. stop_refused-Safely reason counted e))))

  locate-Safely :
      (reason : String) (l : TrainingPodLease) {base : Table}
      → Seen l base
      → Safely base Seen (locate env reason l)
  unfolding locate
  locate-Safely reason l s =
      Safely-if _ _ _ (λ _. Safely-pure-Seen l s)
        (λ _. Safely-bind _ _ (resolve_uncertain_creation-Safely l reason s) (λ found rows g s'.
          Safely-if _ _ _ (λ _. Safely-throw _) (λ _. Safely-pure-Seen found s')))

  release_owned-Safely :
      (reason : String) (l : TrainingPodLease) {base : Table}
      → Seen l base
      → Safely base Seen (release_owned env reason l)
  unfolding release_owned
  release_owned-Safely reason l s =
      Safely-bind _ _ (locate-Safely reason l s) (λ resolved rows g s'.
        Safely-if _ _ _ (λ _. release_unprovisioned-Safely resolved s')
          (λ _. stop_pod-Safely reason resolved s'))

  pub release_lease-Safely :
      (reason : String) (l : TrainingPodLease) {base : Table}
      → Seen l base
      → Safely base Seen (release_lease env reason l)
  unfolding release_lease
  release_lease-Safely reason l {base} s =
      Safely-if _ _ _ (λ _. Safely-pure-Seen l s)
        (λ _.
          Safely-if _ _ _ (λ _. reconcile_billing-Safely env l s)
            (λ _.
              Safely-if _ _ _
                (λ _.
                  Safely-after_now env _ (λ t rows g.
                    transition_nonterminal-Safely env l _ (Seen-Grows l base rows g s)))
                (λ _. release_owned-Safely reason l s)))

  -- Teardown of one lease, whatever the provider answers and whatever other writers commit in
  -- between: no row is lost, every row keeps its identity, revisions only grow, a released row stays
  -- released, and a lease that is returned is the row of the table.
  pub release_one-Safely :
      (cleanup_token reason : String) {base : Table}
      → Safely base Seen (release_one env cleanup_token reason)
  unfolding release_one
  release_one-Safely token reason =
      Safely-retry token (release_lease env reason) (λ l rows s. release_lease-Safely reason l s)
