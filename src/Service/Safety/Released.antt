-- ===== src/Service/Safety/Released.antt =====
-- `_release_one` on a lease without a catalog attempt: when it returns, the lease is released.
use kestrel_cloud_runpod.Prelude.{
  ℕ, ◌≡◌, refl, sym, ap, ◌∙◌, subst, String, none, some, [], ◌∷◌, ◌++◌, Bool, true, false, arith,
}
use kestrel_cloud_runpod.Capacity.Evidence.{PodCapacityEvidence}
use kestrel_cloud_runpod.Capacity.Lease.{TrainingPodLease, is_terminal, is_catalog_attempt}
use kestrel_cloud_runpod.Capacity.Errors.{ok}
use kestrel_cloud_runpod.Repository.Columns.{Change, updated_row}
use kestrel_cloud_runpod.Repository.Columns
use kestrel_cloud_runpod.Repository.Table.{Table, find}
use kestrel_cloud_runpod.Repository.Evolution.{Grows-refl, Grows-trans}
use kestrel_cloud_runpod.Service.World.{Environment, World, required}
use kestrel_cloud_runpod.Service.Release.{
  release_unprovisioned, stopped, stop_answer, stop_pod, release_owned, release_lease, release_one,
  awaits_billing,
}
use kestrel_cloud_runpod.Service.Safety.{Safely, Rely, Safely-if, Safely-try_else, Safely-bind}
use kestrel_cloud_runpod.Service.Safety.Transitions.{Safely-after_now}
use kestrel_cloud_runpod.Service.Safety.Release.{stop_call-Safely}
use kestrel_cloud_runpod.Service.Safety.Outcome.{
  Outcome, Outcome-Grows, Nothing, Safely-pure-Outcome, required-Outcome,
  transition_nonterminal-Outcome, transition_with_evidence-Outcome,
}
use kestrel_cloud_runpod.Service.Safety.Located.{
  IsLegacy, IsLegacy-Grows, IsLegacy-lease, Released, released, locate-Outcome,
  count_attempt-Outcome, mark_releasing-Outcome, checked-Outcome, stop_refused-Outcome,
}

module _ (env : Environment) (token : String) where
  stopped-Released :
      (t now : ℕ) (l : TrainingPodLease) → is_terminal (updated_row now (stopped false t) l) ≡ true
  unfolding stopped updated_row
  stopped-Released t now l = refl

  stopped-recorded :
      (t now : ℕ) (e : PodCapacityEvidence) (l : TrainingPodLease)
      → is_terminal (updated_row now (stopped false t ++ Columns.evidence_json (some e) ∷ []) l)
        ≡ true
  unfolding stopped updated_row
  stopped-recorded t now e l = refl

  stop_answer-Outcome :
      (reason : String) (l : TrainingPodLease) (b : Bool) {base : Table}
      → IsLegacy token base
      → Outcome token Nothing l base
      → Safely base (Outcome token Released) (stop_answer env reason l b)
  unfolding stop_answer
  stop_answer-Outcome reason l false {base} legacy o = Safely-after_now env _ (λ t rows g.
      Safely-bind _ _
        (transition_nonterminal-Outcome env _ (λ _ _. tt) (λ _ _. tt) token l
          (Outcome-Grows l base rows g o))
        (λ pending rows' g' o'. checked-Outcome env token pending _ o'))
  stop_answer-Outcome reason l true {base} legacy o = Safely-after_now env _ (λ t rows g.
      let plain : is_catalog_attempt l ≡ false = IsLegacy-lease token base l legacy o in
      let here : IsLegacy token rows = IsLegacy-Grows token base rows g legacy in
      Safely-bind _ _
        (transition_with_evidence-Outcome env (stopped (is_catalog_attempt l) t) (λ _ x. x)
          (subst
            (λ b. (now : ℕ) (x : TrainingPodLease) → Released (updated_row now (stopped b t) x))
            (sym plain) (stopped-Released t))
          (subst
            (λ b.
              (now : ℕ) (e : PodCapacityEvidence) (x : TrainingPodLease)
              → Released (updated_row now (stopped b t ++ Columns.evidence_json (some e) ∷ []) x))
            (sym plain) (stopped-recorded t))
          _ token l (Outcome-Grows l base rows g o))
        (λ done rows' g' o'.
          let no : is_catalog_attempt done ≡ false =
            IsLegacy-lease token rows' done (IsLegacy-Grows token rows rows' g' here) o' in
          Safely-if _ _ _ (λ yes. absurd (cc)) (λ _. Safely-pure-Outcome done o')))

  stop_pod-Outcome :
      (reason : String) (l : TrainingPodLease) {base : Table}
      → IsLegacy token base
      → Outcome token Nothing l base
      → Safely base (Outcome token Released) (stop_pod env reason l)
  unfolding stop_pod
  stop_pod-Outcome reason l {base} legacy o =
      Safely-bind _ _ (mark_releasing-Outcome env token l o) (λ marked a ga om.
        Safely-bind _ _ (count_attempt-Outcome env token env.fuel marked a om) (λ counted b gb oc.
          Safely-if _ _ _ (λ t. Safely-pure-Outcome counted (released oc t))
            (λ _.
              Safely-try_else _ _ _ _ (stop_call-Safely env counted)
                (λ answer c gc _.
                  stop_answer-Outcome reason counted answer
                    (IsLegacy-Grows token base c
                      (Grows-trans base b c (Grows-trans base a b ga gb) gc) legacy)
                    (Outcome-Grows counted b c gc oc))
                (λ e c gc.
                  stop_refused-Outcome env token reason counted e
                    (Outcome-Grows counted b c gc oc)))))

  release_unprovisioned-Outcome :
      (l : TrainingPodLease) {base : Table}
      → IsLegacy token base
      → Outcome token Nothing l base
      → Safely base (Outcome token Released) (release_unprovisioned env l)
  unfolding release_unprovisioned updated_row
  release_unprovisioned-Outcome l {base} legacy o = Safely-after_now env _ (λ t rows g.
      let no : is_catalog_attempt l ≡ false = IsLegacy-lease token base l legacy o in
      Safely-if _ _ _ (λ yes. absurd (cc))
        (λ _.
          transition_with_evidence-Outcome env _ (λ _ x. x) (λ _ _. refl) (λ _ _ _. refl) _ token l
            (Outcome-Grows l base rows g o)))

  release_owned-Outcome :
      (reason : String) (l : TrainingPodLease) {base : Table}
      → IsLegacy token base
      → Outcome token Nothing l base
      → Safely base (Outcome token Released) (release_owned env reason l)
  unfolding release_owned
  release_owned-Outcome reason l {base} legacy o =
      Safely-bind _ _ (locate-Outcome env token reason l o) (λ found rows g o'.
        let here : IsLegacy token rows = IsLegacy-Grows token base rows g legacy in
        Safely-if _ _ _ (λ _. release_unprovisioned-Outcome found here o')
          (λ _. stop_pod-Outcome reason found here o'))

  release_lease-Outcome :
      (reason : String) (l : TrainingPodLease) {base : Table}
      → IsLegacy token base
      → Outcome token Nothing l base
      → Safely base (Outcome token Released) (release_lease env reason l)
  unfolding release_lease updated_row
  release_lease-Outcome reason l {base} legacy o =
      let no : is_catalog_attempt l ≡ false = IsLegacy-lease token base l legacy o in
      Safely-if _ _ _ (λ t. Safely-pure-Outcome l (released o t))
        (λ _.
          Safely-if _ _ _ (λ yes. absurd (unbilled l no yes))
            (λ _.
              Safely-if _ _ _
                (λ _. Safely-after_now env _ (λ t rows g.
                  transition_nonterminal-Outcome env _ (λ _ x. x) (λ _ _. refl) token l
                    (Outcome-Grows l base rows g o)))
                (λ _. release_owned-Outcome reason l legacy o)))
    where
      unbilled :
          (l : TrainingPodLease) → is_catalog_attempt l ≡ false → awaits_billing env l ≡ true → ⊥
      unbilled l n y = ground arith

-- The whole of `_release_one`.
pub release_one-Outcome :
    (env : Environment) (token reason : String) {base : Table}
    → IsLegacy token base
    → Safely base (Outcome token Released) (release_one env token reason)
unfolding release_one
release_one-Outcome env token reason {base} legacy =
    Safely-bind (required token) (release_lease env reason) (required-Outcome token) (λ l rows g o.
      release_lease-Outcome env token reason l (IsLegacy-Grows token base rows g legacy) o)

-- A release of a lease without a catalog attempt that returns has released it, whatever the provider
-- answers and whatever writers that keep the rules of the repository run beside it: the lease that
-- is returned is the one asked for, it is released, and so is the row of the table.
pub legacy_release_releases :
    (env : Environment) (token reason : String) (w : World) {row lease : TrainingPodLease}
    → Rely w
    → find token w.rows ≡ some row
    → row.capacity_spec ≡ none
    → (release_one env token reason w).0 ≡ ok lease
    → (lease.cleanup_token ≡ token)
      × (is_terminal lease ≡ true)
      × (row' : TrainingPodLease) × (find token (release_one env token reason w).1.rows ≡ some row')
      × (is_terminal row' ≡ true)
unfolding release_one
legacy_release_releases env token reason w {row} {lease} r f spec h =
    let legacy : IsLegacy token w.rows = record { row = row; found = f; capacity_spec = spec } in
    let safe = (release_one-Outcome env token reason legacy).at w r (Grows-refl w.rows) in
    let o : Outcome token Released lease _ = safe.returns lease h in
    let (row', found, e) = o.seen in
    (
      o.token_of,
      o.holds,
      row',
      ap (λ t. find t (release_one env token reason w).1.rows) (sym o.token_of) ∙ found,
      e.terminal o.holds,
    )
