-- ===== src/Service/Safety/Located.antt =====
-- The steps of `_release_one` keep to the lease that was asked for.
use kestrel_cloud_runpod.Prelude.{
  ℕ, zero, suc, ◌≡◌, sym, ap, ◌∙◌, subst, String, Option, none, some, true, false, not, is_none,
}
use kestrel_cloud_runpod.Capacity.Evidence.{PodRealizedPlacement}
use kestrel_cloud_runpod.Capacity.Lease.{TrainingPodLease, is_terminal, is_catalog_attempt}
use kestrel_cloud_runpod.Capacity.Errors.{Error, out_of_fuel}
use kestrel_cloud_runpod.Repository.Table.{Table, find}
use kestrel_cloud_runpod.Repository.Evolution.{Grows}
use kestrel_cloud_runpod.Service.World.{
  Environment, pure, throw, ◌>>=◌, when◌run◌otherwise◌, required,
}
use kestrel_cloud_runpod.Service.Transitions.{Given}
use kestrel_cloud_runpod.Service.Release.{
  adopt, nothing_created, resolve_found, resolve_uncertain_creation, count_attempt, stop_refused,
  mark_releasing, locate,
}
use kestrel_cloud_runpod.Service.Safety.{
  Safely, Safely-throw, Safely-if, Safely-try, Safely-try_else, Safely-bind,
}
use kestrel_cloud_runpod.Service.Safety.Transitions.{KeepsTerminal-active, Safely-after_now}
use kestrel_cloud_runpod.Service.Safety.Release.{search_created-Safely}
use kestrel_cloud_runpod.Service.Safety.Outcome.{
  Outcome, Outcome-Grows, Nothing, Safely-pure-Outcome, compare_and_set-Outcome, again-Outcome,
  transition_nonterminal-Outcome, transition_with_evidence-Outcome,
  record_retryable_failure-Outcome,
}

-- The row of the token has no catalog attempt.
pub record IsLegacy (token : String) (rows : Table) : Type 0 where
  pub row : TrainingPodLease
  pub found : find token rows ≡ some row
  pub capacity_spec : row.capacity_spec ≡ none

pub IsLegacy-Grows :
    (token : String) (a b : Table) → Grows a b → IsLegacy token a → IsLegacy token b
IsLegacy-Grows token a b g legacy =
    let (row, f, e) = g token legacy.row legacy.found in
    record { row = row; found = f; capacity_spec = e.identity.capacity_spec ∙ legacy.capacity_spec }

pub IsLegacy-lease :
    {P : TrainingPodLease → Type 0} (token : String) (rows : Table) (l : TrainingPodLease)
    → IsLegacy token rows
    → Outcome token P l rows
    → is_catalog_attempt l ≡ false
IsLegacy-lease token rows l legacy o =
    let (row, f, e) = o.seen in
    let same : some row ≡ some legacy.row =
      sym f ∙ ap (λ t. find t rows) o.token_of ∙ legacy.found in
    let spec : row.capacity_spec ≡ none = cc legacy.capacity_spec in
    ap (λ s. not (is_none s)) (sym e.identity.capacity_spec ∙ spec)

abbrev pub Released : TrainingPodLease → Type 0
Released l = is_terminal l ≡ true

pub forget :
    {P : TrainingPodLease → Type 0} {token : String} {l : TrainingPodLease} {rows : Table}
    → Outcome token P l rows
    → Outcome token Nothing l rows
forget o = record { seen = o.seen; token_of = o.token_of; holds = tt }

pub released :
    {token : String} {l : TrainingPodLease} {rows : Table}
    → Outcome token Nothing l rows
    → is_terminal l ≡ true
    → Outcome token Released l rows
released o t = record { seen = o.seen; token_of = o.token_of; holds = t }

module _ (env : Environment) (token : String) where
  pub adopt-Outcome :
      (l : TrainingPodLease) (pod : String) (p : Given (Option PodRealizedPlacement)) {base : Table}
      → Outcome token Nothing l base
      → Safely base (Outcome token Nothing) (adopt env l pod p)
  unfolding adopt
  adopt-Outcome l pod p {base} o = Safely-after_now env _ (λ t rows g.
      transition_with_evidence-Outcome env _ (λ _ _. tt) (λ _ _. tt) (λ _ _ _. tt) _ token l
        (Outcome-Grows l base rows g o))

  pub nothing_created-Outcome :
      (l : TrainingPodLease) (reason : String) {base : Table}
      → Outcome token Nothing l base
      → Safely base (Outcome token Nothing) (nothing_created env l reason)
  unfolding nothing_created
  nothing_created-Outcome l reason {base} o = Safely-after_now env _ (λ t rows g.
      Safely-if _ _ _
        (λ _.
          transition_nonterminal-Outcome env _ (λ _ _. tt) (λ _ _. tt) token l
            (Outcome-Grows l base rows g o))
        (λ _.
          transition_nonterminal-Outcome env _ (λ _ _. tt) (λ _ _. tt) token l
            (Outcome-Grows l base rows g o)))

  pub resolve_found-Outcome :
      (l : TrainingPodLease) (reason : String)
      (found : Option (String × Given (Option PodRealizedPlacement))) {base : Table}
      → Outcome token Nothing l base
      → Safely base (Outcome token Nothing) (resolve_found env l reason found)
  unfolding resolve_found
  resolve_found-Outcome l reason none = nothing_created-Outcome l reason
  resolve_found-Outcome l reason (some (pod, p)) = adopt-Outcome l pod p

  pub locate-Outcome :
      (reason : String) (l : TrainingPodLease) {base : Table}
      → Outcome token Nothing l base
      → Safely base (Outcome token Nothing) (locate env reason l)
  unfolding locate resolve_uncertain_creation
  locate-Outcome reason l {base} o =
      Safely-if _ _ _ (λ _. Safely-pure-Outcome l o)
        (λ _.
          Safely-bind _ _
            (Safely-try_else _ _ _ _ (search_created-Safely env l l.capacity_spec)
              (λ found rows g _.
                resolve_found-Outcome l reason found (Outcome-Grows l base rows g o))
              (λ e rows g. record_retryable_failure-Outcome env token l e _ o.token_of))
            (λ found rows g o'.
              Safely-if _ _ _ (λ _. Safely-throw _) (λ _. Safely-pure-Outcome found o')))

  pub count_attempt-Outcome :
      (n : ℕ) (l : TrainingPodLease) (base : Table)
      → Outcome token Nothing l base
      → Safely base (Outcome token Nothing) (count_attempt env n l)
  unfolding count_attempt
  count_attempt-Outcome zero l base o =
      Safely-if _ _ _ (λ _. Safely-pure-Outcome l o) (λ _. Safely-throw out_of_fuel)
  count_attempt-Outcome (suc n) l base o =
      Safely-if _ _ _ (λ _. Safely-pure-Outcome l o)
        (λ active.
          Safely-try _ _ _
            (compare_and_set-Outcome env l _ o.seen o.token_of (KeepsTerminal-active _ l active)
              (λ _. tt))
            (λ e.
              subst
                (λ t.
                  Safely base (Outcome token Nothing)
                    (required t >>= λ fresh. count_attempt env n fresh))
                (sym o.token_of) (again-Outcome token _ (count_attempt-Outcome n))))

  pub mark_releasing-Outcome :
      (l : TrainingPodLease) {base : Table}
      → Outcome token Nothing l base
      → Safely base (Outcome token Nothing) (mark_releasing env l)
  unfolding mark_releasing
  mark_releasing-Outcome l {base} o =
      Safely-if _ _ _ (λ _. Safely-pure-Outcome l o)
        (λ _. Safely-after_now env _ (λ t rows g.
          transition_nonterminal-Outcome env _ (λ _ _. tt) (λ _ _. tt) token l
            (Outcome-Grows l base rows g o)))

  -- A lease that is checked to be released, or an error.
  pub checked-Outcome :
      (l : TrainingPodLease) (e : Error) {base : Table}
      → Outcome token Nothing l base
      → Safely base (Outcome token Released) (when is_terminal l run pure l otherwise throw e)
  checked-Outcome l e o =
      Safely-if _ _ _ (λ t. Safely-pure-Outcome l (released o t)) (λ _. Safely-throw e)

  pub stop_refused-Outcome :
      (reason : String) (l : TrainingPodLease) (e : Error) {base : Table}
      → Outcome token Nothing l base
      → Safely base (Outcome token Released) (stop_refused env reason l e)
  unfolding stop_refused
  stop_refused-Outcome reason l e o =
      Safely-bind _ _ (record_retryable_failure-Outcome env token l e none o.token_of)
        (λ failed rows g o'. checked-Outcome failed _ o')
