-- ===== src/Service/Safety/Transitions.antt =====
-- The retrying transitions revive no released row, whatever other writers commit between their
-- reads and their writes.
use kestrel_cloud_runpod.Prelude.{
  ℕ, zero, suc, ◌≡◌, refl, String, Option, List, Bool, true, false, ◌||◌,
}
use kestrel_cloud_runpod.Capacity.States.{TrainingPodState}
use kestrel_cloud_runpod.Capacity.Lease.{TrainingPodLease, is_terminal}
use kestrel_cloud_runpod.Capacity.Errors.{Error, out_of_fuel}
use kestrel_cloud_runpod.Repository.Columns.{Change}
use kestrel_cloud_runpod.Repository.Table.{Table}
use kestrel_cloud_runpod.Repository.Evolution.{Grows, Seen, Seen-Grows}
use kestrel_cloud_runpod.Repository.Swap.{KeepsTerminal}
use kestrel_cloud_runpod.Service.World.{Environment, Action, pure, ◌>>=◌, now, required}
use kestrel_cloud_runpod.Service.Transitions.{
  Observed, persisted_changes, transition_loop, transition_nonterminal, evidence_loop,
  transition_with_evidence, release_unowned_claim, record_retryable_failure,
}
use kestrel_cloud_runpod.Service.Safety.{
  Safely, Safely-pure, Safely-throw, Safely-if, Safely-try, Safely-bind, Safely-now, Safely-lift,
  Safely-compare_and_set, Safely-required,
}

-- A write from an active lease revives nothing.
pub KeepsTerminal-active :
    (cs : List Change) (l : TrainingPodLease) → is_terminal l ≡ false → KeepsTerminal cs l
KeepsTerminal-active cs l n now h = cc

pub ||-false : (a b : Bool) → (a || b) ≡ false → a ≡ false
||-false true b h = cc
||-false false b h = refl

-- A lease of the table may be returned as it is.
pub Safely-pure-Seen :
    (l : TrainingPodLease) {base : Table} → Seen l base → Safely base Seen (pure l)
Safely-pure-Seen l {base} s = Safely-pure l (λ rows g. Seen-Grows l base rows g s)

-- An action behind a reading of the clock.
pub Safely-after_now :
    {A : Type 0} {Q : A → Table → Type 0} (env : Environment) (f : ℕ → Action A) {base : Table}
    → ((t : ℕ) (rows : Table) → Grows base rows → Safely rows Q (f t))
    → Safely base Q (now env >>= f)
Safely-after_now env f k = Safely-bind (now env) f (Safely-now env) (λ t rows g _. k t rows g)

-- The handler that reads the row again.
pub Safely-retry :
    (token : String) (f : TrainingPodLease → Action TrainingPodLease) {base : Table}
    → ((l : TrainingPodLease) (rows : Table) → Seen l rows → Safely rows Seen (f l))
    → Safely base Seen (required token >>= f)
Safely-retry token f k =
    Safely-bind (required token) f (Safely-required token) (λ l rows g s. k l rows s)

module _ (env : Environment) where
  pub transition_loop-Safely :
      (n : ℕ) (cs : List Change) (l : TrainingPodLease) (base : Table)
      → Seen l base
      → Safely base Seen (transition_loop env n cs l)
  unfolding transition_loop
  transition_loop-Safely zero cs l base s =
      Safely-if _ _ _ (λ _. Safely-pure-Seen l s) (λ _. Safely-throw out_of_fuel)
  transition_loop-Safely (suc n) cs l base s =
      Safely-if _ _ _ (λ _. Safely-pure-Seen l s)
        (λ active.
          Safely-try _ _ _ (Safely-compare_and_set env l cs s (KeepsTerminal-active cs l active))
            (λ e. Safely-retry _ _ (transition_loop-Safely n cs)))

  pub transition_nonterminal-Safely :
      (l : TrainingPodLease) (cs : List Change) {base : Table}
      → Seen l base
      → Safely base Seen (transition_nonterminal env l cs)
  unfolding transition_nonterminal
  transition_nonterminal-Safely l cs {base} = transition_loop-Safely env.fuel cs l base

  pub evidence_loop-Safely :
      (n : ℕ) (cs : List Change) (seen : Observed) (states : Option (TrainingPodState → Bool))
      (l : TrainingPodLease) (base : Table)
      → Seen l base
      → Safely base Seen (evidence_loop env n cs seen states l)
  unfolding evidence_loop
  evidence_loop-Safely zero cs seen states l base s =
      Safely-if _ _ _ (λ _. Safely-pure-Seen l s) (λ _. Safely-throw out_of_fuel)
  evidence_loop-Safely (suc n) cs seen states l base s =
      Safely-if _ _ _ (λ _. Safely-pure-Seen l s)
        (λ active.
          Safely-bind _ _ (Safely-lift (persisted_changes cs seen l.evidence))
            (λ persisted rows g _.
              Safely-try _ _ _
                (Safely-compare_and_set env l persisted (Seen-Grows l base rows g s)
                  (KeepsTerminal-active persisted l (||-false (is_terminal l) _ active)))
                (λ e. Safely-retry _ _ (evidence_loop-Safely n cs seen states))))

  pub transition_with_evidence-Safely :
      (l : TrainingPodLease) (cs : List Change) (seen : Observed)
      (states : Option (TrainingPodState → Bool)) {base : Table}
      → Seen l base
      → Safely base Seen (transition_with_evidence env l cs seen states)
  unfolding transition_with_evidence
  transition_with_evidence-Safely l cs seen states {base} =
      evidence_loop-Safely env.fuel cs seen states l base

  pub release_unowned_claim-Safely :
      (l : TrainingPodLease) (e : Option Error) {base : Table}
      → Seen l base
      → Safely base Seen (release_unowned_claim env l e)
  unfolding release_unowned_claim
  release_unowned_claim-Safely l e {base} s =
      Safely-after_now env _
        (λ t rows g. transition_nonterminal-Safely l _ (Seen-Grows l base rows g s))

  pub record_retryable_failure-Safely :
      (l : TrainingPodLease) (e : Error) (uncertain : Option Bool) {base : Table}
      → Safely base Seen (record_retryable_failure env l e uncertain)
  unfolding record_retryable_failure
  record_retryable_failure-Safely l e uncertain = Safely-retry _ _ (λ current rows s.
      Safely-if _ _ _ (λ _. Safely-pure-Seen current s)
        (λ _. Safely-after_now env _ (λ t rows' g.
          transition_nonterminal-Safely current _ (Seen-Grows current rows rows' g s))))
