-- ===== src/Service/Safety/Mutations.antt =====
-- The single-write operations revive no released row.
use kestrel_cloud_runpod.Prelude.{ℕ, zero, suc, ◌≡◌, refl, String, Bool, true, false, not, ◌||◌}
use kestrel_cloud_runpod.Capacity.States.{
  TrainingPodState, is_released, is_ready, is_job_submitted, is_job_completed,
}
use kestrel_cloud_runpod.Capacity.Lease.{TrainingPodLease}
use kestrel_cloud_runpod.Capacity.Errors.{Error, out_of_fuel}
use kestrel_cloud_runpod.Repository.Columns.{assign_all}
use kestrel_cloud_runpod.Repository.Table.{Table}
use kestrel_cloud_runpod.Repository.Evolution.{Grows, Seen, Seen-Grows}
use kestrel_cloud_runpod.Service.World.{Environment, Action, ◌>>=◌}
use kestrel_cloud_runpod.Service.Mutations.{
  refuse, heartbeat, record_job, record_operation_error, record_status, record_result_retrieved,
  request_cancellation, request_loop, mark_family_release_requested, complete_loop,
  mark_family_release_complete,
}
use kestrel_cloud_runpod.Service.Safety.{
  Anything, Safely, Safely-pure, Safely-throw, Safely-if, Safely-try, Safely-bind,
  Safely-compare_and_set,
}
use kestrel_cloud_runpod.Service.Safety.Transitions.{
  KeepsTerminal-active, Safely-pure-Seen, Safely-after_now, Safely-retry,
  transition_nonterminal-Safely,
}
use kestrel_cloud_runpod.Service.Safety.Settlement.{Safely-then}

-- What follows a refusal knows that the test was false.
pub Safely-refuse :
    {B : Type 0} {Q : B → Table → Type 0} (b : Bool) (e : Error) (f : Unit {0} → Action B)
    {base : Table}
    → (b ≡ false → (rows : Table) → Grows base rows → Safely rows Q (f tt))
    → Safely base Q (refuse b e >>= f)
unfolding refuse
Safely-refuse true e f k = Safely-bind {Q = λ _ _. ⊥} _ _ (Safely-throw e) (λ _ rows g x. absurd x)
Safely-refuse false e f k = Safely-then _ _ (Safely-pure tt (λ _ _. tt)) (λ _ rows g. k refl rows g)

pub refuse-Safely : (b : Bool) (e : Error) {base : Table} → Safely base Anything (refuse b e)
unfolding refuse
refuse-Safely true e = Safely-throw e
refuse-Safely false e = Safely-pure tt (λ _ _. tt)

-- States in which a row is active.
ready-active :
    (s : TrainingPodState) → not (is_ready s || is_job_submitted s) ≡ false → is_released s ≡ false
ready-active TrainingPodState.released h = cc
ready-active _ h = refl

submitted-active :
    (s : TrainingPodState)
    → not (is_job_submitted s || is_job_completed s) ≡ false
    → is_released s ≡ false
submitted-active TrainingPodState.released h = cc
submitted-active _ h = refl

module _ (env : Environment) where
  -- A heartbeat keeps every released row released, and what it returns is the row of the table.
  pub heartbeat-Safely : (token : String) {base : Table} → Safely base Seen (heartbeat env token)
  unfolding heartbeat
  heartbeat-Safely token = Safely-retry _ _ (λ l rows s. Safely-refuse _ _ _ (λ active a ga.
      Safely-after_now env _ (λ t b gb.
        Safely-compare_and_set env l _ (Seen-Grows l a b gb (Seen-Grows l rows a ga s))
          (KeepsTerminal-active _ l active))))

  pub record_job-Safely :
      (token job : String) {base : Table} → Safely base Seen (record_job env token job)
  unfolding record_job
  record_job-Safely token job = Safely-refuse _ _ _ (λ _ _ _. Safely-retry _ _ (λ l rows s.
      Safely-refuse _ _ _ (λ _ a ga. Safely-refuse _ _ _ (λ ready b gb.
        Safely-refuse _ _ _ (λ _ c gc. Safely-after_now env _ (λ t d gd.
          Safely-compare_and_set env l _
            (Seen-Grows l c d gd
              (Seen-Grows l b c gc (Seen-Grows l a b gb (Seen-Grows l rows a ga s))))
            (KeepsTerminal-active _ l (ready-active l.state ready))))))))

  pub record_operation_error-Safely :
      (token : String) (e : Error) {base : Table}
      → Safely base Seen (record_operation_error env token e)
  unfolding record_operation_error
  record_operation_error-Safely token e = Safely-retry _ _ (λ l rows s.
      Safely-if _ _ _ (λ _. Safely-pure-Seen l s)
        (λ _.
          Safely-after_now env _
            (λ t a g. transition_nonterminal-Safely env l _ (Seen-Grows l rows a g s))))

  pub record_status-Safely :
      (token status : String) {base : Table} → Safely base Seen (record_status env token status)
  unfolding record_status
  record_status-Safely token status = Safely-retry _ _ (λ l rows s. Safely-refuse _ _ _ (λ _ a ga.
      Safely-if _ _ _ (λ _. Safely-pure-Seen l (Seen-Grows l rows a ga s))
        (λ _. Safely-after_now env _ (λ t b gb.
          transition_nonterminal-Safely env l _ (Seen-Grows l a b gb (Seen-Grows l rows a ga s))))))

  pub record_result_retrieved-Safely :
      (token : String) {base : Table} → Safely base Seen (record_result_retrieved env token)
  unfolding record_result_retrieved
  record_result_retrieved-Safely token = Safely-retry _ _ (λ l rows s.
      Safely-refuse _ _ _ (λ _ a ga. Safely-refuse _ _ _ (λ submitted b gb.
        Safely-after_now env _ (λ t c gc.
          Safely-compare_and_set env l _
            (Seen-Grows l b c gc (Seen-Grows l a b gb (Seen-Grows l rows a ga s)))
            (KeepsTerminal-active _ l (submitted-active l.state submitted))))))

  pub request_cancellation-Safely :
      (token : String) {base : Table} → Safely base Seen (request_cancellation env token)
  unfolding request_cancellation
  request_cancellation-Safely token = Safely-retry _ _ (λ l rows s.
      Safely-if _ _ _ (λ _. Safely-pure-Seen l s)
        (λ active. Safely-after_now env _ (λ t a g.
          Safely-compare_and_set env l _ (Seen-Grows l rows a g s)
            (KeepsTerminal-active _ l active))))

  request_loop-Safely :
      (n : ℕ) (l : TrainingPodLease) (base : Table)
      → Seen l base
      → Safely base Seen (request_loop env n l)
  unfolding request_loop assign_all
  request_loop-Safely zero l base s =
      Safely-if _ _ _ (λ _. Safely-pure-Seen l s) (λ _. Safely-throw out_of_fuel)
  request_loop-Safely (suc n) l base s =
      Safely-if _ _ _ (λ _. Safely-pure-Seen l s)
        (λ _.
          Safely-try _ _ _
            (Safely-after_now env _
              (λ t a g. Safely-compare_and_set env l _ (Seen-Grows l base a g s) (λ _ h. h)))
            (λ e. Safely-retry _ _ (request_loop-Safely n)))

  pub mark_family_release_requested-Safely :
      (l : TrainingPodLease) {base : Table} → Safely base Seen (mark_family_release_requested env l)
  unfolding mark_family_release_requested
  mark_family_release_requested-Safely l = Safely-retry _ _ (request_loop-Safely env.fuel)

  complete_loop-Safely :
      (n : ℕ) (l : TrainingPodLease) (base : Table)
      → Seen l base
      → Safely base Seen (complete_loop env n l)
  unfolding complete_loop assign_all
  complete_loop-Safely zero l base s =
      Safely-if _ _ _ (λ _. Safely-pure-Seen l s) (λ _. Safely-throw out_of_fuel)
  complete_loop-Safely (suc n) l base s =
      Safely-if _ _ _ (λ _. Safely-pure-Seen l s)
        (λ _.
          Safely-try _ _ _
            (Safely-after_now env _
              (λ t a g. Safely-compare_and_set env l _ (Seen-Grows l base a g s) (λ _ h. h)))
            (λ e. Safely-retry _ _ (complete_loop-Safely n)))

  pub mark_family_release_complete-Safely :
      (l : TrainingPodLease) {base : Table} → Safely base Seen (mark_family_release_complete env l)
  unfolding mark_family_release_complete
  mark_family_release_complete-Safely l = Safely-retry _ _ (complete_loop-Safely env.fuel)
