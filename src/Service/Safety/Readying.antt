-- ===== src/Service/Safety/Readying.antt =====
-- Readiness revives no released row.
use kestrel_cloud_runpod.Prelude.{
  ℕ, zero, suc, ◌≡◌, ap, ◌∙◌, String, Option, none, some, Bool, true, false,
}
use kestrel_cloud_runpod.Capacity.States.{TrainingPodSource}
use kestrel_cloud_runpod.Capacity.Lease.{TrainingPodLease, TrainingPodRequest, is_terminal}
use kestrel_cloud_runpod.Capacity.Errors.{Error, cancelled, lifecycle_error, cleanup_error, ok}
use kestrel_cloud_runpod.Repository.Table.{Table}
use kestrel_cloud_runpod.Repository.Evolution.{Seen, Seen-Grows}
use kestrel_cloud_runpod.Service.World.{Environment, Observation, pure, try_else, transact}
use kestrel_cloud_runpod.Repository.Reserve
use kestrel_cloud_runpod.Repository.Unique.{reserve-Grows}
use kestrel_cloud_runpod.Repository.Once.{reserve_inserted}
use kestrel_cloud_runpod.Service.Release.{pod_id}
use kestrel_cloud_runpod.Service.Safety.Mutations.{Safely-refuse, heartbeat-Safely}
use kestrel_cloud_runpod.Service.Acquire.{is_handled, profile}
use kestrel_cloud_runpod.Service.Readiness.{
  sleep_interrupted, Probe, returned, proceed, enforce_readiness_deadline, unhealthy, check_health,
  assess, record_observed, probe, probe_failed, promote, probed, observe_readiness, wait_loop,
  wait_ready, reuse, provision, claimed, acquire_reserved,
}
use kestrel_cloud_runpod.Service.Safety.{
  Safely, Safely-pure, Safely-throw, Safely-if, Safely-bind, Safely-try_else, transact-Safe,
}
use kestrel_cloud_runpod.Service.Safety.Acquiring.{
  safe, acquire_created-Safely, acquire_existing-Safely, cleanup_cancelled-Safely,
  raise_after_cleanup-Safely,
}

-- The lease of a probe is a row of the table.
abbrev pub SeenProbe : Probe → Table → Type 0
SeenProbe (returned l) rows = Seen l rows
SeenProbe (proceed l) rows = Seen l rows

Safely-returned :
    (l : TrainingPodLease) {base : Table} → Seen l base → Safely base SeenProbe (pure (returned l))
Safely-returned l {base} s = Safely-pure (returned l) (λ rows g. Seen-Grows l base rows g s)

Safely-proceed :
    (l : TrainingPodLease) {base : Table} → Seen l base → Safely base SeenProbe (pure (proceed l))
Safely-proceed l {base} s = Safely-pure (proceed l) (λ rows g. Seen-Grows l base rows g s)

ruleset ready =
    (safe, cleanup_cancelled-Safely, raise_after_cleanup-Safely, Safely-returned, Safely-proceed)

module _ (env : Environment) where
  enforce_readiness_deadline-Safely :
      {base : Table} (l : TrainingPodLease)
      → Seen l base
      → Safely base Seen (enforce_readiness_deadline env l)
  unfolding enforce_readiness_deadline
  enforce_readiness_deadline-Safely l s = search ready depth 12

  unhealthy-Safely :
      {base : Table} (l : TrainingPodLease) (e : Error) → Safely base SeenProbe (unhealthy env l e)
  unfolding unhealthy
  unhealthy-Safely l e = search ready depth 20

  check_health-Safely :
      {base : Table} (l : TrainingPodLease) (url : Option String)
      → Seen l base
      → Safely base SeenProbe (check_health env l url)
  unfolding check_health
  check_health-Safely l none s = search ready
  check_health-Safely l (some url) s = search (ready, unhealthy-Safely) depth 20

  assess-Safely :
      {base : Table} (l : TrainingPodLease) (o : Observation)
      → Seen l base
      → Safely base SeenProbe (assess env l o)
  unfolding assess
  assess-Safely l o s = search (ready, check_health-Safely) depth 20

  probe-Safely : {base : Table} (l : TrainingPodLease) → Safely base SeenProbe (probe env l)
  unfolding probe record_observed pod_id
  probe-Safely l = search (ready, assess-Safely) depth 24

  probe_failed-Safely :
      {base : Table} (l : TrainingPodLease) (e : Error) → Safely base Seen (probe_failed env l e)
  unfolding probe_failed
  probe_failed-Safely l cancelled = cleanup_cancelled-Safely env l _
  probe_failed-Safely l (lifecycle_error f) = search safe
  probe_failed-Safely l (cleanup_error f) = search safe
  probe_failed-Safely l _ = search ready depth 12

  promote-Safely : {base : Table} (l : TrainingPodLease) → Safely base Seen (promote env l)
  unfolding promote
  promote-Safely l = search (ready, enforce_readiness_deadline-Safely) depth 20

  probed-Safely : {base : Table} (p : Probe) → SeenProbe p base → Safely base Seen (probed env p)
  unfolding probed
  probed-Safely (returned l) s = search safe
  probed-Safely (proceed l) s = promote-Safely l

  pub observe_readiness-Safely :
      {base : Table} (l : TrainingPodLease) → Safely base Seen (observe_readiness env l)
  unfolding observe_readiness
  observe_readiness-Safely l =
      search (ready, enforce_readiness_deadline-Safely, Safely-probing) depth 20
    where
      Safely-probing :
          {base : Table} (l : TrainingPodLease)
          → Safely base Seen (try_else (probe env l) (probed env) is_handled (probe_failed env l))
      Safely-probing l =
          Safely-try_else _ _ _ _ (probe-Safely l) (λ p rows g s. probed-Safely p s)
            (λ e rows g. probe_failed-Safely l e)

  sleep_interrupted-Safely :
      {base : Table} (l : TrainingPodLease) (e : Error)
      → Safely base Seen (sleep_interrupted env l e)
  unfolding sleep_interrupted
  sleep_interrupted-Safely l cancelled = cleanup_cancelled-Safely env l _
  sleep_interrupted-Safely l _ = search safe

  pub wait_loop-Safely :
      (n : ℕ) (l : TrainingPodLease) (base : Table) → Safely base Seen (wait_loop env n l)
  unfolding wait_loop
  wait_loop-Safely zero l base = search safe
  wait_loop-Safely (suc n) l base =
      search (safe, observe_readiness-Safely, sleep_interrupted-Safely, wait_loop-Safely n) depth 12

  -- A claim that was inserted is an active row of the table.
  abbrev pub SeenClaim : TrainingPodLease × Bool → Table → Type 0
  SeenClaim (l, inserted) rows = inserted ≡ true → Seen l rows × (is_terminal l ≡ false)

  reserve-Safely :
      (r : TrainingPodRequest) {base : Table} → Safely base SeenClaim (transact (Reserve.reserve r))
  reserve-Safely r = record {
    at = λ w rely g.
        transact-Safe w rely (Reserve.reserve r) (reserve-Grows r _)
          (λ claim e inserted. reserve_inserted r _ (e ∙ ap (λ b. ok (claim.0, b)) inserted));
  }

  provision-Safely :
      {base : Table} (source : TrainingPodSource) (l : TrainingPodLease) (b : Bool)
      → Seen l base
      → is_terminal l ≡ false
      → Safely base Seen (provision env source l b)
  unfolding provision profile wait_ready
  provision-Safely source l b s a =
      search (safe, acquire_created-Safely, acquire_existing-Safely, wait_loop-Safely env.fuel)
        depth 20

  claimed-Safely :
      {base : Table} (source : TrainingPodSource) (claim : TrainingPodLease × Bool) (b : Bool)
      → SeenClaim claim base
      → Safely base Seen (claimed env source claim b)
  unfolding claimed reuse
  claimed-Safely source (l, inserted) b s =
      Safely-if _ _ _ (λ h. provision-Safely source l b (s h).0 (s h).1)
        (λ _. Safely-if _ _ _ (λ _. heartbeat-Safely env _) (λ _. Safely-throw _))

  pub acquire_reserved-Safely :
      {base : Table} (r : TrainingPodRequest) (b : Bool)
      → Safely base Seen (acquire_reserved env r b)
  unfolding acquire_reserved
  acquire_reserved-Safely r b = Safely-refuse _ _ _ (λ _ rows g.
      Safely-bind _ _ (reserve-Safely r) (λ claim rows' g' s. claimed-Safely r.source claim b s))
