-- ===== src/Service/Safety/Family.antt =====
-- Releasing a family revives no released row.
use kestrel_cloud_runpod.Prelude.{String, Option, none, some, List, [], ◌∷◌}
use kestrel_cloud_runpod.Capacity.Lease.{TrainingPodLease}
use kestrel_cloud_runpod.Capacity.Errors.{Error, cleanup_error, LifecycleFailure}
use kestrel_cloud_runpod.Repository.Table.{Table}
use kestrel_cloud_runpod.Repository.Evolution.{Seen}
use kestrel_cloud_runpod.Service.World.{Environment}
use kestrel_cloud_runpod.Service.Family.{
  cleanup_family, member_failure, release_members, finish_family, release_family, release,
}
use kestrel_cloud_runpod.Service.Safety.{
  Safely, Anything, Safely-pure, Safely-throw, Safely-if, Safely-try_else, Safely-bind,
  Safely-required, Safely-query,
}
use kestrel_cloud_runpod.Service.Safety.Transitions.{Safely-retry}
use kestrel_cloud_runpod.Service.Safety.Settlement.{Safely-then}
use kestrel_cloud_runpod.Service.Safety.Release.{release_one-Safely}
use kestrel_cloud_runpod.Service.Safety.Mutations.{
  mark_family_release_requested-Safely, mark_family_release_complete-Safely,
}

module _ (env : Environment) where
  member_failure-Safely :
      (reason : String) (l : TrainingPodLease) (e : Error) {base : Table}
      → Safely base Anything (member_failure env reason l e)
  unfolding member_failure
  member_failure-Safely reason l (cleanup_error f) = Safely-pure _ (λ _ _. tt)
  member_failure-Safely reason l _ =
      Safely-bind _ _ (Safely-required _) (λ current rows g s. Safely-pure _ (λ _ _. tt))

  pub release_members-Safely :
      (reason : String) (failure : Option LifecycleFailure) (ls : List TrainingPodLease)
      (base : Table)
      → Safely base Anything (release_members env reason failure ls)
  unfolding release_members
  release_members-Safely reason failure [] base = Safely-pure _ (λ _ _. tt)
  release_members-Safely reason failure (l ∷ ls) base =
      Safely-if _ _ _ (λ _. release_members-Safely reason failure ls base)
        (λ _.
          Safely-try_else _ _ _ _
            (Safely-bind {R = Anything} _ _ (release_one-Safely env l.cleanup_token reason)
              (λ _ rows g s. Safely-pure _ (λ _ _. tt)))
            (λ last rows g _. release_members-Safely reason last ls rows)
            (λ e rows g.
              Safely-then _ _ (member_failure-Safely reason l e)
                (λ last rows' g'. release_members-Safely reason last ls rows')))

  finish_family-Safely :
      (token reason : String) (root : TrainingPodLease) (failure : Option LifecycleFailure)
      {base : Table}
      → Safely base Seen (finish_family env token reason root failure)
  unfolding finish_family
  finish_family-Safely token reason root none = mark_family_release_complete-Safely env root
  finish_family-Safely token reason root (some failure) = Safely-throw _

  -- Releasing an attempt or a whole family: no row is lost or revived, whatever the provider answers
  -- for each member and whatever other writers commit in between.
  pub release-Safely :
      (token reason : String) {base : Table} → Safely base Seen (release env token reason)
  unfolding release release_family cleanup_family
  release-Safely token reason = Safely-retry _ _ (λ exact rows s.
      Safely-if _ _ _ (λ _. release_one-Safely env token reason)
        (λ _. Safely-bind _ _ (mark_family_release_requested-Safely env exact) (λ root a _ _.
          Safely-then _ _ (Safely-query _) (λ members b _.
            Safely-then _ _ (release_members-Safely reason none members b)
              (λ failure c _. finish_family-Safely token reason root failure)))))
