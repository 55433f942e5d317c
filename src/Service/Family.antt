-- ===== src/Service/Family.antt =====
-- A cleanup family: `get_active_family_attempt` and `release`.
use kestrel_cloud_runpod.Prelude.{
  String, Option, none, some, List, [], ◌∷◌, ◌++◌, true, not, str_eq, map, keep,
}
use kestrel_cloud_runpod.Capacity.Lease.{TrainingPodLease, is_terminal}
use kestrel_cloud_runpod.Capacity.Errors.{
  Error, conflict, cleanup_error, is_manager_error, LifecycleFailure,
}
use kestrel_cloud_runpod.Repository.Listing
use kestrel_cloud_runpod.Service.World.{
  Environment, Action, pure, throw, ◌>>=◌, ◌>>◌, try_else, when◌run◌otherwise◌, get, required,
  transact,
}
use kestrel_cloud_runpod.Service.Release.{failure_of, release_one}
use kestrel_cloud_runpod.Service.Mutations.{
  refuse, mark_family_release_requested, mark_family_release_complete,
}

-- `TRAINING_PROFILE_IDS`
abbrev pub training_profile_ids : List String
training_profile_ids = "training" ∷ "training-h100" ∷ "training-flex" ∷ []

module _ (env : Environment) where
  -- `_cleanup_family`. The source asks for each profile once; asking for one twice finds no more.
  unfoldable pub cleanup_family : String → Action (List TrainingPodLease)
  cleanup_family root = transact (λ rows. (
    Listing.list_cleanup_family root
        (map (env.fallback_token root) (training_profile_ids ++ env.profile_ids)) rows,
    rows,
  ))

  abbrev sole_attempt : List TrainingPodLease → Action (Option TrainingPodLease)
  sole_attempt [] = pure none
  sole_attempt (lease ∷ []) = pure (some lease)
  sole_attempt (lease ∷ other ∷ more) = throw conflict

  abbrev active_attempt : Option TrainingPodLease → Action (Option TrainingPodLease)
  active_attempt none = pure none
  active_attempt (some root) = do
    refuse root.family_release_requested conflict
    members ← cleanup_family root.cleanup_token
    sole_attempt (keep (λ lease. not (is_terminal lease)) members)

  unfoldable pub get_active_family_attempt : String → Action (Option TrainingPodLease)
  get_active_family_attempt root_cleanup_token = do
    root ← get root_cleanup_token
    active_attempt root

  -- The `except` clauses of the loop of `release`.
  unfoldable pub member_failure :
      String → TrainingPodLease → Error → Action (Option LifecycleFailure)
  member_failure reason member (cleanup_error failure) = pure (some failure)
  member_failure reason member _ = do
    current ← required member.cleanup_token
    pure (some (failure_of reason current true))

  -- The loop of `release`: it goes on after a failure, and keeps the last one.
  unfoldable pub release_members :
      String → Option LifecycleFailure → List TrainingPodLease → Action (Option LifecycleFailure)
  release_members reason failure [] = pure failure
  release_members reason failure (member ∷ members) =
      when is_terminal member
      run release_members reason failure members
      otherwise (try_else (release_one env member.cleanup_token reason >>= λ _. pure failure)
          (λ last. release_members reason last members) is_manager_error
          (λ e. member_failure reason member e >>= λ last. release_members reason last members))

  -- The end of `release`: the family is complete only if no member failed.
  unfoldable pub finish_family :
      String → String → TrainingPodLease → Option LifecycleFailure → Action TrainingPodLease
  finish_family cleanup_token reason root none = mark_family_release_complete env root
  finish_family cleanup_token reason root (some failure) = throw (
      cleanup_error
        (record failure { operation = reason; cleanup_token = cleanup_token; billing_risk = true }))

  unfoldable pub release_family : String → String → TrainingPodLease → Action TrainingPodLease
  release_family cleanup_token reason exact = do
    root ← mark_family_release_requested env exact
    members ← cleanup_family cleanup_token
    failure ← release_members reason none members
    finish_family cleanup_token reason root failure

  unfoldable pub release : String → String → Action TrainingPodLease
  release cleanup_token reason = do
    exact ← required cleanup_token
    when not (str_eq exact.root_cleanup_token cleanup_token)
        run release_one env cleanup_token reason
        otherwise release_family cleanup_token reason exact
