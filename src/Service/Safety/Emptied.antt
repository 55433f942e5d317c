-- ===== src/Service/Safety/Emptied.antt =====
-- `release` of a cleanup family: what has become of its members when it returns.
use kestrel_cloud_runpod.Prelude.{
  ◌≡◌, refl, ap, ◌∙◌, subst, String, Option, none, some, List, true, not, str_eq, eq_iff,
}
use mathlib.Core.List.{Memᴰ}
use kestrel_cloud_runpod.Capacity.Lease.{TrainingPodLease}
use kestrel_cloud_runpod.Capacity.Errors.{LifecycleFailure}
use kestrel_cloud_runpod.Repository.Table.{Table, find}
use kestrel_cloud_runpod.Repository.Evolution.{Grows, Grows-refl, Grows-trans, Seen, find-token}
use kestrel_cloud_runpod.Repository.Members.{list_cleanup_family-Mem}
use kestrel_cloud_runpod.Service.World.{Environment, World, arrive}
use kestrel_cloud_runpod.Service.Family.{cleanup_family, finish_family, release_family, release}
use kestrel_cloud_runpod.Service.Safety.{
  Safely, Safely-throw, arrive-Grows, transact-Safe, stored-Seen, Safely-if, Safely-bind,
  Safely-weaken,
}
use kestrel_cloud_runpod.Service.Safety.Outcome.{required-Outcome}
use kestrel_cloud_runpod.Service.Safety.Mutations.{
  mark_family_release_requested-Safely, mark_family_release_complete-Safely,
}
use kestrel_cloud_runpod.Service.Safety.Completed.{IsRoot, IsRoot-lease, Completed}
use kestrel_cloud_runpod.Service.Safety.Swept.{Gone, Gone-Grows, release_members-Gone}

-- The row of a member of the family, which has no catalog attempt.
pub record IsMember (root token : String) (rows : Table) : Type 0 where
  pub row : TrainingPodLease
  pub found : find token rows ≡ some row
  pub root_cleanup_token : row.root_cleanup_token ≡ root
  pub capacity_spec : row.capacity_spec ≡ none

IsMember-Grows :
    (root token : String) (a b : Table) → Grows a b → IsMember root token a → IsMember root token b
IsMember-Grows root token a b g m =
    let (row, f, e) = g token m.row m.found in
    record {
      row = row;
      found = f;
      root_cleanup_token = e.identity.root_cleanup_token ∙ m.root_cleanup_token;
      capacity_spec = e.identity.capacity_spec ∙ m.capacity_spec;
    }

-- The lease of a list that is the row of the token.
record Listed (token : String) (ls : List TrainingPodLease) (rows : Table) : Type 0 where
  lease : TrainingPodLease
  inside : Memᴰ lease ls
  seen : Seen lease rows
  token_of : lease.cleanup_token ≡ token
  capacity_spec : lease.capacity_spec ≡ none

module _ (env : Environment) (root member reason : String) where
  cleanup_family-Listed :
      (base : Table)
      → IsMember root member base
      → Safely base (Listed member) (cleanup_family env root)
  unfolding cleanup_family
  cleanup_family-Listed base m = record {
    at = λ w r g.
        let rows : Table = arrive w.peers w.rows in
        let here : IsMember root member rows =
          IsMember-Grows root member base rows
            (Grows-trans base w.rows rows g (arrive-Grows w.peers w.rows r)) m in
        let name : here.row.cleanup_token ≡ member = find-token member rows here.row here.found in
        transact-Safe w r _ (Grows-refl _) (λ ls h. record {
          lease = here.row;
          inside = list_cleanup_family-Mem root _ member rows here.found here.root_cleanup_token h;
          seen = stored-Seen member here.row rows here.found;
          token_of = name;
          capacity_spec = here.capacity_spec;
        });
  }

  release_family-Gone :
      (exact : TrainingPodLease) (base : Table)
      → IsMember root member base
      → Safely base (λ _. Gone member) (release_family env root reason exact)
  unfolding release_family finish_family
  release_family-Gone exact base m =
      Safely-bind _ _ (mark_family_release_requested-Safely env exact) (λ marked a g _.
        Safely-bind _ _ (cleanup_family-Listed a (IsMember-Grows root member base a g m))
          (λ members b _ l.
            Safely-bind _ _
              (release_members-Gone env reason l.lease none members b l.capacity_spec l.inside
                l.seen)
              (λ failure c _ swept.
                finished marked failure c (λ n. subst (λ t. Gone t c) l.token_of (swept n).1))))
    where
      finished :
          (marked : TrainingPodLease) (failure : Option LifecycleFailure) (c : Table)
          → (failure ≡ none → Gone member c)
          → Safely c (λ _. Gone member) (finish_family env root reason marked failure)
      finished marked none c gone =
          Safely-weaken (mark_family_release_complete-Safely env marked)
            (λ a rows g _. Gone-Grows member c rows g (gone refl))
      finished marked (some failure) c gone = Safely-throw _

  pub release-Gone :
      (base : Table)
      → IsRoot root base
      → IsMember root member base
      → Safely base (λ _. Gone member) (release env root reason)
  unfolding release
  release-Gone base own m = Safely-bind _ _ (required-Outcome root) (λ exact rows g o.
      let named : str_eq exact.root_cleanup_token root ≡ true =
        (eq_iff exact.root_cleanup_token root).1 (IsRoot-lease root base rows exact own g o) in
      Safely-if _ _ _ (λ n. cc (ap not named))
        (λ _. release_family-Gone exact rows (IsMember-Grows root member base rows g m)))
