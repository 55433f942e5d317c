-- ===== src/Service/Safety/Swept.antt =====
-- The loop of `release`: without a failure, it has released each member without a catalog attempt.
use kestrel_cloud_runpod.Prelude.{
  ◌≡◌, refl, sym, ap, ◌∙◌, subst, String, Option, none, some, List, [], ◌∷◌, true,
}
use mathlib.Core.List.{Memᴰ}
use kestrel_cloud_runpod.Capacity.Lease.{TrainingPodLease, is_terminal}
use kestrel_cloud_runpod.Capacity.Errors.{Error, cleanup_error, LifecycleFailure}
use kestrel_cloud_runpod.Repository.Table.{Table, find}
use kestrel_cloud_runpod.Repository.Evolution.{Grows, Seen, Seen-Grows}
use kestrel_cloud_runpod.Service.World.{Environment}
use kestrel_cloud_runpod.Service.Family.{member_failure, release_members}
use kestrel_cloud_runpod.Service.Safety.{
  Safely, Safely-pure, Safely-if, Safely-try_else, Safely-bind, Safely-required, Safely-weaken,
}
use kestrel_cloud_runpod.Service.Safety.Release.{release_one-Safely}
use kestrel_cloud_runpod.Service.Safety.Outcome.{Outcome}
use kestrel_cloud_runpod.Service.Safety.Located.{IsLegacy, Released}
use kestrel_cloud_runpod.Service.Safety.Released.{release_one-Outcome}

-- The row of the token is released.
pub record Gone (token : String) (rows : Table) : Type 0 where
  pub row : TrainingPodLease
  pub found : find token rows ≡ some row
  pub terminal : is_terminal row ≡ true

pub Gone-Grows : (token : String) (a b : Table) → Grows a b → Gone token a → Gone token b
Gone-Grows token a b g gone =
    let (row, f, e) = g token gone.row gone.found in
    record { row = row; found = f; terminal = e.terminal gone.terminal }

Gone-Seen :
    (l : TrainingPodLease) (rows : Table)
    → Seen l rows
    → is_terminal l ≡ true
    → Gone l.cleanup_token rows
Gone-Seen l rows (row, f, e) t = record { row = row; found = f; terminal = e.terminal t }

IsLegacy-Seen :
    (l : TrainingPodLease) (rows : Table)
    → Seen l rows
    → l.capacity_spec ≡ none
    → IsLegacy l.cleanup_token rows
IsLegacy-Seen l rows (row, f, e) n = record {
  row = row;
  found = f;
  capacity_spec = e.identity.capacity_spec ∙ n;
}

Gone-Outcome :
    (token : String) (l : TrainingPodLease) (rows : Table)
    → Outcome token Released l rows
    → Gone token rows
Gone-Outcome token l rows o =
    let (row, f, e) = o.seen in
    record {
      row = row;
      found = ap (λ t. find t rows) (sym o.token_of) ∙ f;
      terminal = e.terminal o.holds;
    }

-- A failure is kept.
abbrev Kept : Option LifecycleFailure → Option LifecycleFailure → Table → Type 0
Kept failure last rows = last ≡ none → failure ≡ none

abbrev Fails : Option LifecycleFailure → Table → Type 0
Fails last rows = (f : LifecycleFailure) × (last ≡ some f)

Fails-some : (last : Option LifecycleFailure) (rows : Table) → Fails last rows → last ≡ none → ⊥
Fails-some last rows f n = cc f.1

module _ (env : Environment) (reason : String) where
  member_failure-Fails :
      (l : TrainingPodLease) (e : Error) {base : Table}
      → Safely base Fails (member_failure env reason l e)
  unfolding member_failure
  member_failure-Fails l (cleanup_error f) = Safely-pure _ (λ _ _. (f, refl))
  member_failure-Fails l _ =
      Safely-bind _ _ (Safely-required _) (λ current rows g s. Safely-pure _ (λ _ _. (_, refl)))

  release_members-Kept :
      (failure : Option LifecycleFailure) (ls : List TrainingPodLease) (base : Table)
      → Safely base (Kept failure) (release_members env reason failure ls)
  unfolding release_members
  release_members-Kept failure [] base = Safely-pure _ (λ _ _ e. e)
  release_members-Kept failure (l ∷ ls) base =
      Safely-if _ _ _ (λ _. release_members-Kept failure ls base)
        (λ _.
          Safely-try_else {Q = λ last rows. last ≡ failure} _ _ _ _
            (Safely-bind {R = λ last rows. last ≡ failure} _ _
              (release_one-Safely env l.cleanup_token reason)
              (λ _ rows g s. Safely-pure _ (λ _ _. refl)))
            (λ last rows g same.
              Safely-weaken (release_members-Kept last ls rows) (λ a rows' g' k e. sym same ∙ k e))
            (λ e rows g. Safely-bind {Q = Fails} _ _ (member_failure-Fails l e) (λ last rows' g' f.
              Safely-weaken (release_members-Kept last ls rows')
                (λ a rows'' g'' k x. absurd (Fails-some last rows' f (k x))))))

  first-Gone :
      (failure : Option LifecycleFailure) (l : TrainingPodLease) (ls : List TrainingPodLease)
      (base : Table)
      → l.capacity_spec ≡ none
      → Seen l base
      → Safely base
          (λ last rows. last ≡ none → (failure ≡ none) × Gone l.cleanup_token rows)
          (release_members env reason failure (l ∷ ls))
  unfolding release_members
  first-Gone failure l ls base n s =
      Safely-if _ _ _
        (λ t.
          Safely-weaken (release_members-Kept failure ls base)
            (λ a rows g k x. (k x, Gone-Seen l rows (Seen-Grows l base rows g s) t)))
        (λ _.
          Safely-try_else {Q = λ last rows. (last ≡ failure) × Gone l.cleanup_token rows} _ _ _ _
            (Safely-bind {R = λ last rows. (last ≡ failure) × Gone l.cleanup_token rows} _ _
              (release_one-Outcome env l.cleanup_token reason (IsLegacy-Seen l base s n))
              (λ a rows g o. Safely-pure failure (λ rows' g'. (
                refl,
                Gone-Grows l.cleanup_token rows rows' g' (Gone-Outcome l.cleanup_token a rows o),
              ))))
            (λ last rows g x.
              Safely-weaken (release_members-Kept last ls rows)
                (λ a rows' g' k e. (sym x.0 ∙ k e, Gone-Grows l.cleanup_token rows rows' g' x.1)))
            (λ e rows g. Safely-bind {Q = Fails} _ _ (member_failure-Fails l e) (λ last rows' g' f.
              Safely-weaken (release_members-Kept last ls rows')
                (λ a rows'' g'' k x. absurd (Fails-some last rows' f (k x))))))

  -- The loop releases a member, unless it keeps a failure.
  pub release_members-Gone :
      (m : TrainingPodLease) (failure : Option LifecycleFailure) (ls : List TrainingPodLease)
      (base : Table)
      → m.capacity_spec ≡ none
      → Memᴰ m ls
      → Seen m base
      → Safely base
          (λ last rows. last ≡ none → (failure ≡ none) × Gone m.cleanup_token rows)
          (release_members env reason failure ls)
  unfolding release_members
  release_members-Gone m failure [] base n i s = elim i [ ]
  release_members-Gone m failure (l ∷ ls) base n (Memᴰ.head e) s =
      let first = first-Gone failure l ls base in
      subst
        (λ x.
          Safely base (λ last rows. last ≡ none → (failure ≡ none) × Gone x.cleanup_token rows)
            (release_members env reason failure (l ∷ ls)))
        (sym e)
        (first (ap (λ (x : TrainingPodLease). x.capacity_spec) (sym e) ∙ n)
          (subst (λ x. Seen x base) e s))
  release_members-Gone m failure (l ∷ ls) base n (Memᴰ.tail i) s =
      Safely-if _ _ _ (λ _. release_members-Gone m failure ls base n i s)
        (λ _.
          Safely-try_else {Q = λ last rows. last ≡ failure} _ _ _ _
            (Safely-bind {R = λ last rows. last ≡ failure} _ _
              (release_one-Safely env l.cleanup_token reason)
              (λ _ rows g s. Safely-pure _ (λ _ _. refl)))
            (λ last rows g same.
              Safely-weaken (release_members-Gone m last ls rows n i (Seen-Grows m base rows g s))
                (λ a rows' g' k e. (sym same ∙ (k e).0, (k e).1)))
            (λ e rows g. Safely-bind {Q = Fails} _ _ (member_failure-Fails l e) (λ last rows' g' f.
              Safely-weaken (release_members-Kept last ls rows')
                (λ a rows'' g'' k x. absurd (Fails-some last rows' f (k x))))))
