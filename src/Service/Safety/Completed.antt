-- ===== src/Service/Safety/Completed.antt =====
-- What `release` returns for the root of a cleanup family: its stored row, marked complete.
use kestrel_cloud_runpod.Prelude.{
  ℕ, zero, suc, ◌+◌, ◌≡◌, refl, sym, ap, ◌∙◌, subst, String, Option, none, some, List, [], ◌∷◌,
  Bool, true, false, not, inl, inr, Bool-cases, str_eq, eq_iff,
}
use kestrel_cloud_runpod.Capacity.Lease.{TrainingPodLease}
use kestrel_cloud_runpod.Capacity.Errors.{
  LifecycleFailure, Error, Result, ok, raise, out_of_fuel, is_conflict,
}
use kestrel_cloud_runpod.Repository.Columns.{Change, assign_all, updated_row}
use kestrel_cloud_runpod.Repository.Columns
use kestrel_cloud_runpod.Repository.Table
use kestrel_cloud_runpod.Repository.Table.{Table, find}
use kestrel_cloud_runpod.Repository.Evolution.{Grows, Seen, Seen-Grows, find-token}
use kestrel_cloud_runpod.Repository.Swap.{compare_and_set_returns}
use kestrel_cloud_runpod.Service.World.{
  Environment, World, Action, pure, throw, ◌>>=◌, try_except, recover, when◌run◌otherwise◌, arrive,
  continue, transact, now, compare_and_set, required,
}
use kestrel_cloud_runpod.Service.Mutations.{
  request_loop, mark_family_release_requested, complete_loop, mark_family_release_complete,
}
use kestrel_cloud_runpod.Service.Family.{cleanup_family, finish_family, release_family, release}
use kestrel_cloud_runpod.Service.Progress.{waited, Reading, unread, fresh, required-Reading}
use kestrel_cloud_runpod.Service.Safety.{
  stored-Seen, Rely, Safely, Safely-throw, Safely-if, Safely-try, Safely-bind, Safely-query,
  arrive-Grows, later-Rely,
}
use kestrel_cloud_runpod.Service.Safety.Transitions.{Safely-after_now}
use kestrel_cloud_runpod.Service.Safety.Settlement.{Safely-then}
use kestrel_cloud_runpod.Service.Safety.Mutations.{mark_family_release_complete-Safely}
use kestrel_cloud_runpod.Service.Safety.Outcome.{
  Outcome, Nothing, Safely-pure-Outcome, compare_and_set-Outcome, required-Outcome, again-Outcome,
}
use kestrel_cloud_runpod.Service.Safety.Family.{release_members-Safely}

-- The row of the token is the root of its family.
pub record IsRoot (token : String) (rows : Table) : Type 0 where
  pub row : TrainingPodLease
  pub found : find token rows ≡ some row
  pub root_cleanup_token : row.root_cleanup_token ≡ token

pub IsRoot-lease :
    {P : TrainingPodLease → Type 0} (token : String) (base rows : Table) (l : TrainingPodLease)
    → IsRoot token base
    → Grows base rows
    → Outcome token P l rows
    → l.root_cleanup_token ≡ token
IsRoot-lease token base rows l root g o =
    let (row, f, e) = o.seen in
    let (row', f', e') = g token root.row root.found in
    let same : some row ≡ some row' = sym f ∙ ap (λ t. find t rows) o.token_of ∙ f' in
    let one : row ≡ row' = cc in
    sym e.identity.root_cleanup_token
    ∙ ap (λ (x : TrainingPodLease). x.root_cleanup_token) one
    ∙ e'.identity.root_cleanup_token
    ∙ root.root_cleanup_token

-- The row of the token is the lease, and its family is released.
pub record Completed (token : String) (l : TrainingPodLease) (rows : Table) : Type 0 where
  pub stored : find token rows ≡ some l
  pub complete : l.family_release_complete ≡ true

Ends : String → Result TrainingPodLease × World → Type 0
Ends token out = (l : TrainingPodLease) → out.0 ≡ ok l → Completed token l out.1.rows

recover-Ends :
    (token : String) (out : Result TrainingPodLease × World) (p : Error → Bool)
    (h : Error → Action TrainingPodLease)
    → Ends token out
    → ((e : Error) → Ends token (h e out.1))
    → Ends token (recover out p h)
unfolding Ends
recover-Ends token (ok l, w) p h x y = x
recover-Ends token (raise e, w) p h x y = elim (Bool-cases (p e)) [
  | inl s ↦ rw s (y e)
  | inr n ↦ rw n (λ l g. cc)
]

when-Ends :
    (token : String) (b : Bool) (m n : Action TrainingPodLease) (w : World)
    → (b ≡ true → Ends token (m w))
    → (b ≡ false → Ends token (n w))
    → Ends token ((when b run m otherwise n) w)
unfolding when◌run◌otherwise◌
when-Ends token true m n w x y = x refl
when-Ends token false m n w x y = y refl

-- The handler reads the row again, as it is then stored.
again-Ends :
    (token : String) (w : World) (f : TrainingPodLease → Action TrainingPodLease)
    (out : Result TrainingPodLease × World)
    → Reading token w out
    → ((row : TrainingPodLease)
        → find token (waited w).rows ≡ some row
        → Ends token (f row (waited w)))
    → Ends token (continue out f)
unfolding Ends
again-Ends token w f out (unread e n) k = λ l h. cc
again-Ends token w f out (fresh row s) k = k row s

module _ (env : Environment) (token : String) where
  abbrev completing : ℕ → List Change
  completing t = Columns.family_release_complete true ∷ Columns.last_heartbeat_at t ∷ []

  compare_and_set-Ends :
      (t : ℕ) (root : TrainingPodLease) (w : World)
      → Rely w
      → find token w.rows ≡ some root
      → Ends token (compare_and_set env root (completing t) w)
  unfolding compare_and_set transact Ends updated_row assign_all
  compare_and_set-Ends t root w r f l h =
      let rows : Table = arrive w.peers w.rows in
      let seen : Seen root rows =
        Seen-Grows root w.rows rows (arrive-Grows w.peers w.rows r)
          (stored-Seen token root w.rows f) in
      let back = compare_and_set_returns (env.utc_now w.ticks) root (completing t) rows seen h in
      record {
        stored =
            subst
              (λ s.
                find s (Table.compare_and_set (env.utc_now w.ticks) root (completing t) rows).1
                ≡ some l)
              (find-token token w.rows root f) back.1;
        complete = ap (λ (x : TrainingPodLease). x.family_release_complete) back.0;
      }

  -- A lease that is complete already.
  done-Ends :
      (root : TrainingPodLease) (w : World)
      → find token w.rows ≡ some root
      → root.family_release_complete ≡ true
      → Ends token (pure root w)
  unfolding Ends pure
  done-Ends root w f y l h =
      let same : root ≡ l = cc in
      subst (λ x. Completed token x w.rows) same (record { stored = f; complete = y })

  resume-Ends :
      (f : TrainingPodLease → Action TrainingPodLease) (w : World)
      → Rely w
      → ((row : TrainingPodLease) (v : World)
          → Rely v
          → find token v.rows ≡ some row
          → Ends token (f row v))
      → Ends token ((required token >>= f) w)
  unfolding ◌>>=◌
  resume-Ends f w r k =
      again-Ends token w f (required token w) (required-Reading token w)
        (λ row s. k row (waited w) (later-Rely w.peers r) s)

  complete_loop-Ends :
      (n : ℕ) (root : TrainingPodLease) (w : World)
      → Rely w
      → find token w.rows ≡ some root
      → Ends token (complete_loop env n root w)
  unfolding complete_loop Ends throw try_except ◌>>=◌ now compare_and_set transact
  complete_loop-Ends zero root w r f =
      when-Ends token root.family_release_complete _ _ w (done-Ends root w f) (λ m l h. cc)
  complete_loop-Ends (suc n) root w r f =
      when-Ends token root.family_release_complete _ _ w (done-Ends root w f) (λ m.
        let v : World = record w { ticks = w.ticks + 1 } in
        let name : token ≡ root.cleanup_token = sym (find-token token w.rows root f) in
        let out = compare_and_set env root (completing (env.clock w.ticks)) v in
        recover-Ends token out is_conflict
          (λ _. required root.cleanup_token >>= λ fresh. complete_loop env n fresh)
          (compare_and_set-Ends (env.clock w.ticks) root v r f)
          (λ e.
            subst (λ t. Ends token ((required t >>= λ fresh. complete_loop env n fresh) out.1)) name
              (resume-Ends (complete_loop env n) out.1 (later-Rely w.peers r)
                (complete_loop-Ends n))))

  -- The last step of `release`.
  mark_complete-Completed :
      (root : TrainingPodLease) {base : Table}
      → root.cleanup_token ≡ token
      → Safely base (Completed token) (mark_family_release_complete env root)
  unfolding mark_family_release_complete Ends
  mark_complete-Completed root e = record {
    at = λ w r g.
        let safe = (mark_family_release_complete-Safely env root).at w r g in
        record {
          rely = safe.rely;
          grows = safe.grows;
          returns =
              subst (λ t. Ends token ((required t >>= complete_loop env env.fuel) w)) (sym e)
                (resume-Ends (complete_loop env env.fuel) w r (complete_loop-Ends env.fuel));
        };
  }

  request_loop-Outcome :
      (n : ℕ) (l : TrainingPodLease) (base : Table)
      → Outcome token Nothing l base
      → Safely base (Outcome token Nothing) (request_loop env n l)
  unfolding request_loop assign_all
  request_loop-Outcome zero l base o =
      Safely-if _ _ _ (λ _. Safely-pure-Outcome l o) (λ _. Safely-throw out_of_fuel)
  request_loop-Outcome (suc n) l base o =
      Safely-if _ _ _ (λ _. Safely-pure-Outcome l o)
        (λ _.
          Safely-try _ _ _
            (Safely-after_now env _ (λ t a g.
              compare_and_set-Outcome env l _ (Seen-Grows l base a g o.seen) o.token_of (λ _ h. h)
                (λ _. tt)))
            (λ e.
              subst
                (λ t.
                  Safely base (Outcome token Nothing)
                    (required t >>= λ fresh. request_loop env n fresh))
                (sym o.token_of) (again-Outcome token _ (request_loop-Outcome n))))

  release_family-Completed :
      (reason : String) (exact : TrainingPodLease) {base : Table}
      → exact.cleanup_token ≡ token
      → Safely base (Completed token) (release_family env token reason exact)
  unfolding release_family cleanup_family mark_family_release_requested finish_family
  release_family-Completed reason exact {base} e =
      Safely-bind {Q = Outcome token Nothing} _ _
        (subst
          (λ t.
            Safely base (Outcome token Nothing)
              (required t >>= λ current. request_loop env env.fuel current))
          (sym e) (again-Outcome token _ (request_loop-Outcome env.fuel)))
        (λ root a _ o. Safely-then _ _ (Safely-query _) (λ members b _.
          Safely-then _ _ (release_members-Safely env reason none members b)
            (λ failure c _. finished root failure o.token_of)))
    where
      finished :
          (root : TrainingPodLease) (failure : Option LifecycleFailure) {base : Table}
          → root.cleanup_token ≡ token
          → Safely base (Completed token) (finish_family env token reason root failure)
      finished root none t = mark_complete-Completed root t
      finished root (some failure) t = Safely-throw _

  pub release-Completed :
      (reason : String) (base : Table)
      → IsRoot token base
      → Safely base (Completed token) (release env token reason)
  unfolding release
  release-Completed reason base root = Safely-bind _ _ (required-Outcome token) (λ exact rows g o.
      let own : str_eq exact.root_cleanup_token token ≡ true =
        (eq_iff exact.root_cleanup_token token).1 (IsRoot-lease token base rows exact root g o) in
      Safely-if _ _ _ (λ n. cc (ap not own))
        (λ _. release_family-Completed reason exact o.token_of))
