-- ===== src/Service/Progress.antt =====
-- The retry loop of `_transition_nonterminal` ends: each round that fails is paid for by a writer that
-- committed in between.
use kestrel_cloud_runpod.Prelude.{
  ℕ, zero, suc, ◌+◌, ◌<◌, ◌≤◌, ◌≡◌, ◌≢◌, refl, ap, ◌∙◌, String, Option, none, some, List, [], ◌∷◌,
  true, false, ◌⊎◌, inl, inr, arith, Bool-cases, All, length, ◌==◌,
}
use kestrel_cloud_runpod.Capacity.Lease.{
  TrainingPodLease, is_terminal, receipts_agree, lease_accepted,
}
use kestrel_cloud_runpod.Capacity.Evidence.{evidence_ready}
use kestrel_cloud_runpod.Capacity.Errors.{
  Error, Result, ok, raise, manager, value_error, conflict, out_of_fuel, is_conflict,
}
use kestrel_cloud_runpod.Repository.Columns.{Change, updated_row}
use kestrel_cloud_runpod.Repository.Table
use kestrel_cloud_runpod.Repository.Table.{Table, find, violates, lease_from_row, receipt_ready}
use kestrel_cloud_runpod.Repository.Evolution.{find-token}
use kestrel_cloud_runpod.Repository.Unique.{IsExclusive}
use kestrel_cloud_runpod.Repository.Keyed.{IsKeyed, update-unclaimed}
use kestrel_cloud_runpod.Service.World.{
  Environment, World, Action, pure, throw, continue, ◌>>=◌, recover, try_except,
  when◌run◌otherwise◌, arrive, later, transact, compare_and_set, get, required, present_or_raise,
}
use kestrel_cloud_runpod.Service.Transitions.{transition_loop, transition_nonterminal}

-- The constraints of the table.
abbrev pub IsSound : Table → Type 0
IsSound rows = IsKeyed rows × IsExclusive rows

-- Another writer that keeps the constraints, as every transaction does.
abbrev pub IsHarmless : (Table → Table) → Type 0
IsHarmless peer = (rows : Table) → IsSound rows → IsSound (peer rows)

-- The changes leave the provider Pod as it is.
abbrev pub KeepsPod : List Change → Type 0
KeepsPod cs =
    (now : ℕ) (l : TrainingPodLease) → (updated_row now cs l).provider_pod_id ≡ l.provider_pod_id

-- The world after a transaction that wrote nothing.
abbrev pub waited : World → World
waited w = record w { rows = arrive w.peers w.rows; peers = later w.peers; ticks = w.ticks + 1 }

pub lease_from_row-cases :
    (row : TrainingPodLease)
    → (lease_from_row row ≡ ok row)
      ⊎ ((lease_from_row row ≡ raise value_error) ⊎ (lease_from_row row ≡ raise manager))
unfolding lease_from_row
lease_from_row-cases row = elim (Bool-cases (receipt_ready row.billing_receipt)) [
  | inr n ↦ rw n (inr (inl refl))
  | inl x ↦ elim (Bool-cases (evidence_ready row.evidence)) [
    | inr n ↦ rw (x, n) (inr (inl refl))
    | inl y ↦ elim (Bool-cases (receipts_agree row)) [
      | inr n ↦ rw (x, y, n) (inr (inr refl))
      | inl z ↦ elim (Bool-cases (lease_accepted row)) [
        | inr n ↦ rw (x, y, z, n) (inr (inl refl))
        | inl a ↦ rw (x, y, z, a) (inl refl)
      ]
    ]
  ]
]

-- What `_required` gives: a row as it is after the read, or an error.
pub data Reading (token : String) (w : World) : Result TrainingPodLease × World → Type 0 where
  unread : (e : Error) → e ≢ out_of_fuel → Reading token w (raise e, waited w)
  fresh :
      (row : TrainingPodLease)
      → find token (waited w).rows ≡ some row
      → Reading token w (ok row, waited w)

pub required-Reading : (token : String) (w : World) → Reading token w (required token w)
unfolding required get transact present_or_raise pure throw ◌>>=◌ Table.get Table.decode_row
required-Reading token w = go (find token (arrive w.peers w.rows)) refl
  where
    answer : Option TrainingPodLease → Result TrainingPodLease × World
    answer o = continue (Table.decode_row o, waited w) present_or_raise

    decoded :
        (row : TrainingPodLease) (r : Result TrainingPodLease)
        → find token (arrive w.peers w.rows) ≡ some row
        → (r ≡ ok row) ⊎ ((r ≡ raise value_error) ⊎ (r ≡ raise manager))
        → Reading token w (continue (Table.present r, waited w) present_or_raise)
    decoded row r f (inl e) = rw e (fresh row f)
    decoded row r f (inr (inl e)) = rw e (unread value_error (λ x. cc))
    decoded row r f (inr (inr e)) = rw e (unread manager (λ x. cc))

    go :
        (o : Option TrainingPodLease)
        → find token (arrive w.peers w.rows) ≡ o
        → Reading token w (answer o)
    go none e = unread manager (λ x. cc)
    go (some row) e = decoded row (lease_from_row row) e (lease_from_row-cases row)

-- What a write gives: an answer that ends the loop, or a conflict that changed nothing.
data Writing (w : World) : Result TrainingPodLease × World → Type 0 where
  wrote : (l : TrainingPodLease) (w' : World) → Writing w (ok l, w')
  failed :
      (e : Error) (w' : World) → e ≢ out_of_fuel → is_conflict e ≡ false → Writing w (raise e, w')
  conflicted : Writing w (raise conflict, waited w)

decoded-Writing : (row : TrainingPodLease) (w w' : World) → Writing w (lease_from_row row, w')
decoded-Writing row w w' = elim (lease_from_row-cases row) [
  | inl e ↦ rw e (wrote row w')
  | inr (inl e) ↦ rw e (failed value_error w' (λ x. cc) refl)
  | inr (inr e) ↦ rw e (failed manager w' (λ x. cc) refl)
]

swap_row-Writing :
    (now : ℕ) (l : TrainingPodLease) (cs : List Change) (o : Option TrainingPodLease) (w : World)
    → Writing w (
      (Table.swap_row now l cs o (arrive w.peers w.rows)).0,
      record (waited w) { rows = (Table.swap_row now l cs o (arrive w.peers w.rows)).1 },
    )
unfolding Table.swap_row
swap_row-Writing now l cs none w = conflicted
swap_row-Writing now l cs (some row) w = elim (Bool-cases (row.revision == l.revision)) [
  | inr n ↦ rw n conflicted
  | inl y ↦ elim (Bool-cases (violates (updated_row now cs row) (arrive w.peers w.rows))) [
    | inl v ↦ rw (y, v) conflicted
    | inr u ↦ rw (y, u) (decoded-Writing (updated_row now cs row) w _)
  ]
]

module _ (env : Environment) where
  compare_and_set-Writing :
      (l : TrainingPodLease) (cs : List Change) (w : World) → Writing w (compare_and_set env l cs w)
  unfolding compare_and_set transact Table.compare_and_set
  compare_and_set-Writing l cs w =
      swap_row-Writing (env.utc_now w.ticks) l cs (find l.cleanup_token (arrive w.peers w.rows)) w

  -- Without other writers, a write from the row itself meets no conflict.
  unrivalled :
      (l : TrainingPodLease) (cs : List Change) (w : World)
      → w.peers ≡ []
      → KeepsPod cs
      → IsSound w.rows
      → find l.cleanup_token w.rows ≡ some l
      → is_terminal l ≡ false
      → (compare_and_set env l cs w).0 ≢ raise conflict
  unfolding compare_and_set transact Table.compare_and_set Table.swap_row
  unrivalled l cs w alone keeps (k, x) f a h =
      let t : ℕ = env.utc_now w.ticks in
      let same : arrive w.peers w.rows ≡ w.rows = ap (λ ps. arrive ps w.rows) alone in
      let unclaimed : violates (updated_row t cs l) w.rows ≡ false =
        update-unclaimed t cs l w.rows k x f a (keeps t l) in
      let revision : (l.revision == l.revision) ≡ true = ground arith in
      let answer : lease_from_row (updated_row t cs l) ≡ raise conflict =
        rw (same, f, revision, unclaimed) at h in
      elim (lease_from_row-cases (updated_row t cs l)) [
        | inl e ↦ cc
        | inr (inl e) ↦ cc
        | inr (inr e) ↦ cc
      ]

-- The other writers leave the table sound, and there are no more of them after a transaction.
record Steady (w : World) : Type 0 where
  pub harmless : All IsHarmless w.peers
  pub sound : IsSound w.rows

waited-Steady : (w : World) → Steady w → Steady (waited w)
waited-Steady w s = go w.peers s.harmless
  where
    go : (ps : List (Table → Table)) → All IsHarmless ps → Steady (waited (record w { peers = ps }))
    go [] h = record { harmless = tt; sound = s.sound }
    go (p ∷ ps) h = record { harmless = h.1; sound = h.0 w.rows s.sound }

later-length : (ps : List (Table → Table)) → length (later ps) ≤ length ps
later-length [] = omega arith
later-length (p ∷ ps) = omega arith

abbrev pub Ended : Result TrainingPodLease × World → Type 0
Ended out = out.0 ≢ raise out_of_fuel

recover-Ended :
    (w : World) (out : Result TrainingPodLease × World) (h : Error → Action TrainingPodLease)
    → Writing w out
    → (out.0 ≡ raise conflict → Ended (h conflict (waited w)))
    → Ended (recover out is_conflict h)
recover-Ended w out h (wrote l w') k = λ e. cc
recover-Ended w out h (failed e w' n c) k = rw c (λ x. n (cc))
recover-Ended w out h conflicted k = k refl

continue-Ended :
    (token : String) (w : World) (f : TrainingPodLease → Action TrainingPodLease)
    (out : Result TrainingPodLease × World)
    → Reading token w out
    → ((row : TrainingPodLease) → find token (waited w).rows ≡ some row → Ended (f row (waited w)))
    → Ended (continue out f)
continue-Ended token w f out (unread e n) k = λ x. n (cc)
continue-Ended token w f out (fresh row s) k = k row s

module _ (env : Environment) (cs : List Change) (keeps : KeepsPod cs) where
  -- The loop has rounds left whenever a conflict sends it around again.
  round-Ended :
      (n : ℕ) (l : TrainingPodLease) (w : World)
      → (is_terminal l ≡ false
          → (compare_and_set env l cs w).0 ≡ raise conflict
          → Ended
              ((required l.cleanup_token >>= λ fresh. transition_loop env n cs fresh) (waited w)))
      → Ended (transition_loop env (suc n) cs l w)
  unfolding transition_loop try_except when◌run◌otherwise◌ pure
  round-Ended n l w k = elim (Bool-cases (is_terminal l)) [
    | inl t ↦ rw t (λ e. cc)
    | inr a ↦
        rw a (
          recover-Ended w (compare_and_set env l cs w) _ (compare_and_set-Writing env l cs w) (k a))
  ]

  again-Ended :
      (n : ℕ) (token : String) (w : World)
      → ((row : TrainingPodLease)
          → find row.cleanup_token (waited w).rows ≡ some row
          → Ended (transition_loop env n cs row (waited w)))
      → Ended ((required token >>= λ fresh. transition_loop env n cs fresh) w)
  unfolding ◌>>=◌
  again-Ended n token w k =
      continue-Ended token w (λ fresh. transition_loop env n cs fresh) (required token w)
        (required-Reading token w)
        (λ row f.
          k row (ap (λ t. find t (waited w).rows) (find-token token (waited w).rows row f) ∙ f))

  rivalled :
      (n : ℕ) (l : TrainingPodLease) (w : World) (ps : List (Table → Table))
      → w.peers ≡ ps
      → Steady w
      → find l.cleanup_token w.rows ≡ some l
      → is_terminal l ≡ false
      → (compare_and_set env l cs w).0 ≡ raise conflict
      → length ps < suc n
      → length (later ps) < n
  rivalled n l w [] e s f a c h = absurd (unrivalled env l cs w e keeps s.sound f a c)
  rivalled n l w (p ∷ ps) e s f a c h = omega arith

  fresh-Ended :
      (n : ℕ) (l : TrainingPodLease) (w : World)
      → Steady w
      → find l.cleanup_token w.rows ≡ some l
      → length w.peers < n
      → Ended (transition_loop env n cs l w)
  fresh-Ended zero l w s f h = absurd (omega (arith, h))
  fresh-Ended (suc n) l w s f h = round-Ended n l w (λ a c.
      again-Ended n l.cleanup_token (waited w) (λ row g.
        let bound : length (later w.peers) < n = rivalled n l w w.peers refl s f a c h in
        fresh-Ended n row (waited (waited w)) (waited-Steady (waited w) (waited-Steady w s)) g
          (omega (arith, bound, later-length (later w.peers)))))

  stale-Ended :
      (n : ℕ) (l : TrainingPodLease) (w : World)
      → Steady w
      → length w.peers < n
      → Ended (transition_loop env (suc n) cs l w)
  stale-Ended n l w s h = round-Ended n l w (λ a c.
      again-Ended n l.cleanup_token (waited w) (λ row g.
        fresh-Ended n row (waited (waited w)) (waited-Steady (waited w) (waited-Steady w s)) g
          (omega (arith, h, later-length w.peers, later-length (later w.peers)))))

-- `_transition_nonterminal` ends, from any lease that the caller holds: given two rounds more than
-- there are writers to come, it returns a lease or raises an error of the repository, and never runs
-- out of rounds. The table satisfies its constraints, the writers keep them, and the changes leave
-- the provider Pod as it is.
pub transition_nonterminal_ends :
    (env : Environment) (changes : List Change) (lease : TrainingPodLease) (w : World)
    → KeepsPod changes
    → All IsHarmless w.peers
    → IsSound w.rows
    → length w.peers + 2 ≤ env.fuel
    → (transition_nonterminal env lease changes w).0 ≢ raise out_of_fuel
unfolding transition_nonterminal
transition_nonterminal_ends env cs l w keeps hs s h = enough env.fuel h
  where
    enough : (n : ℕ) → length w.peers + 2 ≤ n → Ended (transition_loop env n cs l w)
    enough zero b = absurd (omega (arith, b))
    enough (suc n) b =
        stale-Ended env cs keeps n l w (record { harmless = hs; sound = s }) (omega (arith, b))
