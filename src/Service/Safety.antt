-- ===== src/Service/Safety.antt =====
-- Actions beside other writers: while the others let the table evolve, an action lets it evolve too.
-- One rule for each way to build an action.
pub mod Transitions
pub mod Settlement
pub mod Release
pub mod Mutations
pub mod Outcome
pub mod Located
pub mod Released
pub mod Completed
pub mod Swept
pub mod Emptied
pub mod Family
pub mod Acquiring
pub mod Readying
pub mod Admitting
pub mod Working
pub mod HandingOff
pub mod Reconciling
use kestrel_cloud_runpod.Prelude.{
  ℕ, ◌≡◌, refl, sym, ap, ◌∙◌, subst, String, Option, none, some, List, [], ◌∷◌, Bool, true, false,
  ◌⊎◌, inl, inr, arith, All, Bool-cases, Option-cases, if◌then◌else◌,
}
use kestrel_cloud_runpod.Capacity.Lease.{TrainingPodLease, is_terminal}
use kestrel_cloud_runpod.Capacity.Errors.{Error, Result, ok, raise, manager}
use kestrel_cloud_runpod.Repository.Columns.{Change, updated_row}
use kestrel_cloud_runpod.Repository.Table
use kestrel_cloud_runpod.Repository.Table.{Table, find, lease_from_row}
use kestrel_cloud_runpod.Repository.Evolution.{
  Evolves, Evolves-refl, Grows, Grows-refl, Grows-trans, Seen, Seen-Grows, find-token,
  updated_row-SameIdentity,
}
use kestrel_cloud_runpod.Repository.Swap.{
  KeepsTerminal, compare_and_set-Grows, compare_and_set_returns, lease_from_row-eq,
}
use kestrel_cloud_runpod.Service.World.{
  Environment, World, Action, Call, pure, throw, continue, ◌>>=◌, recover, try_except, branch,
  try_else, when◌run◌otherwise◌, arrive, later, transact, ask, now, compare_and_set, get, required,
  present_or_raise,
}
use kestrel_cloud_runpod.Service.Transitions.{lift}

-- Another writer, which keeps the rules of the repository.
abbrev pub IsPeer : (Table → Table) → Type 0
IsPeer peer = (rows : Table) → Grows rows (peer rows)

abbrev pub Rely : World → Type 0
Rely w = All IsPeer w.peers

-- How an action that began at `w` ended.
pub record Safe {A : Type 0} (Q : A → Table → Type 0) (w : World) (out : Result A × World)
    : Type 0 where
  pub rely : Rely out.1
  pub grows : Grows w.rows out.1.rows
  pub returns : (a : A) → out.0 ≡ ok a → Q a out.1.rows

-- The action is safe wherever the table has evolved from `base`.
pub record Safely {A : Type 0} (base : Table) (Q : A → Table → Type 0) (m : Action A) : Type 0 where
  pub at : (w : World) → Rely w → Grows base w.rows → Safe Q w (m w)

Safe-after :
    {B : Type 0} {R : B → Table → Type 0} (w w' : World) (out : Result B × World)
    → Grows w.rows w'.rows
    → Safe R w' out
    → Safe R w out
Safe-after w w' out g s = record {
  rely = s.rely;
  grows = Grows-trans w.rows w'.rows out.1.rows g s.grows;
  returns = s.returns;
}

module _ {A : Type 0} {Q : A → Table → Type 0} {base : Table} where
  pub Safely-pure : (a : A) → ((rows : Table) → Grows base rows → Q a rows) → Safely base Q (pure a)
  unfolding pure
  Safely-pure a q = record {
    at = λ w r g. record {
      rely = r;
      grows = Grows-refl w.rows;
      returns = λ b e. subst (λ (x : A). Q x w.rows) (cc) (q w.rows g);
    };
  }

  pub Safely-throw : (e : Error) → Safely base Q (throw e)
  unfolding throw
  Safely-throw e = record {
    at = λ w r g. record { rely = r; grows = Grows-refl w.rows; returns = λ b h. cc };
  }

  pub Safely-if :
      (b : Bool) (m n : Action A)
      → (b ≡ true → Safely base Q m)
      → (b ≡ false → Safely base Q n)
      → Safely base Q (when b run m otherwise n)
  unfolding when◌run◌otherwise◌
  Safely-if true m n x y = x refl
  Safely-if false m n x y = y refl

  Safe-recover :
      (w : World) (out : Result A × World) (p : Error → Bool) (h : Error → Action A)
      → Grows base w.rows
      → Safe Q w out
      → ((e : Error) → Safely base Q (h e))
      → Safe Q w (recover out p h)
  Safe-recover w (ok a, w') p h g s l = s
  Safe-recover w (raise e, w') p h g s l = elim (Bool-cases (p e)) [
    | inl y ↦ rw y (
        Safe-after w w' (h e w') s.grows
          ((l e).at w' s.rely (Grows-trans base w.rows w'.rows g s.grows)))
    | inr n ↦ rw n (record { rely = s.rely; grows = s.grows; returns = λ b x. cc })
  ]

  pub Safely-try :
      (m : Action A) (p : Error → Bool) (h : Error → Action A)
      → Safely base Q m
      → ((e : Error) → Safely base Q (h e))
      → Safely base Q (try_except m p h)
  unfolding try_except
  Safely-try m p h s l = record { at = λ w r g. Safe-recover w (m w) p h g (s.at w r g) l }

module _ {A B : Type 0} {Q : A → Table → Type 0} {R : B → Table → Type 0} where
  Safe-continue :
      (base : Table) (w : World) (out : Result A × World) (f : A → Action B)
      → Grows base w.rows
      → Safe Q w out
      → ((a : A) (rows : Table) → Grows base rows → Q a rows → Safely rows R (f a))
      → Safe R w (continue out f)
  Safe-continue base w (ok a, w') f g s k = Safe-after w w' (f a w') s.grows (
      (k a w'.rows (Grows-trans base w.rows w'.rows g s.grows) (s.returns a refl)).at w' s.rely
        (Grows-refl w'.rows))
  Safe-continue base w (raise e, w') f g s k = record {
    rely = s.rely;
    grows = s.grows;
    returns = λ b h. cc;
  }

  pub Safely-bind :
      {base : Table} (m : Action A) (f : A → Action B)
      → Safely base Q m
      → ((a : A) (rows : Table) → Grows base rows → Q a rows → Safely rows R (f a))
      → Safely base R (m >>= f)
  unfolding ◌>>=◌
  Safely-bind {base} m f s k = record {
    at = λ w r g. Safe-continue base w (m w) f g (s.at w r g) k;
  }

  Safe-branch :
      (base : Table) (w : World) (out : Result A × World) (f : A → Action B) (p : Error → Bool)
      (h : Error → Action B)
      → Grows base w.rows
      → Safe Q w out
      → ((a : A) (rows : Table) → Grows base rows → Q a rows → Safely rows R (f a))
      → ((e : Error) (rows : Table) → Grows base rows → Safely rows R (h e))
      → Safe R w (branch out f p h)
  Safe-branch base w (ok a, w') f p h g s k l = Safe-after w w' (f a w') s.grows (
      (k a w'.rows (Grows-trans base w.rows w'.rows g s.grows) (s.returns a refl)).at w' s.rely
        (Grows-refl w'.rows))
  Safe-branch base w (raise e, w') f p h g s k l = elim (Bool-cases (p e)) [
    | inl y ↦ rw y (
        Safe-after w w' (h e w') s.grows (
          (l e w'.rows (Grows-trans base w.rows w'.rows g s.grows)).at w' s.rely
            (Grows-refl w'.rows)))
    | inr n ↦ rw n (record { rely = s.rely; grows = s.grows; returns = λ b x. cc })
  ]

  pub Safely-try_else :
      {base : Table} (m : Action A) (f : A → Action B) (p : Error → Bool) (h : Error → Action B)
      → Safely base Q m
      → ((a : A) (rows : Table) → Grows base rows → Q a rows → Safely rows R (f a))
      → ((e : Error) (rows : Table) → Grows base rows → Safely rows R (h e))
      → Safely base R (try_else m f p h)
  unfolding try_else
  Safely-try_else {base} m f p h s k l = record {
    at = λ w r g. Safe-branch base w (m w) f p h g (s.at w r g) k l;
  }

-- What is returned may be weakened, beside what the table grew from.
pub Safely-weaken :
    {A : Type 0} {Q R : A → Table → Type 0} {base : Table} {m : Action A}
    → Safely base Q m
    → ((a : A) (rows : Table) → Grows base rows → Q a rows → R a rows)
    → Safely base R m
Safely-weaken {base = base} {m = m} s k = record {
  at = λ w r g.
      let safe = s.at w r g in
      record {
        rely = safe.rely;
        grows = safe.grows;
        returns = λ a h.
            k a (m w).1.rows (Grows-trans base w.rows (m w).1.rows g safe.grows) (safe.returns a h);
      };
}

-- No claim about what is returned.
abbrev pub Anything : {A : Type 0} → A → Table → Type 0
Anything a rows = Unit

pub arrive-Grows :
    (peers : List (Table → Table)) (rows : Table)
    → All IsPeer peers
    → Grows rows (arrive peers rows)
arrive-Grows [] rows h = Grows-refl rows
arrive-Grows (p ∷ ps) rows h = h.0 rows

pub later-Rely : (peers : List (Table → Table)) → All IsPeer peers → All IsPeer (later peers)
later-Rely [] h = tt
later-Rely (p ∷ ps) h = h.1

stored-Seen :
    (token : String) (l : TrainingPodLease) (rows : Table) → find token rows ≡ some l → Seen l rows
stored-Seen token l rows h =
    (l, ap (λ t. find t rows) (find-token token rows l h) ∙ h, Evolves-refl l)

pub Safely-now : (env : Environment) {base : Table} → Safely base Anything (now env)
unfolding now
Safely-now env = record {
  at = λ w r g. record { rely = r; grows = Grows-refl w.rows; returns = λ _ _. tt };
}

pub Safely-ask :
    {A : Type 0} (call : Call) (answer : ℕ → Result A) {base : Table}
    → Safely base Anything (ask call answer)
unfolding ask
Safely-ask call answer = record {
  at = λ w r g. record { rely = r; grows = Grows-refl w.rows; returns = λ _ _. tt };
}

pub Safely-lift : {A : Type 0} (a : Result A) {base : Table} → Safely base Anything (lift a)
unfolding lift
Safely-lift a = record {
  at = λ w r g. record { rely = r; grows = Grows-refl w.rows; returns = λ _ _. tt };
}

module _ (w : World) (r : Rely w) where
  -- A transaction on the table that the other writers left.
  pub transact-Safe :
      {A : Type 0} {Q : A → Table → Type 0} (f : Table → Result A × Table)
      → Grows (arrive w.peers w.rows) (f (arrive w.peers w.rows)).1
      → ((a : A) → (f (arrive w.peers w.rows)).0 ≡ ok a → Q a (f (arrive w.peers w.rows)).1)
      → Safe Q w (transact f w)
  unfolding transact
  transact-Safe f g q = record {
    rely = later-Rely w.peers r;
    grows =
        Grows-trans w.rows (arrive w.peers w.rows) (f (arrive w.peers w.rows)).1
          (arrive-Grows w.peers w.rows r) g;
    returns = q;
  }

  -- A write from a lease of the table, which revives no released row.
  compare_and_set-Safe :
      (env : Environment) (lease : TrainingPodLease) (cs : List Change)
      → Seen lease w.rows
      → KeepsTerminal cs lease
      → Safe Seen w (compare_and_set env lease cs w)
  unfolding compare_and_set
  compare_and_set-Safe env lease cs seen keeps =
      let t : ℕ = env.utc_now w.ticks in
      let rows : Table = arrive w.peers w.rows in
      let seen' : Seen lease rows =
        Seen-Grows lease w.rows rows (arrive-Grows w.peers w.rows r) seen in
      transact-Safe (Table.compare_and_set t lease cs)
        (compare_and_set-Grows t lease cs rows seen' keeps)
        (λ l e.
          let after : Table = (Table.compare_and_set t lease cs rows).1 in
          let stored : find lease.cleanup_token after ≡ some l =
            (compare_and_set_returns t lease cs rows seen' e).1 in
          stored-Seen lease.cleanup_token l after stored)

present-eq :
    (o : Result TrainingPodLease) {l : TrainingPodLease} → Table.present o ≡ ok (some l) → o ≡ ok l
present-eq (ok l) h = cc
present-eq (raise e) h = cc

decode_row-eq :
    (o : Option TrainingPodLease) {l : TrainingPodLease}
    → Table.decode_row o ≡ ok (some l)
    → o ≡ some l
unfolding Table.decode_row
decode_row-eq none h = cc
decode_row-eq (some row) h = ap some (sym (lease_from_row-eq row (present-eq _ h)))

pub Safely-compare_and_set :
    (env : Environment) (lease : TrainingPodLease) (cs : List Change) {base : Table}
    → Seen lease base
    → KeepsTerminal cs lease
    → Safely base Seen (compare_and_set env lease cs)
Safely-compare_and_set env lease cs {base} s keeps = record {
  at = λ w r g. compare_and_set-Safe w r env lease cs (Seen-Grows lease base w.rows g s) keeps;
}

get-stored :
    (token : String) (rows : Table) {l : TrainingPodLease}
    → Table.get token rows ≡ ok (some l)
    → find token rows ≡ some l
unfolding Table.get
get-stored token rows h = decode_row-eq (find token rows) h

-- What `get` returns: a lease of the table.
abbrev pub Found : Option TrainingPodLease → Table → Type 0
Found none rows = Unit
Found (some l) rows = Seen l rows

Safely-present_or_raise :
    (o : Option TrainingPodLease) (rows : Table)
    → Found o rows
    → Safely rows Seen (present_or_raise o)
unfolding present_or_raise
Safely-present_or_raise none rows f = Safely-throw manager
Safely-present_or_raise (some l) rows f = Safely-pure l (λ rows' g. Seen-Grows l rows rows' g f)

Found-stored :
    (token : String) (rows : Table) (o : Option TrainingPodLease)
    → Table.get token rows ≡ ok o
    → Found o rows
Found-stored token rows none e = tt
Found-stored token rows (some l) e = stored-Seen token l rows (get-stored token rows e)

pub Safely-get : (token : String) {base : Table} → Safely base Found (get token)
unfolding get
Safely-get token = record {
  at = λ w r g.
      transact-Safe w r (λ rows. (Table.get token rows, rows)) (Grows-refl _)
        (Found-stored token (arrive w.peers w.rows));
}

pub Safely-required : (token : String) {base : Table} → Safely base Seen (required token)
unfolding required
Safely-required token =
    Safely-bind (get token) present_or_raise (Safely-get token)
      (λ o rows _. Safely-present_or_raise o rows)

-- A transaction that only reads.
pub Safely-query :
    {A : Type 0} (f : Table → Result A) {base : Table}
    → Safely base Anything (transact (λ rows. (f rows, rows)))
Safely-query f = record {
  at = λ w r g. transact-Safe w r (λ rows. (f rows, rows)) (Grows-refl _) (λ _ _. tt);
}
