-- ===== src/Service/History/Exclusive.antt =====
-- An action keeps what every transaction of it keeps: one rule for each way to build an action.
use kestrel_cloud_runpod.Prelude.{
  ℕ, String, Option, none, some, List, [], ◌∷◌, Bool, true, false, All, Bool-cases, inl, inr,
}
use kestrel_cloud_runpod.Capacity.Lease.{TrainingPodLease}
use kestrel_cloud_runpod.Capacity.Errors.{Error, Result, ok, raise}
use kestrel_cloud_runpod.Repository.Columns.{Change}
use kestrel_cloud_runpod.Repository.Table
use kestrel_cloud_runpod.Repository.Table.{Table}
use kestrel_cloud_runpod.Repository.Unique.{IsExclusive, compare_and_set-IsExclusive}
use kestrel_cloud_runpod.Service.World.{
  Environment, World, Action, Call, pure, throw, continue, ◌>>=◌, recover, try_except, branch,
  try_else, when◌run◌otherwise◌, arrive, later, transact, ask, now, compare_and_set, get, required,
  present_or_raise,
}
use kestrel_cloud_runpod.Service.Transitions.{lift}

-- Another writer that keeps the claims of active rows apart.
abbrev pub IsApart : (Table → Table) → Type 0
IsApart peer = (rows : Table) → IsExclusive rows → IsExclusive (peer rows)

abbrev pub Apart : World → Type 0
Apart w = All IsApart w.peers × IsExclusive w.rows

pub record Keeps {A : Type 0} (m : Action A) : Type 0 where
  pub at : (w : World) → Apart w → Apart (m w).1

pub arrive-IsExclusive :
    (w : World) → Apart w → IsExclusive (arrive w.peers w.rows) × All IsApart (later w.peers)
arrive-IsExclusive w (p, x) = go w.peers p
  where
    go :
        (ps : List (Table → Table))
        → All IsApart ps
        → IsExclusive (arrive ps w.rows) × All IsApart (later ps)
    go [] p = (x, tt)
    go (peer ∷ ps) p = (p.0 w.rows x, p.1)

module _ {A : Type 0} where
  pub Keeps-pure : (a : A) → Keeps (pure a)
  unfolding pure
  Keeps-pure a = record { at = λ w k. k }

  pub Keeps-throw : (e : Error) → Keeps {A = A} (throw e)
  unfolding throw
  Keeps-throw e = record { at = λ w k. k }

  pub Keeps-lift : (r : Result A) → Keeps (lift r)
  unfolding lift
  Keeps-lift r = record { at = λ w k. k }

  pub Keeps-ask : (c : Call) (answer : ℕ → Result A) → Keeps (ask c answer)
  unfolding ask
  Keeps-ask c answer = record { at = λ w k. k }

  pub Keeps-when :
      (b : Bool) (m n : Action A) → Keeps m → Keeps n → Keeps (when b run m otherwise n)
  unfolding when◌run◌otherwise◌
  Keeps-when true m n x y = x
  Keeps-when false m n x y = y

  pub Keeps-try :
      (m : Action A) (p : Error → Bool) (h : Error → Action A)
      → Keeps m
      → ((e : Error) → Keeps (h e))
      → Keeps (try_except m p h)
  unfolding try_except
  Keeps-try m p h x y = record { at = λ w k. go (m w) (x.at w k) }
    where
      go : (out : Result A × World) → Apart out.1 → Apart (recover out p h).1
      go (ok a, w) k = k
      go (raise e, w) k = elim (Bool-cases (p e)) [ inl t ↦ rw t ((y e).at w k) | inr f ↦ rw f k ]

module _ {A B : Type 0} where
  pub Keeps-bind :
      (m : Action A) (f : A → Action B) → Keeps m → ((a : A) → Keeps (f a)) → Keeps (m >>= f)
  unfolding ◌>>=◌
  Keeps-bind m f x y = record { at = λ w k. go (m w) (x.at w k) }
    where
      go : (out : Result A × World) → Apart out.1 → Apart (continue out f).1
      go (ok a, w) k = (y a).at w k
      go (raise e, w) k = k

  pub Keeps-try_else :
      (m : Action A) (f : A → Action B) (p : Error → Bool) (h : Error → Action B)
      → Keeps m
      → ((a : A) → Keeps (f a))
      → ((e : Error) → Keeps (h e))
      → Keeps (try_else m f p h)
  unfolding try_else
  Keeps-try_else m f p h x y z = record { at = λ w k. go (m w) (x.at w k) }
    where
      go : (out : Result A × World) → Apart out.1 → Apart (branch out f p h).1
      go (ok a, w) k = (y a).at w k
      go (raise e, w) k = elim (Bool-cases (p e)) [ inl t ↦ rw t ((z e).at w k) | inr n ↦ rw n k ]

pub Keeps-transact :
    {A : Type 0} (f : Table → Result A × Table)
    → ((rows : Table) → IsExclusive rows → IsExclusive (f rows).1)
    → Keeps (transact f)
unfolding transact
Keeps-transact f h = record {
  at = λ w k. let (x, p) = arrive-IsExclusive w k in (p, h (arrive w.peers w.rows) x);
}

pub Keeps-query : {A : Type 0} (f : Table → Result A) → Keeps (transact (λ rows. (f rows, rows)))
Keeps-query f = Keeps-transact (λ rows. (f rows, rows)) (λ rows x. x)

module _ (env : Environment) where
  pub Keeps-now : Keeps (now env)
  unfolding now
  Keeps-now = record { at = λ w k. k }

  pub Keeps-compare_and_set :
      (l : TrainingPodLease) (cs : List Change) → Keeps (compare_and_set env l cs)
  unfolding compare_and_set
  Keeps-compare_and_set l cs = record {
    at = λ w.
        (Keeps-transact (Table.compare_and_set (env.utc_now w.ticks) l cs)
            (compare_and_set-IsExclusive (env.utc_now w.ticks) l cs)).at
          w;
  }

Keeps-present_or_raise : (o : Option TrainingPodLease) → Keeps (present_or_raise o)
unfolding present_or_raise
Keeps-present_or_raise none = Keeps-throw _
Keeps-present_or_raise (some l) = Keeps-pure l

pub Keeps-get : (token : String) → Keeps (get token)
unfolding get
Keeps-get token = Keeps-query (Table.get token)

pub Keeps-required : (token : String) → Keeps (required token)
unfolding required
Keeps-required token = Keeps-bind _ _ (Keeps-get token) Keeps-present_or_raise
