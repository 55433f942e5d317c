-- ===== src/Service/Safety/Outcome.antt =====
-- What the retrying transitions return: the lease that was asked for, with what the changes set.
use kestrel_cloud_runpod.Prelude.{
  ℕ, zero, suc, ◌≡◌, refl, sym, ap, ◌∙◌, subst, String, Option, none, some, List, [], ◌∷◌, ◌++◌,
  Bool, true, false, not, ◌||◌, ◌⊎◌, inl, inr,
}
use kestrel_cloud_runpod.Capacity.Evidence.{PodCapacityEvidence}
use kestrel_cloud_runpod.Capacity.Lease.{TrainingPodLease, is_terminal}
use kestrel_cloud_runpod.Capacity.Errors.{Error, Result, ok, raise, out_of_fuel}
use kestrel_cloud_runpod.Repository.Columns.{Change, updated_row}
use kestrel_cloud_runpod.Repository.Columns
use kestrel_cloud_runpod.Repository.Table.{Table}
use kestrel_cloud_runpod.Repository.Evolution.{
  Grows, Grows-refl, Seen, Seen-Grows, find-token, updated_row-SameIdentity,
}
use kestrel_cloud_runpod.Repository.Swap.{KeepsTerminal, compare_and_set_returns}
use kestrel_cloud_runpod.Service.World.{
  Environment, World, Action, pure, ◌>>=◌, arrive, transact, compare_and_set, required,
}
use kestrel_cloud_runpod.Service.Transitions.{
  Observed, merge_evidence, lift, persisted_changes, transition_loop, transition_nonterminal,
  evidence_loop, transition_with_evidence, record_retryable_failure,
}
use kestrel_cloud_runpod.Service.Progress.{waited, Reading, unread, fresh, required-Reading}
use kestrel_cloud_runpod.Service.Safety.{
  Safely, Safely-pure, Safely-throw, Safely-if, Safely-try, Safely-bind, Safely-compare_and_set,
  Safely-required, arrive-Grows,
}
use kestrel_cloud_runpod.Service.Safety.Transitions.{
  KeepsTerminal-active, ||-false, Safely-after_now,
}

-- A lease of the table, of the token, with a property.
pub record Outcome (token : String) (P : TrainingPodLease → Type 0) (l : TrainingPodLease)
    (rows : Table) : Type 0 where
  pub seen : Seen l rows
  pub token_of : l.cleanup_token ≡ token
  pub holds : P l

module _ {token : String} {P : TrainingPodLease → Type 0} where
  pub Outcome-Grows :
      (l : TrainingPodLease) (a b : Table) → Grows a b → Outcome token P l a → Outcome token P l b
  Outcome-Grows l a b g o = record {
    seen = Seen-Grows l a b g o.seen;
    token_of = o.token_of;
    holds = o.holds;
  }

  pub Safely-pure-Outcome :
      (l : TrainingPodLease) {base : Table}
      → Outcome token P l base
      → Safely base (Outcome token P) (pure l)
  Safely-pure-Outcome l {base} o = Safely-pure l (λ rows g. Outcome-Grows l base rows g o)

  -- A write returns the row that it stored.
  pub compare_and_set-Outcome :
      (env : Environment) (lease : TrainingPodLease) (cs : List Change) {base : Table}
      → Seen lease base
      → lease.cleanup_token ≡ token
      → KeepsTerminal cs lease
      → ((t : ℕ) → P (updated_row t cs lease))
      → Safely base (Outcome token P) (compare_and_set env lease cs)
  unfolding compare_and_set transact
  compare_and_set-Outcome env lease cs {base} s e keeps holds = record {
    at = λ w r g.
        let safe = (Safely-compare_and_set env lease cs s keeps).at w r g in
        record {
          rely = safe.rely;
          grows = safe.grows;
          returns = λ l h.
              let t : ℕ = env.utc_now w.ticks in
              let rows : Table = arrive w.peers w.rows in
              let new : l ≡ updated_row t cs lease =
                (compare_and_set_returns t lease cs rows
                  (Seen-Grows lease w.rows rows (arrive-Grows w.peers w.rows r)
                    (Seen-Grows lease base w.rows g s))
                  h).0 in
              record {
                seen = safe.returns l h;
                token_of =
                    ap (λ (x : TrainingPodLease). x.cleanup_token) new
                    ∙ (updated_row-SameIdentity t cs lease).cleanup_token
                    ∙ e;
                holds = subst P (sym new) (holds t);
              };
        };
  }

-- Nothing more is known.
abbrev pub Nothing : TrainingPodLease → Type 0
Nothing l = Unit

pub required-Outcome :
    (token : String) {base : Table} → Safely base (Outcome token Nothing) (required token)
required-Outcome token = record {
  at = λ w r g.
      let safe = (Safely-required token).at w r g in
      record {
        rely = safe.rely;
        grows = safe.grows;
        returns = λ l h. record {
          seen = safe.returns l h;
          token_of = read_token w (required token w) (required-Reading token w) l h;
          holds = tt;
        };
      };
}
  where
    read_token :
        (w : World) (out : Result TrainingPodLease × World)
        → Reading token w out
        → (l : TrainingPodLease) → out.0 ≡ ok l
        → l.cleanup_token ≡ token
    read_token w out (unread e n) l h = cc
    read_token w out (fresh row f) l h =
        let same : row ≡ l = cc in
        subst (λ (x : TrainingPodLease). x.cleanup_token ≡ token) same
          (find-token token (waited w).rows row f)

-- The handler that reads the row again.
pub again-Outcome :
    {A : Type 0} {Q : A → Table → Type 0} (token : String) (f : TrainingPodLease → Action A)
    {base : Table}
    → ((l : TrainingPodLease) (rows : Table) → Outcome token Nothing l rows → Safely rows Q (f l))
    → Safely base Q (required token >>= f)
again-Outcome token f k =
    Safely-bind (required token) f (required-Outcome token) (λ l rows g o. k l rows o)

-- The columns that `_transition_with_evidence` writes: the changes, and the evidence of a catalog
-- lease.
persisted_changes-cases :
    (cs : List Change) (seen : Observed) (o : Option PodCapacityEvidence) {cs' : List Change}
    → persisted_changes cs seen o ≡ ok cs'
    → (cs' ≡ cs) ⊎ ((e : PodCapacityEvidence) × (cs' ≡ cs ++ Columns.evidence_json (some e) ∷ []))
unfolding persisted_changes
persisted_changes-cases cs seen none h = inl (cc)
persisted_changes-cases cs seen (some e) {cs'} h = go (merge_evidence seen e) h
  where
    wrap : Result PodCapacityEvidence → Result (List Change)
    wrap r = elim r [ raise x ↦ raise x | ok e' ↦ ok (cs ++ Columns.evidence_json (some e') ∷ []) ]

    go :
        (r : Result PodCapacityEvidence)
        → wrap r ≡ ok cs'
        → (cs' ≡ cs)
          ⊎ ((e : PodCapacityEvidence) × (cs' ≡ cs ++ Columns.evidence_json (some e) ∷ []))
    go (raise x) k = absurd (cc)
    go (ok e') k = inr (e', cc)

Safely-lift_eq : {A : Type 0} (r : Result A) {base : Table} → Safely base (λ a _. r ≡ ok a) (lift r)
unfolding lift
Safely-lift_eq r = record {
  at = λ w k g. record { rely = k; grows = Grows-refl w.rows; returns = λ a e. e };
}

||-true : (a : Bool) → (a || not true) ≡ true → a ≡ true
||-true true h = refl
||-true false h = cc

module _ {P : TrainingPodLease → Type 0} (env : Environment) (cs : List Change)
    (terminal : (l : TrainingPodLease) → is_terminal l ≡ true → P l)
    (written : (t : ℕ) (l : TrainingPodLease) → P (updated_row t cs l)) where
  transition_loop-Outcome :
      (n : ℕ) (token : String) (l : TrainingPodLease) (base : Table)
      → Outcome token Nothing l base
      → Safely base (Outcome token P) (transition_loop env n cs l)
  unfolding transition_loop
  transition_loop-Outcome zero token l base o =
      Safely-if _ _ _
        (λ t.
          Safely-pure-Outcome l
            (record { seen = o.seen; token_of = o.token_of; holds = terminal l t }))
        (λ _. Safely-throw out_of_fuel)
  transition_loop-Outcome (suc n) token l base o =
      Safely-if _ _ _
        (λ t.
          Safely-pure-Outcome l
            (record { seen = o.seen; token_of = o.token_of; holds = terminal l t }))
        (λ active.
          Safely-try _ _ _
            (compare_and_set-Outcome env l cs o.seen o.token_of (KeepsTerminal-active cs l active)
              (λ t. written t l))
            (λ e.
              subst
                (λ t.
                  Safely base (Outcome token P)
                    (required t >>= λ fresh. transition_loop env n cs fresh))
                (sym o.token_of) (again-Outcome token _ (transition_loop-Outcome n token))))

  pub transition_nonterminal-Outcome :
      (token : String) (l : TrainingPodLease) {base : Table}
      → Outcome token Nothing l base
      → Safely base (Outcome token P) (transition_nonterminal env l cs)
  unfolding transition_nonterminal
  transition_nonterminal-Outcome token l {base} = transition_loop-Outcome env.fuel token l base

  -- The evidence column does not matter to the property.
  module _
      (recorded : (t : ℕ) (e : PodCapacityEvidence) (l : TrainingPodLease)
        → P (updated_row t (cs ++ Columns.evidence_json (some e) ∷ []) l))
      (seen : Observed) where
    persisted-P :
        (l : TrainingPodLease) (cs' : List Change)
        → persisted_changes cs seen l.evidence ≡ ok cs'
        → (t : ℕ) → P (updated_row t cs' l)
    persisted-P l cs' h t = elim (persisted_changes-cases cs seen l.evidence h) [
      | inl e ↦ subst (λ x. P (updated_row t x l)) (sym e) (written t l)
      | inr (v, e) ↦ subst (λ x. P (updated_row t x l)) (sym e) (recorded t v l)
    ]

    evidence_loop-Outcome :
        (n : ℕ) (token : String) (l : TrainingPodLease) (base : Table)
        → Outcome token Nothing l base
        → Safely base (Outcome token P) (evidence_loop env n cs seen none l)
    unfolding evidence_loop
    evidence_loop-Outcome zero token l base o =
        Safely-if _ _ _
          (λ t.
            Safely-pure-Outcome l
              (record { seen = o.seen; token_of = o.token_of; holds = terminal l t }))
          (λ _. Safely-throw out_of_fuel)
    evidence_loop-Outcome (suc n) token l base o =
        Safely-if _ _ _
          (λ t. Safely-pure-Outcome l (record {
            seen = o.seen;
            token_of = o.token_of;
            holds = terminal l (||-true (is_terminal l) t);
          }))
          (λ active.
            Safely-bind _ _ (Safely-lift_eq (persisted_changes cs seen l.evidence)) (λ cs' rows g e.
              Safely-try _ _ _
                (compare_and_set-Outcome env l cs' (Seen-Grows l base rows g o.seen) o.token_of
                  (KeepsTerminal-active cs' l (||-false (is_terminal l) _ active))
                  (persisted-P l cs' e))
                (λ x.
                  subst
                    (λ t.
                      Safely rows (Outcome token P)
                        (required t >>= λ fresh. evidence_loop env n cs seen none fresh))
                    (sym o.token_of) (again-Outcome token _ (evidence_loop-Outcome n token)))))

    pub transition_with_evidence-Outcome :
        (token : String) (l : TrainingPodLease) {base : Table}
        → Outcome token Nothing l base
        → Safely base (Outcome token P) (transition_with_evidence env l cs seen none)
    unfolding transition_with_evidence
    transition_with_evidence-Outcome token l {base} = evidence_loop-Outcome env.fuel token l base

module _ (env : Environment) where
  pub record_retryable_failure-Outcome :
      (token : String) (l : TrainingPodLease) (e : Error) (u : Option Bool) {base : Table}
      → l.cleanup_token ≡ token
      → Safely base (Outcome token Nothing) (record_retryable_failure env l e u)
  unfolding record_retryable_failure
  record_retryable_failure-Outcome token l e u {base} at_token =
      again-Outcome l.cleanup_token _ (λ current rows o.
        let o' : Outcome token Nothing current rows = record {
          seen = o.seen;
          token_of = o.token_of ∙ at_token;
          holds = tt;
        } in
        Safely-if _ _ _ (λ _. Safely-pure-Outcome current o')
          (λ _. Safely-after_now env _ (λ t rows' g.
            transition_nonterminal-Outcome env _ (λ _ _. tt) (λ _ _. tt) token current
              (Outcome-Grows current rows rows' g o'))))
