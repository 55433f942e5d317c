-- ===== src/Repository/Evolution.antt =====
-- What a transaction may do to a row, and to the table: no row is deleted, its identity stays, its
-- revision grows with every write, and a released row stays released.
use kestrel_cloud_runpod.Prelude.{
  ℕ, ◌≤◌, ◌≡◌, refl, sym, ap, ◌∙◌, subst, String, some, List, [], ◌∷◌, true, false, inl, inr, arith,
  le_refl, le_trans, str_eq, str_eq_refl, str_eq_sound, Bool-cases, if◌then◌else◌,
}
use kestrel_cloud_runpod.Capacity.Lease.{TrainingPodLease, is_terminal}
use kestrel_cloud_runpod.Repository.Columns.{Change, assign, assign_all, updated_row}
use kestrel_cloud_runpod.Repository.Table.{Table, find, put}

-- The columns that no update writes.
pub record SameIdentity (l l' : TrainingPodLease) : Type 0 where
  pub cleanup_token : l'.cleanup_token ≡ l.cleanup_token
  pub root_cleanup_token : l'.root_cleanup_token ≡ l.root_cleanup_token
  pub request_fingerprint : l'.request_fingerprint ≡ l.request_fingerprint
  pub profile_id : l'.profile_id ≡ l.profile_id
  pub source : l'.source ≡ l.source
  pub resource_name : l'.resource_name ≡ l.resource_name
  pub created_at : l'.created_at ≡ l.created_at
  pub readiness_deadline : l'.readiness_deadline ≡ l.readiness_deadline
  pub hard_deadline : l'.hard_deadline ≡ l.hard_deadline
  pub capacity_spec : l'.capacity_spec ≡ l.capacity_spec

pub SameIdentity-refl : (l : TrainingPodLease) → SameIdentity l l
SameIdentity-refl l = record {
  cleanup_token = refl;
  root_cleanup_token = refl;
  request_fingerprint = refl;
  profile_id = refl;
  source = refl;
  resource_name = refl;
  created_at = refl;
  readiness_deadline = refl;
  hard_deadline = refl;
  capacity_spec = refl;
}

pub SameIdentity-trans :
    {l l' l'' : TrainingPodLease} → SameIdentity l l' → SameIdentity l' l'' → SameIdentity l l''
SameIdentity-trans p q = record {
  cleanup_token = q.cleanup_token ∙ p.cleanup_token;
  root_cleanup_token = q.root_cleanup_token ∙ p.root_cleanup_token;
  request_fingerprint = q.request_fingerprint ∙ p.request_fingerprint;
  profile_id = q.profile_id ∙ p.profile_id;
  source = q.source ∙ p.source;
  resource_name = q.resource_name ∙ p.resource_name;
  created_at = q.created_at ∙ p.created_at;
  readiness_deadline = q.readiness_deadline ∙ p.readiness_deadline;
  hard_deadline = q.hard_deadline ∙ p.hard_deadline;
  capacity_spec = q.capacity_spec ∙ p.capacity_spec;
}

assign-SameIdentity : (c : Change) (l : TrainingPodLease) → SameIdentity l (assign c l)
unfolding assign
assign-SameIdentity (Change.provider_pod_id v) l = (search)
assign-SameIdentity _ l = (search)

pub assign_all-SameIdentity :
    (cs : List Change) (l : TrainingPodLease) → SameIdentity l (assign_all cs l)
unfolding assign_all
assign_all-SameIdentity [] l = SameIdentity-refl l
assign_all-SameIdentity (c ∷ cs) l =
    SameIdentity-trans (assign-SameIdentity c l) (assign_all-SameIdentity cs (assign c l))

pub updated_row-SameIdentity :
    (now : ℕ) (cs : List Change) (l : TrainingPodLease) → SameIdentity l (updated_row now cs l)
unfolding updated_row
updated_row-SameIdentity now cs l =
    let p : SameIdentity (record l { updated_at = now })
        (assign_all cs (record l { updated_at = now })) =
      assign_all-SameIdentity cs (record l { updated_at = now }) in
    search p

-- How a row may change between two moments.
pub record Evolves (l l' : TrainingPodLease) : Type 0 where
  pub identity : SameIdentity l l'
  pub revision_le : l.revision ≤ l'.revision
  -- The revision counts the writes: an equal revision means the same row.
  pub unwritten : l'.revision ≡ l.revision → l' ≡ l
  pub terminal : is_terminal l ≡ true → is_terminal l' ≡ true

pub Evolves-refl : (l : TrainingPodLease) → Evolves l l
Evolves-refl l = record {
  identity = SameIdentity-refl l;
  revision_le = le_refl _;
  unwritten = λ _. refl;
  terminal = λ h. h;
}

pub Evolves-trans : {l l' l'' : TrainingPodLease} → Evolves l l' → Evolves l' l'' → Evolves l l''
Evolves-trans {l} {l'} {l''} p q = record {
  identity = SameIdentity-trans p.identity q.identity;
  revision_le = le_trans p.revision_le q.revision_le;
  unwritten = λ e.
      let back : l'.revision ≡ l.revision = omega (arith, p.revision_le, q.revision_le) in
      q.unwritten (e ∙ sym back) ∙ p.unwritten back;
  terminal = λ h. q.terminal (p.terminal h);
}

-- A write that keeps a released row released.
pub updated_row-Evolves :
    (now : ℕ) (cs : List Change) (l : TrainingPodLease)
    → (is_terminal l ≡ true → is_terminal (assign_all cs (record l { updated_at = now })) ≡ true)
    → Evolves l (updated_row now cs l)
unfolding updated_row
updated_row-Evolves now cs l h = record {
  identity = updated_row-SameIdentity now cs l;
  revision_le = omega arith;
  unwritten = λ e. absurd (omega arith);
  terminal = h;
}

-- A lease that was read from the table, as the table is now.
abbrev pub Seen : TrainingPodLease → Table → Type 0
Seen l rows = (row : TrainingPodLease) × (find l.cleanup_token rows ≡ some row) × Evolves l row

-- Every row is still there, evolved.
abbrev pub Grows : Table → Table → Type 0
Grows rows rows' =
    (token : String) (l : TrainingPodLease)
    → find token rows ≡ some l
    → (l' : TrainingPodLease) × (find token rows' ≡ some l') × Evolves l l'

pub Grows-refl : (rows : Table) → Grows rows rows
Grows-refl rows token l h = (l, h, Evolves-refl l)

pub Grows-trans : (a b c : Table) → Grows a b → Grows b c → Grows a c
Grows-trans a b c p q token l h =
    let (l', h', e) = p token l h in
    let (l'', h'', e') = q token l' h' in (l'', h'', Evolves-trans e e')

pub Seen-Grows : (l : TrainingPodLease) (a b : Table) → Grows a b → Seen l a → Seen l b
Seen-Grows l a b g (row, h, e) =
    let (row', h', e') = g l.cleanup_token row h in (row', h', Evolves-trans e e')

pub find-token :
    (token : String) (rows : Table) (l : TrainingPodLease)
    → find token rows ≡ some l
    → l.cleanup_token ≡ token
unfolding find
find-token token [] l h = cc
find-token token (row ∷ rows) l h = elim (Bool-cases (str_eq row.cleanup_token token)) [
  | inl e ↦ ground (arith, str_eq_sound row.cleanup_token token e)
  | inr n ↦ find-token token rows l (rw n at h)
]

pub find-put_self :
    (new : TrainingPodLease) (rows : Table) (row : TrainingPodLease)
    → find new.cleanup_token rows ≡ some row
    → find new.cleanup_token (put new rows) ≡ some new
unfolding find put
find-put_self new [] row h = cc
find-put_self new (r ∷ rows) row h = elim (Bool-cases (str_eq r.cleanup_token new.cleanup_token)) [
  | inl e ↦ rw (e, str_eq_refl new.cleanup_token)
  | inr n ↦ rw (n, n) (find-put_self new rows row (rw n at h))
]

pub find-put_at :
    (token : String) (new : TrainingPodLease) (rows : Table) {row : TrainingPodLease}
    → new.cleanup_token ≡ token
    → find token rows ≡ some row
    → find token (put new rows) ≡ some new
find-put_at token new rows {row} e =
    subst (λ t. find t rows ≡ some row → find t (put new rows) ≡ some new) e
      (find-put_self new rows row)

pub find-put_other :
    (token : String) (new : TrainingPodLease) (rows : Table)
    → str_eq new.cleanup_token token ≡ false
    → find token (put new rows) ≡ find token rows
unfolding find put
find-put_other token new [] h = refl
find-put_other token new (r ∷ rows) h =
    elim (Bool-cases (str_eq r.cleanup_token new.cleanup_token)) [
      | inl e ↦
          let same : r.cleanup_token ≡ new.cleanup_token =
            str_eq_sound r.cleanup_token new.cleanup_token e in
          rw e (rw h (rw (same, h)))
      | inr n ↦ rw n (
          ap (λ rest. if str_eq r.cleanup_token token then some r else rest)
            (find-put_other token new rows h))
    ]
