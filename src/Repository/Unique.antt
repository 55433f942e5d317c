-- ===== src/Repository/Unique.antt =====
-- The partial unique indexes: at most one active row claims a resource name, a provider Pod or a
-- cleanup family.
use kestrel_cloud_runpod.Prelude.{
  ℕ, ◌≡◌, ◌≢◌, refl, sym, ap, ◌∙◌, subst, String, Option, none, some, List, [], ◌∷◌, Bool, true,
  false, inl, inr, arith, str_eq, str_eq_refl, str_eq_sound, str_eq_comm, opt_str_eq_comm,
  Bool-cases, eq_iff, not, ◌&&◌, ◌||◌,
}
use kestrel_cloud_runpod.Capacity.Evidence.{evidence_ready}
use kestrel_cloud_runpod.Capacity.Lease.{TrainingPodLease, TrainingPodRequest}
use kestrel_cloud_runpod.Repository.Columns.{Change, updated_row}
use kestrel_cloud_runpod.Repository.Table.{Table, find, put, clash, violates, compare_and_set}
use kestrel_cloud_runpod.Repository.Reserve.{
  initial_row, initial_evidence, family_ready, insert_row, reserve,
}
use kestrel_cloud_runpod.Repository.Evolution.{
  Evolves-refl, Grows, Grows-refl, find-token, find-put_at, find-put_other,
  updated_row-SameIdentity,
}
use kestrel_cloud_runpod.Repository.Swap.{compare_and_set-cases}

-- No two rows of the table claim the same resource while both are active.
abbrev pub IsExclusive : Table → Type 0
IsExclusive rows =
    (s t : String) (a b : TrainingPodLease)
    → find s rows ≡ some a
    → find t rows ≡ some b
    → s ≢ t
    → clash a b ≡ false

clash_comm : (a b : TrainingPodLease) → clash a b ≡ clash b a
unfolding clash
clash_comm a b = ground (
  arith,
  str_eq_comm a.resource_name b.resource_name,
  str_eq_comm a.root_cleanup_token b.root_cleanup_token,
  opt_str_eq_comm a.provider_pod_id b.provider_pod_id,
)

guarded_or-false :
    (a b c : Bool) → ((not a && b) || c) ≡ false → (a ≡ false → b ≡ false) × (c ≡ false)
guarded_or-false true b c h = (λ e. cc, h)
guarded_or-false false true c h = cc
guarded_or-false false false c h = (λ e. refl, h)

ne-str_eq : (s t : String) → s ≢ t → str_eq s t ≡ false
ne-str_eq s t n = ground (arith, eq_iff s t)

pub violates-find :
    (new : TrainingPodLease) (t : String) (b : TrainingPodLease) (rows : Table)
    → violates new rows ≡ false
    → find t rows ≡ some b
    → new.cleanup_token ≢ t
    → clash new b ≡ false
unfolding violates find
violates-find new t b [] v f n = cc
violates-find new t b (row ∷ rows) v f n = elim (Bool-cases (str_eq row.cleanup_token t)) [
  | inl e ↦
      let at : row.cleanup_token ≡ t = str_eq_sound row.cleanup_token t e in
      let same : row ≡ b = cc (rw e at f) in
      let apart : clash new row ≡ false =
        parts.0 (ne-str_eq row.cleanup_token new.cleanup_token (λ e. n (sym e ∙ at))) in
      subst (λ r. clash new r ≡ false) same apart
  | inr other ↦ violates-find new t b rows parts.1 (rw other at f) n
]
  where
    parts :
        (str_eq row.cleanup_token new.cleanup_token ≡ false → clash new row ≡ false)
        × (violates new rows ≡ false)
    parts =
        guarded_or-false (str_eq row.cleanup_token new.cleanup_token) (clash new row)
          (violates new rows) v

-- Replacing the row of a token, or adding one for a new token, by one that no active row clashes
-- with.
store-IsExclusive :
    (new : TrainingPodLease) (rows rows' : Table)
    → violates new rows ≡ false
    → find new.cleanup_token rows' ≡ some new
    → ((t : String) → new.cleanup_token ≢ t → find t rows' ≡ find t rows)
    → IsExclusive rows
    → IsExclusive rows'
store-IsExclusive new rows rows' v self other x s t a b fa fb n =
    elim (Bool-cases (str_eq new.cleanup_token s)) [
      | inl es ↦
          let at : new.cleanup_token ≡ s = str_eq_sound new.cleanup_token s es in
          let same : new ≡ a = cc (ap (λ u. find u rows') at) in
          let apart : new.cleanup_token ≢ t = λ e. n (sym at ∙ e) in
          subst (λ r. clash r b ≡ false) same
            (violates-find new t b rows v (sym (other t apart) ∙ fb) apart)
      | inr ns ↦ elim (Bool-cases (str_eq new.cleanup_token t)) [
        | inl et ↦
            let at : new.cleanup_token ≡ t = str_eq_sound new.cleanup_token t et in
            let same : new ≡ b = cc (ap (λ u. find u rows') at) in
            let apart : new.cleanup_token ≢ s = λ e. n (sym e ∙ at) in
            subst (λ r. clash a r ≡ false) same
              (clash_comm a new ∙ violates-find new s a rows v (sym (other s apart) ∙ fa) apart)
        | inr nt ↦
            let apart_s : new.cleanup_token ≢ s = λ e. cc ((eq_iff new.cleanup_token s).1 e) in
            let apart_t : new.cleanup_token ≢ t = λ e. cc ((eq_iff new.cleanup_token t).1 e) in
            x s t a b (sym (other s apart_s) ∙ fa) (sym (other t apart_t) ∙ fb) n
      ]
    ]

-- Every update keeps the claims of active rows apart, whatever columns it writes.
pub compare_and_set-IsExclusive :
    (now : ℕ) (lease : TrainingPodLease) (changes : List Change) (rows : Table)
    → IsExclusive rows
    → IsExclusive (compare_and_set now lease changes rows).1
compare_and_set-IsExclusive now lease cs rows x = elim (compare_and_set-cases now lease cs rows) [
  | inl r ↦ subst IsExclusive (sym r.table) x
  | inr w ↦
      let new = updated_row now cs w.row in
      let token : new.cleanup_token ≡ lease.cleanup_token =
        (updated_row-SameIdentity now cs w.row).cleanup_token
        ∙ find-token lease.cleanup_token rows w.row w.found in
      subst IsExclusive (sym w.table) (
        store-IsExclusive new rows (put new rows) w.unclaimed
          (find-put_at new.cleanup_token new rows refl (ap (λ t. find t rows) token ∙ w.found))
          (λ t n. find-put_other t new rows (ne-str_eq new.cleanup_token t n)) x)
]

initial_row-token : (r : TrainingPodRequest) → (initial_row r).cleanup_token ≡ r.cleanup_token
unfolding initial_row
initial_row-token r = refl

-- How a reservation changes the table: not at all, or by the new row in front.
pub data Reservation (r : TrainingPodRequest) (rows : Table) : Table → Type 0 where
  kept : Reservation r rows rows
  added :
      find r.cleanup_token rows ≡ none
      → violates (initial_row r) rows ≡ false
      → Reservation r rows (initial_row r ∷ rows)

insert_row-Reservation :
    (r : TrainingPodRequest) (o : Option TrainingPodLease) (rows : Table)
    → find r.cleanup_token rows ≡ o
    → Reservation r rows (insert_row r o rows).1
unfolding insert_row
insert_row-Reservation r (some row) rows e = kept
insert_row-Reservation r none rows e = elim (Bool-cases (violates (initial_row r) rows)) [
  | inl v ↦ rw v kept
  | inr u ↦ rw u (added e u)
]

pub reserve-Reservation :
    (r : TrainingPodRequest) (rows : Table) → Reservation r rows (reserve r rows).1
unfolding reserve
reserve-Reservation r rows = elim (Bool-cases (evidence_ready (initial_evidence r.capacity_spec))) [
  | inr refused ↦ rw refused kept
  | inl ready ↦ rw ready (elim (Bool-cases (family_ready r rows)) [
    | inr refused ↦ rw refused kept
    | inl joined ↦ rw joined (insert_row-Reservation r (find r.cleanup_token rows) rows refl)
  ])
]

find-cons_self :
    (new : TrainingPodLease) (rows : Table) → find new.cleanup_token (new ∷ rows) ≡ some new
unfolding find
find-cons_self new rows = rw (str_eq_refl new.cleanup_token)

find-cons_other :
    (t : String) (new : TrainingPodLease) (rows : Table)
    → new.cleanup_token ≢ t
    → find t (new ∷ rows) ≡ find t rows
unfolding find
find-cons_other t new rows n = rw (ne-str_eq new.cleanup_token t n)

Reservation-IsExclusive :
    (r : TrainingPodRequest) (rows : Table) {rows' : Table}
    → Reservation r rows rows'
    → IsExclusive rows
    → IsExclusive rows'
Reservation-IsExclusive r rows kept x = x
Reservation-IsExclusive r rows (added f v) x =
    store-IsExclusive (initial_row r) rows (initial_row r ∷ rows) v
      (find-cons_self (initial_row r) rows) (λ t. find-cons_other t (initial_row r) rows) x

-- A reservation keeps the claims of active rows apart, on every branch.
pub reserve-IsExclusive :
    (r : TrainingPodRequest) (rows : Table) → IsExclusive rows → IsExclusive (reserve r rows).1
reserve-IsExclusive r rows = Reservation-IsExclusive r rows (reserve-Reservation r rows)

Reservation-Grows :
    (r : TrainingPodRequest) (rows : Table) {rows' : Table}
    → Reservation r rows rows'
    → Grows rows rows'
Reservation-Grows r rows kept token l h = Grows-refl rows token l h
Reservation-Grows r rows (added f v) token l h = elim (Bool-cases (str_eq r.cleanup_token token)) [
  | inl e ↦ cc (ap (λ t. find t rows) (str_eq_sound r.cleanup_token token e))
  | inr n ↦ (
    l,
    find-cons_other token (initial_row r) rows
          (λ e. cc ((eq_iff r.cleanup_token token).1 (sym (initial_row-token r) ∙ e)))
        ∙ h,
    Evolves-refl l,
  )
]

-- A reservation touches no row that is there.
pub reserve-Grows : (r : TrainingPodRequest) (rows : Table) → Grows rows (reserve r rows).1
reserve-Grows r rows = Reservation-Grows r rows (reserve-Reservation r rows)
