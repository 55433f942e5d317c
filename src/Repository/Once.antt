-- ===== src/Repository/Once.antt =====
-- What a claim and a snapshot are good for: a token is reserved once, and a lease writes once.
use kestrel_cloud_runpod.Prelude.{
  ℕ, ◌+◌, ◌<◌, ◌≡◌, ◌≢◌, refl, sym, subst, ap, ◌∙◌, Option, none, some, List, ◌∷◌, Bool, true,
  false, inl, inr, arith, Bool-cases, ◌==◌, str_eq_refl, str_eq, if◌then◌else◌,
}
use kestrel_cloud_runpod.Capacity.Evidence.{evidence_ready}
use kestrel_cloud_runpod.Capacity.Lease.{TrainingPodLease, TrainingPodRequest, is_terminal}
use kestrel_cloud_runpod.Capacity.Errors.{Result, ok, raise, conflict}
use kestrel_cloud_runpod.Repository.Columns.{Change, updated_row}
use kestrel_cloud_runpod.Repository.Table.{
  Table, find, lease_from_row, violates, swap_row, compare_and_set,
}
use kestrel_cloud_runpod.Repository.Reserve.{
  initial_row, initial_evidence, family_ready, insert_row, reserved, reserve,
}
use kestrel_cloud_runpod.Repository.Evolution.{Grows, Seen, Evolves-refl}
use kestrel_cloud_runpod.Repository.Swap.{compare_and_set_returns, lease_from_row-eq}

updated_row-revision :
    (now : ℕ) (cs : List Change) (l : TrainingPodLease)
    → (updated_row now cs l).revision ≡ l.revision + 1
unfolding updated_row
updated_row-revision now cs l = refl

swap_row_stale :
    (now : ℕ) (lease row : TrainingPodLease) (cs : List Change) (rows : Table)
    → lease.revision < row.revision
    → swap_row now lease cs (some row) rows ≡ (raise conflict, rows)
unfolding swap_row
swap_row_stale now lease row cs rows h =
    let differs : (row.revision == lease.revision) ≡ false = ground arith in rw differs

-- A lease that was written from is spent: however the table evolved since, no second write from
-- the same snapshot succeeds, and it changes nothing.
pub compare_and_set_spent :
    (now now' : ℕ) (lease : TrainingPodLease) (changes changes' : List Change) (rows later : Table)
    {l : TrainingPodLease}
    → Seen lease rows
    → (compare_and_set now lease changes rows).0 ≡ ok l
    → Grows (compare_and_set now lease changes rows).1 later
    → compare_and_set now' lease changes' later ≡ (raise conflict, later)
unfolding compare_and_set
compare_and_set_spent now now' lease cs cs' rows later {l} seen h grows =
    let (written, stored, _, _) = compare_and_set_returns now lease cs rows seen h in
    let (row, found, e) = grows lease.cleanup_token l stored in
    let bumped : l.revision ≡ lease.revision + 1 =
      ap (λ (x : TrainingPodLease). x.revision) written ∙ updated_row-revision now cs lease in
    ap (λ o. swap_row now' lease cs' o later) found
    ∙ swap_row_stale now' lease row cs' later (omega (arith, e.revision_le, bumped))

reserved-flag :
    (r : TrainingPodRequest) (inserted : Bool) (row : TrainingPodLease) {l : TrainingPodLease}
    {flag : Bool}
    → reserved r inserted row ≡ ok (l, flag)
    → flag ≡ inserted
unfolding reserved
reserved-flag r inserted row h = ground arith

reserved-row :
    (r : TrainingPodRequest) (inserted : Bool) (row : TrainingPodLease) {l : TrainingPodLease}
    {flag : Bool}
    → reserved r inserted row ≡ ok (l, flag)
    → l ≡ row
unfolding reserved
reserved-row r inserted row {l} {flag} h = go (lease_from_row row) refl h
  where
    go :
        (o : Result TrainingPodLease)
        → lease_from_row row ≡ o
        → ◌≡◌ {A = Result (TrainingPodLease × Bool)}
            (elim o [
              | raise e ↦ raise e
              | ok lease ↦
                  if str_eq lease.request_fingerprint r.fingerprint
                  then ok (lease, inserted)
                  else raise conflict
            ])
            (ok (l, flag))
        → l ≡ row
    go (raise e) f h = cc
    go (ok lease) f h = elim (Bool-cases (str_eq lease.request_fingerprint r.fingerprint)) [
      | inl y ↦ cc (rw y at h, lease_from_row-eq row f)
      | inr n ↦ cc (rw n at h)
    ]

insert_row-returns :
    (r : TrainingPodRequest) (o : Option TrainingPodLease) (rows : Table) {l : TrainingPodLease}
    → (insert_row r o rows).0 ≡ ok (l, true)
    → l ≡ initial_row r
unfolding insert_row
insert_row-returns r (some row) rows h = cc (reserved-flag r false row h)
insert_row-returns r none rows h = elim (Bool-cases (violates (initial_row r) rows)) [
  | inl v ↦ cc (rw v at h)
  | inr u ↦ reserved-row r true (initial_row r) (rw u at h)
]

insert_row-added :
    (r : TrainingPodRequest) (o : Option TrainingPodLease) (rows : Table) {l : TrainingPodLease}
    → (insert_row r o rows).0 ≡ ok (l, true)
    → (insert_row r o rows).1 ≡ initial_row r ∷ rows
unfolding insert_row
insert_row-added r (some row) rows h = cc (reserved-flag r false row h)
insert_row-added r none rows h = elim (Bool-cases (violates (initial_row r) rows)) [
  | inl v ↦ cc (rw v at h)
  | inr u ↦ rw u
]

reserve-added :
    (r : TrainingPodRequest) (rows : Table) {l : TrainingPodLease}
    → (reserve r rows).0 ≡ ok (l, true)
    → (reserve r rows).1 ≡ initial_row r ∷ rows
unfolding reserve
reserve-added r rows h = elim (Bool-cases (evidence_ready (initial_evidence r.capacity_spec))) [
  | inr refused ↦ cc (rw refused at h)
  | inl ready ↦ elim (Bool-cases (family_ready r rows)) [
    | inr refused ↦ cc (rw (ready, refused) at h)
    | inl joined ↦
        rw (ready, joined)
          (insert_row-added r (find r.cleanup_token rows) rows (rw (ready, joined) at h))
  ]
]

reserve-returns :
    (r : TrainingPodRequest) (rows : Table) {l : TrainingPodLease}
    → (reserve r rows).0 ≡ ok (l, true)
    → l ≡ initial_row r
unfolding reserve
reserve-returns r rows h = elim (Bool-cases (evidence_ready (initial_evidence r.capacity_spec))) [
  | inr refused ↦ cc (rw refused at h)
  | inl ready ↦ elim (Bool-cases (family_ready r rows)) [
    | inr refused ↦ cc (rw (ready, refused) at h)
    | inl joined ↦ insert_row-returns r (find r.cleanup_token rows) rows (rw (ready, joined) at h)
  ]
]

find-initial_row :
    (r : TrainingPodRequest) (rows : Table)
    → find r.cleanup_token (initial_row r ∷ rows) ≡ some (initial_row r)
unfolding find initial_row
find-initial_row r rows = rw (str_eq_refl r.cleanup_token)

reserve_taken :
    (r : TrainingPodRequest) (rows : Table) {row : TrainingPodLease}
    → find r.cleanup_token rows ≡ some row
    → ((reserve r rows).1 ≡ rows) × ((l : TrainingPodLease) → (reserve r rows).0 ≢ ok (l, true))
unfolding reserve insert_row
reserve_taken r rows {row} f =
    elim (Bool-cases (evidence_ready (initial_evidence r.capacity_spec))) [
      | inr refused ↦ rw refused (refl, λ l e. cc)
      | inl ready ↦ rw ready (elim (Bool-cases (family_ready r rows)) [
        | inr refused ↦ rw refused (refl, λ l e. cc)
        | inl joined ↦
            rw joined (rw (f, insert_row) (refl, λ l e. cc (reserved-flag r false row e)))
      ])
    ]

-- A token is claimed once: after a reservation that inserted its row, and however the table evolved
-- since, reserving the same request again changes nothing and does not report an insertion.
pub reserve_once :
    (r : TrainingPodRequest) (rows later : Table) {l : TrainingPodLease}
    → (reserve r rows).0 ≡ ok (l, true)
    → Grows (reserve r rows).1 later
    → ((reserve r later).1 ≡ later)
      × ((l' : TrainingPodLease) → (reserve r later).0 ≢ ok (l', true))
reserve_once r rows later h grows =
    let stored : find r.cleanup_token (reserve r rows).1 ≡ some (initial_row r) =
      ap (find r.cleanup_token) (reserve-added r rows h) ∙ find-initial_row r rows in
    reserve_taken r later (grows r.cleanup_token (initial_row r) stored).1

-- The lease of a reservation that was inserted is a row of the table, and it is active.
pub reserve_inserted :
    (r : TrainingPodRequest) (rows : Table) {l : TrainingPodLease}
    → (reserve r rows).0 ≡ ok (l, true)
    → Seen l (reserve r rows).1 × (is_terminal l ≡ false)
unfolding initial_row
reserve_inserted r rows {l} h =
    let e : l ≡ initial_row r = reserve-returns r rows h in
    subst (λ (x : TrainingPodLease). Seen x (reserve r rows).1 × (is_terminal x ≡ false)) (sym e)
      (
        (
          initial_row r,
          ap (find r.cleanup_token) (reserve-added r rows h) ∙ find-initial_row r rows,
          Evolves-refl (initial_row r),
        ),
        refl,
      )
