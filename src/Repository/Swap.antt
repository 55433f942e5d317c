-- ===== src/Repository/Swap.antt =====
-- `compare_and_set`: the two ways in which it ends, and what each means for the table.
use kestrel_cloud_runpod.Prelude.{
  ℕ, ◌+◌, ◌≡◌, refl, sym, ap, ◌∙◌, subst, Option, none, some, List, true, false, ◌⊎◌, inl, inr,
  arith, str_eq, str_eq_sound, Bool-cases, ◌==◌, ==_sound,
}
use kestrel_cloud_runpod.Capacity.Lease.{TrainingPodLease, is_terminal}
use kestrel_cloud_runpod.Capacity.Errors.{Result, ok, raise, conflict}
use kestrel_cloud_runpod.Repository.Columns.{Change, assign_all, updated_row}
use kestrel_cloud_runpod.Repository.Table.{
  Table, find, put, violates, lease_from_row, swap_row, compare_and_set,
}
use kestrel_cloud_runpod.Repository.Evolution.{
  SameIdentity, Evolves, Evolves-refl, Grows, Grows-refl, Seen, updated_row-SameIdentity,
  updated_row-Evolves, find-token, find-put_at, find-put_other,
}

-- Refused: a conflict, and the table is as it was.
pub record Refused (rows : Table) (out : Result TrainingPodLease × Table) : Type 0 where
  pub error : out.0 ≡ raise conflict
  pub table : out.1 ≡ rows

-- Written: the row had the lease's revision, and no active row claims what the new row claims.
pub record Written (now : ℕ) (lease : TrainingPodLease) (cs : List Change) (rows : Table)
    (out : Result TrainingPodLease × Table) : Type 0 where
  pub row : TrainingPodLease
  pub found : find lease.cleanup_token rows ≡ some row
  pub revision : row.revision ≡ lease.revision
  pub unclaimed : violates (updated_row now cs row) rows ≡ false
  pub table : out.1 ≡ put (updated_row now cs row) rows
  pub result : out.0 ≡ lease_from_row (updated_row now cs row)

pub compare_and_set-cases :
    (now : ℕ) (lease : TrainingPodLease) (cs : List Change) (rows : Table)
    → Refused rows (compare_and_set now lease cs rows)
      ⊎ Written now lease cs rows (compare_and_set now lease cs rows)
unfolding compare_and_set
compare_and_set-cases now lease cs rows = go (find lease.cleanup_token rows) refl
  where
    go :
        (o : Option TrainingPodLease)
        → find lease.cleanup_token rows ≡ o
        → Refused rows (swap_row now lease cs o rows)
          ⊎ Written now lease cs rows (swap_row now lease cs o rows)
    go none e = inl (record { error = refl; table = refl })
    go (some row) e = elim (Bool-cases (row.revision == lease.revision)) [
      | inr n ↦ rw n (inl (record { error = refl; table = refl }))
      | inl same ↦ elim (Bool-cases (violates (updated_row now cs row) rows)) [
        | inl v ↦ rw (same, v) (inl (record { error = refl; table = refl }))
        | inr u ↦
            rw (same, u)
              (inr (record {
                row = row;
                found = e;
                revision = ==_sound row.revision lease.revision same;
                unclaimed = u;
                table = refl;
                result = refl;
              }))
      ]
    ]

pub lease_from_row-eq :
    (row : TrainingPodLease) {l : TrainingPodLease} → lease_from_row row ≡ ok l → l ≡ row
unfolding lease_from_row
lease_from_row-eq row h = ground arith

-- The update keeps a released row released.
abbrev pub KeepsTerminal : List Change → TrainingPodLease → Type 0
KeepsTerminal cs l =
    (now : ℕ)
    → is_terminal l ≡ true
    → is_terminal (assign_all cs (record l { updated_at = now })) ≡ true

-- Replacing a row by one that evolves from it.
pub put-Grows :
    (new row : TrainingPodLease) (rows : Table)
    → find new.cleanup_token rows ≡ some row
    → Evolves row new
    → Grows rows (put new rows)
put-Grows new row rows h e token l f = elim (Bool-cases (str_eq new.cleanup_token token)) [
  | inr n ↦ (l, rw (find-put_other token new rows n) f, Evolves-refl l)
  | inl s ↦
      let same : new.cleanup_token ≡ token = str_eq_sound new.cleanup_token token s in
      let found : find token (put new rows) ≡ some new = find-put_at token new rows same f in
      let row-l : row ≡ l = cc in (new, found, subst (λ r. Evolves r new) row-l e)
]

-- The lease that was read is the row, if the row has its revision.
pub Seen-same :
    (lease row : TrainingPodLease) (rows : Table)
    → Seen lease rows
    → find lease.cleanup_token rows ≡ some row
    → row.revision ≡ lease.revision
    → row ≡ lease
Seen-same lease row rows (row', h, e) f r =
    let same : row' ≡ row = cc in
    cc (e.unwritten (ap (λ (x : TrainingPodLease). x.revision) same ∙ r))

-- A write from a lease that was read lets the table evolve, if it revives no released row.
pub compare_and_set-Grows :
    (now : ℕ) (lease : TrainingPodLease) (cs : List Change) (rows : Table)
    → Seen lease rows
    → KeepsTerminal cs lease
    → Grows rows (compare_and_set now lease cs rows).1
compare_and_set-Grows now lease cs rows seen keeps =
    elim (compare_and_set-cases now lease cs rows) [
      | inl r ↦ subst (Grows rows) (sym r.table) (Grows-refl rows)
      | inr w ↦
          let same : w.row ≡ lease = Seen-same lease w.row rows seen w.found w.revision in
          let e : Evolves w.row (updated_row now cs w.row) =
            updated_row-Evolves now cs w.row (subst (KeepsTerminal cs) (sym same) keeps now) in
          let token : (updated_row now cs w.row).cleanup_token ≡ lease.cleanup_token =
            e.identity.cleanup_token ∙ find-token lease.cleanup_token rows w.row w.found in
          subst (Grows rows) (sym w.table)
            (put-Grows (updated_row now cs w.row) w.row rows (rw token w.found) e)
    ]

updated_row_revision :
    (now : ℕ) (cs : List Change) (l : TrainingPodLease)
    → (updated_row now cs l).revision ≡ l.revision + 1
unfolding updated_row
updated_row_revision now cs l = refl

pub compare_and_set_returns :
    (now : ℕ) (lease : TrainingPodLease) (cs : List Change) (rows : Table) {l : TrainingPodLease}
    → Seen lease rows
    → (compare_and_set now lease cs rows).0 ≡ ok l
    → (l ≡ updated_row now cs lease)
      × (find lease.cleanup_token (compare_and_set now lease cs rows).1 ≡ some l)
      × (l.revision ≡ lease.revision + 1)
      × SameIdentity lease l
compare_and_set_returns now lease cs rows {l} seen h =
    elim (compare_and_set-cases now lease cs rows) [
      | inl r ↦ cc r.error
      | inr w ↦
          let same : w.row ≡ lease = Seen-same lease w.row rows seen w.found w.revision in
          let new : l ≡ updated_row now cs w.row = lease_from_row-eq _ (sym w.result ∙ h) in
          let token : (updated_row now cs w.row).cleanup_token ≡ lease.cleanup_token =
            (updated_row-SameIdentity now cs w.row).cleanup_token
            ∙ find-token lease.cleanup_token rows w.row w.found in
          let whole : l ≡ updated_row now cs lease = new ∙ ap (updated_row now cs) same in
          (
            whole,
            ap (find lease.cleanup_token) w.table
                ∙ find-put_at lease.cleanup_token (updated_row now cs w.row) rows token w.found
                ∙ ap some (sym new),
            ap (λ (x : TrainingPodLease). x.revision) whole ∙ updated_row_revision now cs lease,
            subst (SameIdentity lease) (sym whole) (updated_row-SameIdentity now cs lease),
          )
    ]
