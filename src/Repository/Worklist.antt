-- ===== src/Repository/Worklist.antt =====
-- `list_for_reconciliation`: what a reconciliation pass works on.
use mathlib.Core.List.{Perm, Memᴰ}
use mathlib.Core.List.Perm
use kestrel_cloud_runpod.Prelude.{
  ◌≡◌, ◌≢◌, ◌⊎◌, ◌≤◌, refl, ap, ◌∙◌, List, [], ◌∷◌, Bool, true, false, inl, inr, arith, Bool-cases,
  All, All-imp, keep, not, ltb, le_trans,
}
use kestrel_cloud_runpod.Capacity.States.{
  TrainingPodState, PodCapacityBillingState, is_released, is_unsettled,
}
use kestrel_cloud_runpod.Capacity.Lease.{TrainingPodLease}
use kestrel_cloud_runpod.Capacity.Errors.{Error, Result, ok, raise}
use kestrel_cloud_runpod.Repository.Table.{Table, lease_from_row}
use kestrel_cloud_runpod.Repository.Listing.{
  insert_by, order_by, leases_from_rows, awaits_reconciliation, list_for_reconciliation,
}
use kestrel_cloud_runpod.Repository.Swap.{lease_from_row-eq}

-- No lease stands before an older one.
abbrev pub OldestFirst : List TrainingPodLease → Type 0
OldestFirst [] = Unit
OldestFirst (l ∷ ls) =
    All (λ (x : TrainingPodLease). l.created_at ≤ x.created_at) ls × OldestFirst ls

abbrev older : TrainingPodLease → TrainingPodLease → Bool
older a b = not (ltb b.created_at a.created_at)

insert_by-Perm :
    (le : TrainingPodLease → TrainingPodLease → Bool) (x : TrainingPodLease) (ys : Table)
    → Perm (insert_by le x ys) (x ∷ ys)
unfolding insert_by
insert_by-Perm le x [] = Perm.rfl
insert_by-Perm le x (y ∷ ys) = elim (Bool-cases (le x y)) [
  | inl b ↦ rw b Perm.rfl
  | inr b ↦ rw b (Perm.trans (Perm.cons y (insert_by-Perm le x ys)) (Perm.swap x y ys))
]

order_by-Perm :
    (le : TrainingPodLease → TrainingPodLease → Bool) (xs : Table) → Perm (order_by le xs) xs
unfolding order_by
order_by-Perm le [] = Perm.rfl
order_by-Perm le (x ∷ xs) =
    Perm.trans (insert_by-Perm le x (order_by le xs)) (Perm.cons x (order_by-Perm le xs))

older-le : (a b : TrainingPodLease) → older a b ≡ true → a.created_at ≤ b.created_at
older-le a b h = ground arith

younger-le : (a b : TrainingPodLease) → older a b ≡ false → b.created_at ≤ a.created_at
younger-le a b h = ground arith

insert_by-All :
    (P : TrainingPodLease → Type 0) (le : TrainingPodLease → TrainingPodLease → Bool)
    (x : TrainingPodLease) (ys : Table)
    → P x
    → All P ys
    → All P (insert_by le x ys)
unfolding insert_by
insert_by-All P le x [] p a = (p, tt)
insert_by-All P le x (y ∷ ys) p a = elim (Bool-cases (le x y)) [
  | inl b ↦ rw b (p, a)
  | inr b ↦ rw b (a.0, insert_by-All P le x ys p a.1)
]

insert_by-OldestFirst :
    (x : TrainingPodLease) (ys : Table) → OldestFirst ys → OldestFirst (insert_by older x ys)
unfolding insert_by
insert_by-OldestFirst x [] s = (tt, tt)
insert_by-OldestFirst x (y ∷ ys) s = elim (Bool-cases (older x y)) [
  | inl b ↦
      let first : x.created_at ≤ y.created_at = older-le x y b in
      rw b ((first, All-imp (λ z h. le_trans first h) ys s.0), s)
  | inr b ↦ rw b (insert_by-All _ older x ys (younger-le x y b) s.0, insert_by-OldestFirst x ys s.1)
]

order_by-OldestFirst : (xs : Table) → OldestFirst (order_by older xs)
unfolding order_by
order_by-OldestFirst [] = tt
order_by-OldestFirst (x ∷ xs) =
    insert_by-OldestFirst x (order_by older xs) (order_by-OldestFirst xs)

-- A lease that a reconciliation pass is for: it is not released, or its bill is open.
abbrev pub Awaits : TrainingPodLease → Type 0
Awaits l =
    (l.state ≢ TrainingPodState.released)
    ⊎ (l.billing_state ≡ PodCapacityBillingState.pending)
    ⊎ (l.billing_state ≡ PodCapacityBillingState.unresolved)

-- The second list is the elements of the first that have the property, in their order.
pub data Picks (P : TrainingPodLease → Type 0) : Table → Table → Type 0 where
  none_left : Picks P [] []
  take : {l : TrainingPodLease} {xs ys : Table} → P l → Picks P xs ys → Picks P (l ∷ xs) (l ∷ ys)
  skip : {l : TrainingPodLease} {xs ys : Table} → ¬ P l → Picks P xs ys → Picks P (l ∷ xs) ys

state-cases :
    (s : TrainingPodState)
    → ((is_released s ≡ true) × (s ≡ TrainingPodState.released))
      ⊎ ((is_released s ≡ false) × (s ≢ TrainingPodState.released))
state-cases TrainingPodState.released = inl (refl, refl)
state-cases _ = inr (refl, λ e. cc)

billing-cases :
    (b : PodCapacityBillingState)
    → ((is_unsettled b ≡ true)
        × ((b ≡ PodCapacityBillingState.pending) ⊎ (b ≡ PodCapacityBillingState.unresolved)))
      ⊎ ((is_unsettled b ≡ false)
          × (b ≢ PodCapacityBillingState.pending)
          × (b ≢ PodCapacityBillingState.unresolved))
billing-cases PodCapacityBillingState.pending = inl (refl, inl refl)
billing-cases PodCapacityBillingState.unresolved = inl (refl, inr refl)
billing-cases _ = inr (refl, λ e. cc, λ e. cc)

awaits_reconciliation-cases :
    (l : TrainingPodLease)
    → ((awaits_reconciliation l ≡ true) × Awaits l)
      ⊎ ((awaits_reconciliation l ≡ false) × (¬ Awaits l))
unfolding awaits_reconciliation
awaits_reconciliation-cases l = elim (state-cases l.state) [
  | inr (n, active) ↦ inl (rw n refl, inl active)
  | inl (y, over) ↦ elim (billing-cases l.billing_state) [
    | inl (u, open_bill) ↦ inl (rw (y, u) refl, inr open_bill)
    | inr (s, not_pending, not_unresolved) ↦ inr (
      rw (y, s) refl,
      λ a. elim a [
        | inl n ↦ n over
        | inr b ↦ elim b [ inl p ↦ not_pending p | inr u ↦ not_unresolved u ]
      ],
    )
  ]
]

keep-Picks : (rows : Table) → Picks Awaits rows (keep awaits_reconciliation rows)
keep-Picks [] = Picks.none_left
keep-Picks (row ∷ rows) = elim (awaits_reconciliation-cases row) [
  | inl (y, a) ↦ rw (y, keep) (Picks.take a (keep-Picks rows))
  | inr (n, a) ↦ rw (n, keep) (Picks.skip a (keep-Picks rows))
]

-- What is picked is there, and has the property.
Picks-All :
    (P Q : TrainingPodLease → Type 0) (xs ys : Table)
    → Picks P xs ys
    → All Q xs
    → All (λ l. Q l × P l) ys
Picks-All P Q _ _ Picks.none_left q = tt
Picks-All P Q _ _ (Picks.take {l} {xs} {ys} p more) q = ((q.0, p), Picks-All P Q xs ys more q.1)
Picks-All P Q _ _ (Picks.skip {l} {xs} {ys} n more) q = Picks-All P Q xs ys more q.1

All-self : (rows : Table) → All (λ (l : TrainingPodLease). Memᴰ l rows) rows
All-self [] = tt
All-self (l ∷ ls) = (Memᴰ.head refl, All-imp (λ x m. Memᴰ.tail m) ls (All-self ls))

order_by-All :
    (P : TrainingPodLease → Type 0) (le : TrainingPodLease → TrainingPodLease → Bool) (xs : Table)
    → All P xs
    → All P (order_by le xs)
unfolding order_by
order_by-All P le [] a = tt
order_by-All P le (x ∷ xs) a = insert_by-All P le x (order_by le xs) a.0 (order_by-All P le xs a.1)

-- A row that is refused, or all the rows.
pub leases_from_rows-cases :
    (P : TrainingPodLease → Type 0) (rows : Table)
    → All P rows
    → ((row : TrainingPodLease) × (e : Error) × P row
        × (lease_from_row row ≡ raise e)
        × (leases_from_rows rows ≡ raise e))
      ⊎ (leases_from_rows rows ≡ ok rows)
unfolding leases_from_rows
leases_from_rows-cases P [] a = inr refl
leases_from_rows-cases P (row ∷ rows) a =
    decoded (lease_from_row row) refl (leases_from_rows-cases P rows a.1)
  where
    joined :
        Result TrainingPodLease → Result (List TrainingPodLease) → Result (List TrainingPodLease)
    joined r rs = elim r [
      | raise e ↦ raise e
      | ok lease ↦ elim rs [ raise e ↦ raise e | ok leases ↦ ok (lease ∷ leases) ]
    ]

    decoded :
        (r : Result TrainingPodLease)
        → lease_from_row row ≡ r
        → ((row' : TrainingPodLease) × (e : Error) × P row'
            × (lease_from_row row' ≡ raise e)
            × (leases_from_rows rows ≡ raise e))
          ⊎ (leases_from_rows rows ≡ ok rows)
        → ((row' : TrainingPodLease) × (e : Error) × P row'
            × (lease_from_row row' ≡ raise e)
            × (leases_from_rows (row ∷ rows) ≡ raise e))
          ⊎ (leases_from_rows (row ∷ rows) ≡ ok (row ∷ rows))
    decoded (raise e) er k = inl (row, e, a.0, er, ap (λ s. joined s (leases_from_rows rows)) er)
    decoded (ok l) er (inl (row', e, p, er', k)) =
        inl (row', e, p, er', ap (λ s. joined s (leases_from_rows rows)) er ∙ ap (joined (ok l)) k)
    decoded (ok l) er (inr k) =
        let same : l ≡ row = lease_from_row-eq row er in
        inr (
          ap (λ s. joined s (leases_from_rows rows)) er
          ∙ ap (joined (ok l)) k
          ∙ ap (λ x. ok (x ∷ rows)) same)

-- `list_for_reconciliation` raises just what the decoding of a row raises that awaits reconciliation,
-- one that is not released or whose bill is pending or unresolved. Otherwise it lists all the rows
-- that do, each as often as the table has it and no other, and the oldest first.
pub list_for_reconciliation_complete :
    (rows : Table)
    → ((row : TrainingPodLease) × (e : Error) × (Memᴰ row rows × Awaits row)
        × (lease_from_row row ≡ raise e)
        × (list_for_reconciliation rows ≡ raise e))
      ⊎ ((leases : List TrainingPodLease) × (awaiting : Table) × (list_for_reconciliation rows
            ≡ ok leases)
          × Picks Awaits rows awaiting
          × Perm leases awaiting
          × OldestFirst leases)
unfolding list_for_reconciliation
list_for_reconciliation_complete rows =
    let awaiting : Table = keep awaits_reconciliation rows in
    let there : All (λ (l : TrainingPodLease). Memᴰ l rows × Awaits l) awaiting =
      Picks-All Awaits (λ l. Memᴰ l rows) rows awaiting (keep-Picks rows) (All-self rows) in
    elim (leases_from_rows-cases (λ l. Memᴰ l rows × Awaits l) (order_by older awaiting)
      (order_by-All _ older awaiting there)) [
        | inl refused ↦ inl refused
        | inr listed ↦ inr (
          order_by older awaiting,
          awaiting,
          listed,
          keep-Picks rows,
          order_by-Perm older awaiting,
          order_by-OldestFirst awaiting,
        )
      ]
