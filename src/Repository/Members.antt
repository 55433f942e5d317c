-- ===== src/Repository/Members.antt =====
-- `list_cleanup_family`: a row of the family is listed.
use mathlib.Core.List.{Memᴰ}
use kestrel_cloud_runpod.Prelude.{
  ◌≡◌, refl, sym, ap, ◌∙◌, subst, String, some, List, [], ◌∷◌, Bool, true, inl, inr, Bool-cases,
  keep, str_eq, eq_iff, All,
}
use kestrel_cloud_runpod.Capacity.Lease.{TrainingPodLease}
use kestrel_cloud_runpod.Capacity.Errors.{ok}
use kestrel_cloud_runpod.Repository.Table.{Table, find}
use kestrel_cloud_runpod.Repository.Listing.{
  insert_by, order_by, before, in_family, leases_from_rows, list_cleanup_family,
}
use kestrel_cloud_runpod.Repository.Worklist.{leases_from_rows-cases}

find-Mem :
    (token : String) (rows : Table) {row : TrainingPodLease}
    → find token rows ≡ some row
    → Memᴰ row rows
unfolding find
find-Mem token [] h = cc
find-Mem token (r ∷ rows) {row} h = elim (Bool-cases (str_eq r.cleanup_token token)) [
  | inl y ↦ let e : some r ≡ some row = rw y at h in Memᴰ.head (cc)
  | inr n ↦ Memᴰ.tail (find-Mem token rows (rw n at h))
]

keep-Mem :
    (p : TrainingPodLease → Bool) (m : TrainingPodLease) (rows : Table)
    → p m ≡ true
    → Memᴰ m rows
    → Memᴰ m (keep p rows)
keep-Mem p m [] y i = elim i [ ]
keep-Mem p m (r ∷ rows) y (Memᴰ.head e) =
    let here : p r ≡ true = ap p (sym e) ∙ y in rw (here, keep) (Memᴰ.head e)
keep-Mem p m (r ∷ rows) y (Memᴰ.tail i) = elim (Bool-cases (p r)) [
  | inl h ↦ rw (h, keep) (Memᴰ.tail (keep-Mem p m rows y i))
  | inr n ↦ rw (n, keep) (keep-Mem p m rows y i)
]

insert_by-Mem :
    (le : TrainingPodLease → TrainingPodLease → Bool) (x m : TrainingPodLease) (ys : Table)
    → Memᴰ m (x ∷ ys)
    → Memᴰ m (insert_by le x ys)
unfolding insert_by
insert_by-Mem le x m [] i = i
insert_by-Mem le x m (y ∷ ys) i = elim (Bool-cases (le x y)) [
  | inl b ↦ rw b i
  | inr b ↦ rw b (behind i (λ j. insert_by-Mem le x m ys j))
]
  where
    behind : {zs : Table} → Memᴰ m (x ∷ y ∷ ys) → (Memᴰ m (x ∷ ys) → Memᴰ m zs) → Memᴰ m (y ∷ zs)
    behind (Memᴰ.head e) k = Memᴰ.tail (k (Memᴰ.head e))
    behind (Memᴰ.tail (Memᴰ.head e)) k = Memᴰ.head e
    behind (Memᴰ.tail (Memᴰ.tail j)) k = Memᴰ.tail (k (Memᴰ.tail j))

order_by-Mem :
    (le : TrainingPodLease → TrainingPodLease → Bool) (m : TrainingPodLease) (xs : Table)
    → Memᴰ m xs
    → Memᴰ m (order_by le xs)
unfolding order_by
order_by-Mem le m [] i = i
order_by-Mem le m (x ∷ xs) (Memᴰ.head e) = insert_by-Mem le x m (order_by le xs) (Memᴰ.head e)
order_by-Mem le m (x ∷ xs) (Memᴰ.tail i) =
    insert_by-Mem le x m (order_by le xs) (Memᴰ.tail (order_by-Mem le m xs i))

leases_from_rows-eq :
    (rows : Table) {ls : List TrainingPodLease} → leases_from_rows rows ≡ ok ls → ls ≡ rows
leases_from_rows-eq rows {ls} h = elim (leases_from_rows-cases (λ _. Unit) rows (all rows)) [
  | inl refused ↦ cc refused.4
  | inr listed ↦ cc listed
]
  where
    all : (xs : Table) → All (λ (_ : TrainingPodLease). Unit {0}) xs
    all [] = tt
    all (x ∷ xs) = (tt, all xs)

-- A row with the root of the family is listed.
pub list_cleanup_family-Mem :
    (root : String) (legacy : List String) (member : String) (rows : Table) {row : TrainingPodLease}
    {ls : List TrainingPodLease}
    → find member rows ≡ some row
    → row.root_cleanup_token ≡ root
    → list_cleanup_family root legacy rows ≡ ok ls
    → Memᴰ row ls
unfolding list_cleanup_family in_family
list_cleanup_family-Mem root legacy member rows {row} {ls} f r h =
    let own : str_eq row.root_cleanup_token root ≡ true =
      (eq_iff row.root_cleanup_token root).1 r in
    let chosen : in_family root legacy row ≡ true = rw own refl in
    subst (Memᴰ row)
      (sym (leases_from_rows-eq (order_by before (keep (in_family root legacy) rows)) h))
      (order_by-Mem before row (keep (in_family root legacy) rows)
        (keep-Mem (in_family root legacy) row rows chosen (find-Mem member rows f)))
