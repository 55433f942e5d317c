-- ===== src/Repository/Keyed.antt =====
-- The primary key: no two rows have one cleanup token. With the unique indexes it means that an
-- update which keeps the provider Pod of an active row is never refused by an index.
use kestrel_cloud_runpod.Prelude.{
  ℕ, ◌≡◌, ◌≢◌, sym, ap, ◌∙◌, subst, String, some, List, [], ◌∷◌, true, false, inl, inr, arith,
  str_eq, str_eq_refl, Bool-cases, All,
}
use kestrel_cloud_runpod.Capacity.Lease.{TrainingPodLease, is_terminal}
use kestrel_cloud_runpod.Repository.Columns.{Change, updated_row}
use kestrel_cloud_runpod.Repository.Table.{Table, find, clash, violates}
use kestrel_cloud_runpod.Repository.Evolution.{updated_row-SameIdentity, SameIdentity}
use kestrel_cloud_runpod.Repository.Unique.{IsExclusive}

abbrev pub IsKeyed : Table → Type 0
IsKeyed [] = Unit
IsKeyed (row ∷ rows) =
    All (λ (other : TrainingPodLease). str_eq row.cleanup_token other.cleanup_token ≡ false) rows
    × IsKeyed rows

-- A row that an index would refuse beside `new`.
pub record Clashes (new : TrainingPodLease) (rows : Table) : Type 0 where
  pub other : TrainingPodLease
  pub found : find other.cleanup_token rows ≡ some other
  pub apart : str_eq other.cleanup_token new.cleanup_token ≡ false
  pub clashes : clash new other ≡ true

find-All :
    (P : TrainingPodLease → Type 0) (token : String) (rows : Table) {l : TrainingPodLease}
    → All P rows
    → find token rows ≡ some l
    → P l
unfolding find
find-All P token [] a h = absurd (cc)
find-All P token (row ∷ rows) a h = elim (Bool-cases (str_eq row.cleanup_token token)) [
  | inl e ↦ let same : some row ≡ some _ = rw e at h in subst P (cc) a.0
  | inr n ↦ find-All P token rows a.1 (rw n at h)
]

violates-Clashes :
    (new : TrainingPodLease) (rows : Table)
    → IsKeyed rows
    → violates new rows ≡ true
    → Clashes new rows
unfolding violates find
violates-Clashes new [] k v = absurd (cc)
violates-Clashes new (row ∷ rows) k v =
    elim (Bool-cases (str_eq row.cleanup_token new.cleanup_token)) [
      | inl e ↦ deeper (violates-Clashes new rows k.1 (rw e at v))
      | inr n ↦ elim (Bool-cases (clash new row)) [
        | inl c ↦ record {
          other = row;
          found = rw (str_eq_refl row.cleanup_token);
          apart = n;
          clashes = c;
        }
        | inr d ↦ deeper (violates-Clashes new rows k.1 (rw (n, d) at v))
      ]
    ]
  where
    deeper : Clashes new rows → Clashes new (row ∷ rows)
    deeper c =
        let distinct : str_eq row.cleanup_token c.other.cleanup_token ≡ false =
          find-All _ c.other.cleanup_token rows k.0 c.found in
        record {
          other = c.other;
          found = rw distinct c.found;
          apart = c.apart;
          clashes = c.clashes;
        }

clash-kept :
    (new row other : TrainingPodLease)
    → new.resource_name ≡ row.resource_name
    → new.root_cleanup_token ≡ row.root_cleanup_token
    → new.provider_pod_id ≡ row.provider_pod_id
    → is_terminal row ≡ false
    → clash new other ≡ true
    → clash row other ≡ true
unfolding clash
clash-kept new row other n t p a h = ground (arith, n, t, p)

-- An update that keeps the Pod of an active row is refused by no index.
pub update-unclaimed :
    (now : ℕ) (cs : List Change) (row : TrainingPodLease) (rows : Table)
    → IsKeyed rows
    → IsExclusive rows
    → find row.cleanup_token rows ≡ some row
    → is_terminal row ≡ false
    → (updated_row now cs row).provider_pod_id ≡ row.provider_pod_id
    → violates (updated_row now cs row) rows ≡ false
update-unclaimed now cs row rows k x f a p =
    elim (Bool-cases (violates (updated_row now cs row) rows)) [
      | inr n ↦ n
      | inl v ↦
          let new = updated_row now cs row in
          let same : SameIdentity row new = updated_row-SameIdentity now cs row in
          let c = violates-Clashes new rows k v in
          let apart : row.cleanup_token ≢ c.other.cleanup_token = λ e.
            let self : str_eq c.other.cleanup_token new.cleanup_token ≡ true =
              ap (λ t. str_eq t new.cleanup_token) (sym e ∙ sym same.cleanup_token)
              ∙ str_eq_refl new.cleanup_token in
            let no : str_eq c.other.cleanup_token new.cleanup_token ≡ false = c.apart in cc in
          let quiet : clash row c.other ≡ false =
            x row.cleanup_token c.other.cleanup_token row c.other f c.found apart in
          let loud : clash row c.other ≡ true =
            clash-kept new row c.other same.resource_name same.root_cleanup_token p a c.clashes in
          cc
    ]
