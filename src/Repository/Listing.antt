-- ===== src/Repository/Listing.antt =====
-- The queries of `SQLitePodCapacityRepository` that return several leases.
use Prim.Native.String.{compare}
use Prim.Native.Nat.{Ordering}
use kestrel_cloud_runpod.Prelude.{
  String, List, [], ◌∷◌, Bool, true, false, not, ◌&&◌, ◌||◌, any, keep, str_eq, ◌==◌, ltb,
  if◌then◌else◌,
}
use kestrel_cloud_runpod.Capacity.States.{is_released, is_unsettled}
use kestrel_cloud_runpod.Capacity.Lease.{TrainingPodLease}
use kestrel_cloud_runpod.Capacity.Errors.{Result, ok, raise}
use kestrel_cloud_runpod.Repository.Table.{Table, lease_from_row}

abbrev string_le : String → String → Bool
string_le s t = elim (compare s t) [ Ordering.gt ↦ false | _ ↦ true ]

-- `ORDER BY created_at, cleanup_token`
unfoldable pub before : TrainingPodLease → TrainingPodLease → Bool
before a b =
    ltb a.created_at b.created_at
    || ((a.created_at == b.created_at) && string_le a.cleanup_token b.cleanup_token)

unfoldable pub insert_by :
    (TrainingPodLease → TrainingPodLease → Bool) → TrainingPodLease → Table → Table
insert_by le x [] = x ∷ []
insert_by le x (y ∷ ys) = if le x y then x ∷ y ∷ ys else y ∷ insert_by le x ys

unfoldable pub order_by : (TrainingPodLease → TrainingPodLease → Bool) → Table → Table
unfolding insert_by
order_by le [] = []
order_by le (x ∷ xs) = insert_by le x (order_by le xs)

-- `tuple(_lease_from_row(row) for row in rows)`
unfoldable pub leases_from_rows : Table → Result (List TrainingPodLease)
unfolding lease_from_row
leases_from_rows [] = ok []
leases_from_rows (row ∷ rows) = elim (lease_from_row row) [
  | raise e ↦ raise e
  | ok lease ↦ elim (leases_from_rows rows) [ raise e ↦ raise e | ok leases ↦ ok (lease ∷ leases) ]
]

-- The rows of `list_cleanup_family`: the family of a root, and the fallback identities of leases
-- that were stored before families were.
unfoldable pub in_family : String → List String → TrainingPodLease → Bool
in_family root legacy row =
    str_eq row.root_cleanup_token root
    || any (λ token. str_eq row.cleanup_token token) (root ∷ legacy)

unfoldable pub list_cleanup_family : String → List String → Table → Result (List TrainingPodLease)
unfolding leases_from_rows order_by before in_family
list_cleanup_family root legacy rows =
    leases_from_rows (order_by before (keep (in_family root legacy) rows))

unfoldable pub awaits_family_release : TrainingPodLease → Bool
awaits_family_release row =
    str_eq row.cleanup_token row.root_cleanup_token
    && row.family_release_requested
    && not row.family_release_complete

unfoldable pub list_incomplete_family_releases : Table → Result (List TrainingPodLease)
unfolding leases_from_rows order_by before awaits_family_release
list_incomplete_family_releases rows =
    leases_from_rows (order_by before (keep awaits_family_release rows))

unfoldable pub awaits_reconciliation : TrainingPodLease → Bool
awaits_reconciliation row = not (is_released row.state) || is_unsettled row.billing_state

-- `ORDER BY created_at`: rows of one time stay in the order of the table.
unfoldable pub list_for_reconciliation : Table → Result (List TrainingPodLease)
unfolding leases_from_rows order_by awaits_reconciliation
list_for_reconciliation rows =
    leases_from_rows
      (order_by (λ a b. not (ltb b.created_at a.created_at)) (keep awaits_reconciliation rows))
