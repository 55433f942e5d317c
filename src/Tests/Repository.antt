-- ===== src/Tests/Repository.antt =====
-- The repository on two sample leases.
use kestrel_cloud_runpod.Prelude.{◌≡◌, ◌≢◌, ◌⊎◌, refl, List, [], ◌∷◌, true, arith, eq_iff}
use kestrel_cloud_runpod.Capacity.Lease.{TrainingPodLease, receipts_agree, lease_accepted}
use kestrel_cloud_runpod.Capacity.Errors.{Error, ok, raise, conflict}
use kestrel_cloud_runpod.Repository.Columns.{Change, updated_row}
use kestrel_cloud_runpod.Repository.Columns
use kestrel_cloud_runpod.Repository.Table.{Table, lease_from_row, find, clash, compare_and_set}
use kestrel_cloud_runpod.Repository.Reserve.{reserve, initial_row}
use kestrel_cloud_runpod.Repository.Evolution.{Evolves-refl, Grows, Grows-refl, Seen}
use kestrel_cloud_runpod.Repository.Swap.{KeepsTerminal, compare_and_set-Grows}
use kestrel_cloud_runpod.Repository.Unique.{IsExclusive, compare_and_set-IsExclusive, reserve-Grows}
use kestrel_cloud_runpod.Repository.Once.{compare_and_set_spent, reserve_once}
use mathlib.Core.List.{Perm, Memᴰ}
use kestrel_cloud_runpod.Repository.Listing.{list_for_reconciliation}
use kestrel_cloud_runpod.Repository.Worklist.{
  Awaits, Picks, OldestFirst, list_for_reconciliation_complete,
}
use kestrel_cloud_runpod.Tests.Samples.{request, lease, released}

abbrev rows : Table
rows = lease "a" ∷ released "b" ∷ []

abbrev beat : List Change
beat = Columns.last_heartbeat_at 150 ∷ []

a-Seen : Seen (lease "a") rows
unfolding find
a-Seen = (lease "a", refl, Evolves-refl (lease "a"))

beat-keeps : KeepsTerminal beat (lease "a")
beat-keeps now h = cc

beat-ok : (compare_and_set 150 (lease "a") beat rows).0 ≡ ok (updated_row 150 beat (lease "a"))
unfolding compare_and_set receipts_agree lease_accepted
beat-ok = refl

compare_and_set-Grows_example : Grows rows (compare_and_set 150 (lease "a") beat rows).1
compare_and_set-Grows_example = compare_and_set-Grows 150 (lease "a") beat rows a-Seen beat-keeps

compare_and_set_spent_example :
    compare_and_set 170 (lease "a") [] (compare_and_set 150 (lease "a") beat rows).1
    ≡ (raise conflict, (compare_and_set 150 (lease "a") beat rows).1)
compare_and_set_spent_example =
    compare_and_set_spent 150 170 (lease "a") beat [] rows
      (compare_and_set 150 (lease "a") beat rows).1 a-Seen beat-ok
      (Grows-refl (compare_and_set 150 (lease "a") beat rows).1)

claimed-ok : (reserve (request "c") rows).0 ≡ ok (initial_row (request "c"), true)
unfolding reserve receipts_agree lease_accepted
claimed-ok = refl

reserve_once_example :
    ((reserve (request "c") (reserve (request "c") rows).1).1 ≡ (reserve (request "c") rows).1)
    × ((l : TrainingPodLease)
        → (reserve (request "c") (reserve (request "c") rows).1).0 ≢ ok (l, true))
reserve_once_example =
    reserve_once (request "c") rows (reserve (request "c") rows).1 claimed-ok
      (Grows-refl (reserve (request "c") rows).1)

reserve-Grows_example : Grows rows (reserve (request "c") rows).1
reserve-Grows_example = reserve-Grows (request "c") rows

rows-IsExclusive : IsExclusive rows
unfolding find clash
rows-IsExclusive s t a b f g n =
    ground (arith, eq_iff "a" s, eq_iff "a" t, eq_iff "b" s, eq_iff "b" t)

compare_and_set-IsExclusive_example : IsExclusive (compare_and_set 150 (lease "a") beat rows).1
compare_and_set-IsExclusive_example =
    compare_and_set-IsExclusive 150 (lease "a") beat rows rows-IsExclusive

abbrev work : List TrainingPodLease
work = lease "a" ∷ []

work_listed : list_for_reconciliation rows ≡ ok work
unfolding list_for_reconciliation receipts_agree lease_accepted
work_listed = refl

list_for_reconciliation_complete_example :
    ((row : TrainingPodLease) × (e : Error) × (Memᴰ row rows × Awaits row)
      × (lease_from_row row ≡ raise e)
      × (list_for_reconciliation rows ≡ raise e))
    ⊎ ((leases : List TrainingPodLease) × (awaiting : Table) × (list_for_reconciliation rows
          ≡ ok leases)
        × Picks Awaits rows awaiting
        × Perm leases awaiting
        × OldestFirst leases)
list_for_reconciliation_complete_example = list_for_reconciliation_complete rows
