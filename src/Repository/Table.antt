-- ===== src/Repository/Table.antt =====
-- The table `pod_capacity_leases` as a list of rows, and the transactions of
-- `SQLitePodCapacityRepository`. A transaction is atomic. The JSON columns hold the values that
-- they encode, so decoding is only checks: those of the receipt, of the evidence, that the two agree,
-- and those of `TrainingPodLease`. The checks of a hand-off and of a specification on their own are not
-- made again.
use kestrel_cloud_runpod.Prelude.{
  ℕ, String, Option, none, some, List, [], ◌∷◌, Bool, true, false, not, ◌&&◌, ◌||◌, str_eq,
  opt_str_eq, is_none, ◌==◌, if◌then◌else◌,
}
use kestrel_cloud_runpod.Capacity.Evidence.{PodBillingReceipt, evidence_ready}
use kestrel_cloud_runpod.Capacity.Codec.{receipt_accepted}
use kestrel_cloud_runpod.Capacity.Lease.{
  TrainingPodLease, lease_accepted, receipts_agree, is_terminal,
}
use kestrel_cloud_runpod.Capacity.Errors.{manager, conflict, value_error, Result, ok, raise}
use kestrel_cloud_runpod.Repository.Columns.{Change, updated_row}

abbrev pub Table : Type 0
Table = List TrainingPodLease

-- `SELECT * FROM pod_capacity_leases WHERE cleanup_token = ?`
unfoldable pub find : String → Table → Option TrainingPodLease
find token [] = none
find token (row ∷ rows) = if str_eq row.cleanup_token token then some row else find token rows

-- The row with the token of `new` becomes `new`.
unfoldable pub put : TrainingPodLease → Table → Table
put new [] = []
put new (row ∷ rows) =
    if str_eq row.cleanup_token new.cleanup_token then new ∷ rows else row ∷ put new rows

-- Two rows that the partial unique indexes of `_initialize` refuse beside one another.
unfoldable pub clash : TrainingPodLease → TrainingPodLease → Bool
clash a b =
    not (is_terminal a)
    && not (is_terminal b)
    && (str_eq a.resource_name b.resource_name
        || (not (is_none a.provider_pod_id) && opt_str_eq a.provider_pod_id b.provider_pod_id)
        || str_eq a.root_cleanup_token b.root_cleanup_token)

-- Writing `new` would raise `sqlite3.IntegrityError` on a unique index.
unfoldable pub violates : TrainingPodLease → Table → Bool
unfolding clash
violates new [] = false
violates new (row ∷ rows) =
    (not (str_eq row.cleanup_token new.cleanup_token) && clash new row) || violates new rows

-- `PodBillingReceipt.from_dict(…) if … is not None else None`
abbrev pub receipt_ready : Option PodBillingReceipt → Bool
receipt_ready none = true
receipt_ready (some receipt) = receipt_accepted receipt

-- `_lease_from_row`: the receipt and the evidence decode, the evidence agrees with the receipt, and the lease is accepted.
unfoldable pub lease_from_row : TrainingPodLease → Result TrainingPodLease
unfolding receipt_accepted
lease_from_row row =
    if receipt_ready row.billing_receipt
    then (if evidence_ready row.evidence
        then (if receipts_agree row
            then (if lease_accepted row then ok row else raise value_error)
            else raise manager)
        else raise value_error)
    else raise value_error

abbrev pub present : Result TrainingPodLease → Result (Option TrainingPodLease)
present (ok lease) = ok (some lease)
present (raise e) = raise e

-- `_lease_from_row(row) if row is not None else None`
unfoldable pub decode_row : Option TrainingPodLease → Result (Option TrainingPodLease)
unfolding lease_from_row
decode_row none = ok none
decode_row (some row) = present (lease_from_row row)

-- `get`
unfoldable pub get : String → Table → Result (Option TrainingPodLease)
unfolding find decode_row
get token rows = decode_row (find token rows)

-- The `UPDATE` of `compare_and_set` on the row that has the token.
unfoldable pub swap_row :
    ℕ
    → TrainingPodLease
    → List Change
    → Option TrainingPodLease
    → Table
    → Result TrainingPodLease × Table
unfolding updated_row violates put lease_from_row
swap_row now lease changes none rows = (raise conflict, rows)
swap_row now lease changes (some row) rows =
    if row.revision == lease.revision
    then (if violates (updated_row now changes row) rows
        then (raise conflict, rows)
        else (lease_from_row (updated_row now changes row), put (updated_row now changes row) rows))
    else (raise conflict, rows)

-- `compare_and_set`, at the wall-clock time `now`. The row is decoded after the commit.
unfoldable pub compare_and_set :
    ℕ → TrainingPodLease → List Change → Table → Result TrainingPodLease × Table
unfolding find swap_row
compare_and_set now lease changes rows =
    swap_row now lease changes (find lease.cleanup_token rows) rows
