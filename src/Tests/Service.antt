-- ===== src/Tests/Service.antt =====
-- The service beside another task that reserves a lease.
use kestrel_cloud_runpod.Prelude.{
  ◌≡◌, ◌≢◌, ◌≤◌, refl, some, none, [], ◌∷◌, true, List, arith, eq_iff,
}
use kestrel_cloud_runpod.Capacity.Lease.{
  TrainingPodLease, is_terminal, receipts_agree, lease_accepted,
}
use kestrel_cloud_runpod.Capacity.Errors.{ok, raise, out_of_fuel}
use kestrel_cloud_runpod.Repository.Table.{Table, find, clash}
use kestrel_cloud_runpod.Repository.Table
use kestrel_cloud_runpod.Repository.Reserve.{reserve}
use kestrel_cloud_runpod.Repository.Evolution.{SameIdentity}
use kestrel_cloud_runpod.Repository.Unique.{IsExclusive, reserve-IsExclusive, reserve-Grows}
use kestrel_cloud_runpod.Repository.Listing
use kestrel_cloud_runpod.Service.World.{
  Environment, World, Action, actions, transact, ask, now, get, required, present_or_raise,
}
use kestrel_cloud_runpod.Service.World
use kestrel_cloud_runpod.Service.Transitions
use kestrel_cloud_runpod.Service.Settlement
use kestrel_cloud_runpod.Service.Release
use kestrel_cloud_runpod.Service.Mutations
use kestrel_cloud_runpod.Service.Family
use kestrel_cloud_runpod.Service.Safety.{IsPeer, Rely}
use kestrel_cloud_runpod.Service.History.{
  Operation, perform_all, released_for_good, perform-IsPeer, claims_stay_apart,
}
use kestrel_cloud_runpod.Service.Release.{release_one, adopt}
use kestrel_cloud_runpod.Service.Transitions.{unset}
use kestrel_cloud_runpod.Service.Livelock.{adopt_never_returns}
use kestrel_cloud_runpod.Service.Safety.Released.{legacy_release_releases}
use kestrel_cloud_runpod.Tests.Samples.{request, lease, released, environment, world}

abbrev rows : Table
rows = lease "a" ∷ released "b" ∷ []

abbrev rival : Table → Table
rival rows = (reserve (request "c") rows).1

abbrev shared : World
shared = record (world rows) { peers = rival ∷ [] }

rival-Rely : Rely shared
rival-Rely = (reserve-Grows (request "c"), tt)

abbrev operations : List Operation
operations = Operation.heartbeat "b" ∷ Operation.release "a" "done" ∷ []

b-found : find "b" rows ≡ some (released "b")
unfolding find
b-found = refl

released_for_good_example :
    (l : TrainingPodLease) × (find "b" (perform_all (environment 9) operations shared).rows
      ≡ some l)
    × (is_terminal l ≡ true)
    × SameIdentity (released "b") l
    × (4 ≤ l.revision)
released_for_good_example =
    released_for_good (environment 9) operations shared "b" (released "b") rival-Rely b-found refl

perform-IsPeer_example : IsPeer (λ rows.
    (perform_all
      (environment 9)
      operations
      (record { rows = rows; peers = rival ∷ []; ticks = 0; calls = [] })).rows)
perform-IsPeer_example = perform-IsPeer (environment 9) operations (rival ∷ []) 0 rival-Rely

rows-IsExclusive : IsExclusive rows
unfolding find clash
rows-IsExclusive s t a b f g n =
    ground (arith, eq_iff "a" s, eq_iff "a" t, eq_iff "b" s, eq_iff "b" t)

claims_stay_apart_example : IsExclusive (perform_all (environment 9) operations shared).rows
claims_stay_apart_example =
    claims_stay_apart (environment 9) operations shared (reserve-IsExclusive (request "c"), tt)
      rows-IsExclusive

-- Opens a run of `release`.
unfoldable open_release : Unit {0}
unfolding actions transact ask now get required present_or_raise World.compare_and_set
    Transitions.lift Transitions.transition_loop Transitions.transition_nonterminal
    Transitions.evidence_loop Transitions.transition_with_evidence Release.pod_id Release.locate
    Release.release_owned Release.release_lease Release.release_one Release.mark_releasing
    Release.count_attempt Release.stop_call Release.stop_answer Release.stop_pod Release.stopped
    Release.nonempty Settlement.or_raise Mutations.request_loop Mutations.complete_loop
    Mutations.mark_family_release_requested Mutations.mark_family_release_complete
    Family.cleanup_family Family.release_members Family.finish_family Family.release_family
    Family.release Table.get Table.compare_and_set reserve receipts_agree lease_accepted
    Transitions.persisted_changes Listing.list_cleanup_family
open_release = tt

-- The row of `a` after its release: the family marks are two writes, the teardown three.
abbrev after : TrainingPodLease
after = record (released "a") {
  family_release_requested = true;
  family_release_complete = true;
  last_heartbeat_at = 150;
  updated_at = 150;
  stop_attempts = 1;
  revision = 9;
}

a-found : find "a" rows ≡ some (lease "a")
unfolding find
a-found = refl

abbrev stopped : TrainingPodLease
stopped = record (released "a") {
  last_heartbeat_at = 150;
  updated_at = 150;
  stop_attempts = 1;
  revision = 7;
}

stop_run : (release_one (environment 9) "a" "done" shared).0 ≡ ok stopped
unfolding open_release
stop_run = refl

legacy_release_releases_example :
    (stopped.cleanup_token ≡ "a")
    × (is_terminal stopped ≡ true)
    × (row' : TrainingPodLease) × (find "a" (release_one (environment 9) "a" "done" shared).1.rows
        ≡ some row')
    × (is_terminal row' ≡ true)
legacy_release_releases_example =
    legacy_release_releases (environment 9) "a" "done" shared rival-Rely a-found refl stop_run

-- A lease whose create call was lost, beside one that claims the Pod.
abbrev lost : TrainingPodLease
lost = record (lease "c") { provider_pod_id = none; creation_uncertain = true }

abbrev contested : Table
contested = lost ∷ lease "a" ∷ []

lost-found : find "c" contested ≡ some lost
unfolding find
lost-found = refl

rival-found : find "a" contested ≡ some (lease "a")
unfolding find
rival-found = refl

lost-decodes : Table.lease_from_row lost ≡ ok lost
unfolding Table.lease_from_row receipts_agree lease_accepted
lost-decodes = refl

apart : lost.cleanup_token ≢ "a"
apart e = ground (arith, eq_iff "c" "a", e)

adopt_never_returns_example :
    (adopt (environment 9) lost "pod-a" unset (world contested)).0 ≡ raise out_of_fuel
adopt_never_returns_example =
    adopt_never_returns (environment 9) lost (lease "a") "pod-a" contested 0 [] lost-found
      lost-decodes refl refl rival-found apart refl refl
