-- ===== src/Tests/Transitions.antt =====
-- The loops and the merge of evidence on sample data.
use kestrel_cloud_runpod.Prelude.{
  ◌≡◌, ◌≢◌, refl, none, some, List, [], ◌∷◌, true, arith, eq_iff, le_refl,
}
use kestrel_cloud_runpod.Capacity.Evidence.{
  PodCapacityEvidence, Phase, phase_time, evidence_accepted, lifecycle_accepted,
}
use kestrel_cloud_runpod.Capacity.Evidence
use kestrel_cloud_runpod.Capacity.Errors.{ok, raise, out_of_fuel}
use kestrel_cloud_runpod.Repository.Columns.{Change}
use kestrel_cloud_runpod.Repository.Columns
use kestrel_cloud_runpod.Repository.Table.{Table, find, clash}
use kestrel_cloud_runpod.Service.Transitions.{Observed, saw, merge_evidence, transition_nonterminal}
use kestrel_cloud_runpod.Service.Transitions.Merge.{Kept, merge_evidence_keeps_first}
use kestrel_cloud_runpod.Service.Progress.{IsSound, KeepsPod, transition_nonterminal_ends}
use kestrel_cloud_runpod.Tests.Samples.{lease, released, evidence, environment, world}

abbrev rows : Table
rows = lease "a" ∷ released "b" ∷ []

abbrev beat : List Change
beat = Columns.last_heartbeat_at 150 ∷ []

beat-KeepsPod : KeepsPod beat
unfolding Columns.updated_row
beat-KeepsPod now l = refl

rows-IsSound : IsSound rows
unfolding find clash
rows-IsSound = (
  ((refl, tt), (tt, tt)),
  λ s t a b f g n. ground (arith, eq_iff "a" s, eq_iff "a" t, eq_iff "b" s, eq_iff "b" t),
)

-- The caller's lease is one write behind, and another writer is to come.
transition_nonterminal_ends_example :
    (transition_nonterminal
      (environment 3)
      (record (lease "a") { revision = 3 })
      beat
      (record (world rows) { peers = (λ t. t) ∷ [] })).0
    ≢ raise out_of_fuel
transition_nonterminal_ends_example =
    transition_nonterminal_ends (environment 3) beat (record (lease "a") { revision = 3 })
      (record (world rows) { peers = (λ t. t) ∷ [] }) beat-KeepsPod ((λ t s. s), tt) rows-IsSound
      (le_refl 3)

abbrev again : Observed
again = saw ((Phase.provider_create_accepted_at, 140) ∷ (Phase.first_running_observed_at, 130) ∷ [])

abbrev after : PodCapacityEvidence
after = record (evidence (some 120)) {
  lifecycle = record (evidence (some 120)).lifecycle { first_running_observed_at = some 130 };
}

merges : merge_evidence again (evidence (some 120)) ≡ ok after
unfolding merge_evidence Evidence.placement_within Evidence.worker_bound Evidence.billing_bound
merges = refl

merge_evidence_keeps_first_example :
    Kept (some 120) (phase_time Phase.provider_create_accepted_at after.lifecycle)
    × Kept none after.realized_placement
    × Kept none after.worker
    × Kept none after.billing
    × (after ≡ record (evidence (some 120)) {
      lifecycle = after.lifecycle;
      realized_placement = after.realized_placement;
      worker = after.worker;
      billing = after.billing;
    })
    × (evidence_accepted after ≡ true)
unfolding phase_time
merge_evidence_keeps_first_example =
    merge_evidence_keeps_first again (evidence (some 120)) Phase.provider_create_accepted_at merges
