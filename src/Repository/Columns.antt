-- ===== src/Repository/Columns.antt =====
-- The columns that an update may write (`_COLUMNS`), and the update of a row.
use kestrel_cloud_runpod.Prelude.{ℕ, ◌+◌, String, Option, Bool, List, [], ◌∷◌}
use kestrel_cloud_runpod.Capacity.States.{
  TrainingPodOwnership, TrainingPodState, TrainingPodCleanupState, PodCapacityBillingState,
  CatalogPodWorkloadState,
}
use kestrel_cloud_runpod.Capacity.Evidence.{PodBillingReceipt, PodCapacityEvidence}
use kestrel_cloud_runpod.Capacity.Lease.{TrainingPodLease, CatalogArtifactHandoffEvidence}

pub data Change : Type 0 where
  provider_pod_id : Option String → Change
  ownership : TrainingPodOwnership → Change
  state : TrainingPodState → Change
  cleanup_state : TrainingPodCleanupState → Change
  family_release_requested family_release_complete creation_uncertain : Bool → Change
  backend_base_url provider_job_id : Option String → Change
  updated_at last_heartbeat_at : ℕ → Change
  last_provider_error : Option String → Change
  stop_attempts : ℕ → Change
  workload_state : CatalogPodWorkloadState → Change
  workload_error_type : Option String → Change
  billing_state : PodCapacityBillingState → Change
  billing_receipt_json : Option PodBillingReceipt → Change
  terminated_at : Option ℕ → Change
  evidence_json : Option PodCapacityEvidence → Change
  artifact_handoff_json : Option CatalogArtifactHandoffEvidence → Change

-- One assignment of the `SET` clause.
unfoldable pub assign : Change → TrainingPodLease → TrainingPodLease
assign (provider_pod_id v) l = record l { provider_pod_id = v }
assign (ownership v) l = record l { ownership = v }
assign (state v) l = record l { state = v }
assign (cleanup_state v) l = record l { cleanup_state = v }
assign (family_release_requested v) l = record l { family_release_requested = v }
assign (family_release_complete v) l = record l { family_release_complete = v }
assign (creation_uncertain v) l = record l { creation_uncertain = v }
assign (backend_base_url v) l = record l { backend_base_url = v }
assign (provider_job_id v) l = record l { provider_job_id = v }
assign (updated_at v) l = record l { updated_at = v }
assign (last_heartbeat_at v) l = record l { last_heartbeat_at = v }
assign (last_provider_error v) l = record l { last_provider_error = v }
assign (stop_attempts v) l = record l { stop_attempts = v }
assign (workload_state v) l = record l { workload_state = v }
assign (workload_error_type v) l = record l { workload_error_type = v }
assign (billing_state v) l = record l { billing_state = v }
assign (billing_receipt_json v) l = record l { billing_receipt = v }
assign (terminated_at v) l = record l { terminated_at = v }
assign (evidence_json v) l = record l { evidence = v }
assign (artifact_handoff_json v) l = record l { artifact_handoff = v }

-- A later entry for a column takes the place of an earlier one, as in `dict.update`.
unfoldable pub assign_all : List Change → TrainingPodLease → TrainingPodLease
unfolding assign
assign_all [] l = l
assign_all (c ∷ cs) l = assign_all cs (assign c l)

-- The row that `compare_and_set` writes: `updated_at` is the wall clock unless it is given.
unfoldable pub updated_row : ℕ → List Change → TrainingPodLease → TrainingPodLease
unfolding assign_all
updated_row now cs l =
    let l' = assign_all cs (record l { updated_at = now }) in
    record l' { revision = l.revision + 1 }
