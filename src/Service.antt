-- ===== src/Service.antt =====
-- kestrel_cloud_runpod/pod_capacity_service.py: the lease service.
pub mod World
pub mod Transitions
pub mod Settlement
pub mod Release
pub mod Mutations
pub mod Family
pub mod Acquire
pub mod Readiness
pub mod Admission
pub mod Workload
pub mod Reconcile
pub mod Safety
pub mod Progress
pub mod Livelock
pub mod History
