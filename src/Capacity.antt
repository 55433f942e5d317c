-- ===== src/Capacity.antt =====
-- Durable ownership of billable Pods: the data of kestrel_cloud_runpod/pod_capacity_contracts.py.
pub mod States
pub mod Evidence
pub mod Lease
pub mod Errors
pub mod Codec
