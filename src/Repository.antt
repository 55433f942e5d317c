-- ===== src/Repository.antt =====
-- kestrel_cloud_runpod/pod_capacity_repository.py: the table of leases and its transactions.
pub mod Columns
pub mod Table
pub mod Reserve
pub mod Listing
pub mod Worklist
pub mod Members
pub mod Evolution
pub mod Swap
pub mod Unique
pub mod Once
pub mod Keyed
