-- ===== src/Tests.antt =====
-- Runs on sample data.
mod Samples
mod Repository
mod Service
mod Transitions
mod Workload
mod Accounts
mod Codec
mod Quotes
