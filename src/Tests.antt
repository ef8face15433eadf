-- ===== src/Tests.antt =====
-- Concrete runs, and the theorems at concrete inputs that meet their hypotheses.
mod Toy
mod Fields
mod Json
mod Buckets
mod Memory
mod Cli
mod Sorted
mod Storage
mod History
mod Merkle
mod Commitment
mod Batch
mod Package
mod Report
mod Agent
