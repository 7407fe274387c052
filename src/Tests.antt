-- ===== src/Tests.antt =====
-- The theorems at concrete inputs, and runs of the definitions.
mod Examples
mod Paths
mod Patch
mod Boundary
mod Files
mod Policies
mod Snapshot
mod Storage
mod Receipts
mod Service
