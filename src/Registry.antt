-- ===== src/Registry.antt =====
-- internal/coordinator/registry/registry.go: the table of workers.
pub mod Types
pub mod Capability
pub mod Table
pub mod Counters
pub mod Invariant
pub mod Listing
pub mod Tasks
pub mod Average
