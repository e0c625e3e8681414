-- ===== src/Cache.antt =====
-- internal/cache: the local store of compiled objects.
pub mod Naming
pub mod Store
pub mod Order
pub mod Accounting
pub mod Eviction
pub mod Writes
pub mod Reads
pub mod Index
pub mod Key
pub mod Separation
pub mod Sorting
pub mod BuildKeys
pub mod Iteration
