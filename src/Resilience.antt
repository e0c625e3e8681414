-- ===== src/Resilience.antt =====
-- internal/coordinator/resilience: what protects the coordinator from failing workers.
pub mod Gobreaker
pub mod Circuit
pub mod Manager
pub mod Backoff
pub mod Retry
pub mod Retrying
