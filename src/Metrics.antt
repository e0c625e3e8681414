-- ===== src/Metrics.antt =====
-- internal/coordinator/metrics: moving averages and the latency of each worker.
pub mod Ewma
pub mod Latency
pub mod History
