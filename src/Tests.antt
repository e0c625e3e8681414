-- ===== src/Tests.antt =====
-- Concrete workers and runs: tests of the definitions, and the theorems at concrete inputs.
pub mod Sample
mod RegistryRuns
mod SchedulerRuns
mod MetricsRuns
mod CacheRuns
mod ResilienceRuns
mod GraphRuns
mod DispatchRuns
mod KeyRuns
pub mod CoordinatorRuns
mod BuildRuns
mod CommandRuns
mod ClientRuns
mod RetryRuns
