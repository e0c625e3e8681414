-- ===== src/Scheduler.antt =====
-- internal/coordinator/scheduler: which worker gets a task.
pub mod Eligible
pub mod Admission
pub mod Interface
pub mod Selected
pub mod Instances
pub mod Simple
pub mod LeastLoaded
pub mod P2c
pub mod EpsilonGreedy
pub mod Heft
