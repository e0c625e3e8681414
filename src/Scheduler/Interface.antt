-- ===== src/Scheduler/Interface.antt =====
-- The interfaces `Scheduler`, `ContextualScheduler` and `LearningScheduler` of
-- internal/coordinator/scheduler, as the server uses them, with the law that all schedulers share.
use hybridgrid.Prelude.{ℕ, String, Bool, ◌≡◌}
use hybridgrid.Registry.Types.{Architecture, BuildType, WorkerInfo}
use hybridgrid.Scheduler.Eligible.{RegistryView, Selection, selected}
use hybridgrid.Scheduler.Admission.{Matches}

pub record TaskContext : Type 0 where
  pub source_size_bytes : ℕ
  pub task_id : String

-- `select` may advance the scheduler's own state (a counter, random numbers, averages). `record_outcome`
-- is given the registry, which HEFT holds and reads; a scheduler that does not learn leaves its state
-- alone. The schedulers of Instances are of this kind.
pub record Scheduler (Reward : Type 0) : Type 1 where
  pub State : Type 0
  pub select :
      TaskContext
      → RegistryView
      → BuildType
      → Architecture
      → String
      → State
      → Selection WorkerInfo × State
  pub record_outcome : RegistryView → String → Reward → Bool → TaskContext → State → State
  -- A worker that is selected is listed for the build and fits the client's system.
  pub select-Matches :
      (ctx : TaskContext) (reg : RegistryView) (b : BuildType) (a : Architecture) (os : String)
      (s : State) (w : WorkerInfo)
      → (select ctx reg b a os s).0 ≡ selected w
      → Matches reg b a os w
