-- ===== src/Coordinator/Outcome.antt =====
-- What `Compile` of internal/coordinator/server/grpc.go answers and counts, on each of its ways.
use hybridgrid.Prelude.{String, str_eq, ◌≡◌, ◌≢◌, Bool, true, false, [], if◌then◌else◌}
use Prim.Native.String.{◌++◌ as append}
use hybridgrid.Prelude.Int.{pos, wrap64, ◌*ℤ◌, quot_ℤ, sub_ℕ}
use hybridgrid.Prelude.Float.{Float}
use hybridgrid.Registry.Types.{WorkerInfo}
use hybridgrid.Registry.Table.{increment_tasks, decrement_tasks}
use hybridgrid.Registry.Invariant.{after}
use hybridgrid.Scheduler.Eligible.{
  SelectError, no_workers, no_matching_workers, Selection, selected, fails, panics,
}
use hybridgrid.Scheduler.Interface.{Scheduler}
use hybridgrid.Coordinator.Messages.{
  CompileRequest, CompileResponse, TaskStatus, status_completed, status_failed, Reply, replies,
  breaks, Answer, answers, invalid_argument, crashes,
}
use hybridgrid.Coordinator.Server.{Server, up}
use hybridgrid.Coordinator.Tasks.{Clock}

-- A response that the coordinator makes itself.
abbrev pub own_failure : String → CompileResponse
own_failure text = record {
  status = status_failed;
  object_file = [];
  exit_code = pos 1;
  stdout = "";
  stderr = text;
  compilation_time_ms = pos 0;
  queue_time_ms = pos 0;
  worker_id = "";
  from_cache = false;
}

-- A task that a worker had: it counts in the total and as a miss of the cache, and as a success or a
-- failure; what was queued and active is as before.
pub record Counted (success : Bool) (s s' : Server) : Type 0 where
  pub total : s'.counters.total_tasks ≡ up s.counters.total_tasks
  pub misses : s'.counters.cache_misses ≡ up s.counters.cache_misses
  pub hits : s'.counters.cache_hits ≡ s.counters.cache_hits
  pub successes :
      s'.counters.success_tasks
      ≡ (if success then up s.counters.success_tasks else s.counters.success_tasks)
  pub failures :
      s'.counters.failed_tasks
      ≡ (if success then s.counters.failed_tasks else up s.counters.failed_tasks)
  pub queued : s'.counters.queued_tasks ≡ s.counters.queued_tasks
  pub active : s'.counters.active_tasks ≡ s.counters.active_tasks

-- A response that is not COMPLETED.
abbrev pub IsIncomplete : TaskStatus → Type 0
IsIncomplete st = st ≢ status_completed

-- The ways of `Compile`: for a choice of a worker and a worker's reply, the answer and the server after it.
pub data Handled (t : Clock) (req : CompileRequest) (choice : Selection WorkerInfo)
    (forward : WorkerInfo → CompileRequest → Reply CompileResponse) (s : Server)
    (answer : Answer CompileResponse) (s' : Server) : Type 0 where
  unnamed :
      str_eq req.task_id "" ≡ true
      → answer ≡ invalid_argument "task_id required"
      → s' ≡ s
      → Handled t req choice forward s answer s'
  unplaced :
      (e : SelectError) (text : String)
      → choice ≡ fails e
      → text ≡ elim e [
        | no_workers ↦ "no worker available: no workers available"
        | no_matching_workers ↦ "no worker available: no workers match requirements"
      ]
      → answer ≡ answers (own_failure text)
      → s' ≡ record s { counters = record s.counters { cache_misses = up s.counters.cache_misses } }
      → Handled t req choice forward s answer s'
  panicked : choice ≡ panics → answer ≡ crashes → Handled t req choice forward s answer s'
  unanswered :
      (w : WorkerInfo) (text : String)
      → choice ≡ selected w
      → forward w req ≡ breaks text
      → answer ≡ answers (own_failure (append "worker error: " text))
      → Counted false s s'
      → s'.registry ≡ (
          let booked = after s.registry (increment_tasks w.id s.registry) in
          after booked (decrement_tasks w.id false (pos 0) booked))
      → Handled t req choice forward s answer s'
  done :
      (w : WorkerInfo) (resp : CompileResponse) (success : Bool)
      → choice ≡ selected w
      → forward w req ≡ replies resp
      → (success ≡ true → resp.status ≡ status_completed)
      → (success ≡ false → resp.status ≢ status_completed)
      → answer
        ≡ answers (record {
          status = resp.status;
          object_file = resp.object_file;
          exit_code = resp.exit_code;
          stdout = resp.stdout;
          stderr = resp.stderr;
          compilation_time_ms = resp.compilation_time_ms;
          queue_time_ms = quot_ℤ (sub_ℕ t.booked t.begun) 1000000;
          worker_id = resp.worker_id;
          from_cache = resp.from_cache;
        })
      → Counted success s s'
      → s'.registry ≡ (
          let booked = after s.registry (increment_tasks w.id s.registry) in
          after booked (
            decrement_tasks w.id success (wrap64 (resp.compilation_time_ms *ℤ pos 1000000)) booked))
      → Handled t req choice forward s answer s'
