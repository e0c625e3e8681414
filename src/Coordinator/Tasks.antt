-- ===== src/Coordinator/Tasks.antt =====
-- The start and the end of a task on a worker, which `Compile` and the two handlers of builds in
-- internal/coordinator/server/grpc.go share.
use hybridgrid.Prelude.{ℕ, String, Bool, false, if◌then◌else◌}
use hybridgrid.Prelude.Int.{ℤ, pos, ◌*ℤ◌, wrap64}
use hybridgrid.Registry.Types.{WorkerInfo}
use hybridgrid.Registry.Table.{increment_tasks, decrement_tasks}
use hybridgrid.Registry.Invariant.{after}
use hybridgrid.Coordinator.Messages.{started, completed}
use hybridgrid.Coordinator.Server.{
  Server, up, notify, load_or_store, unix, milliseconds, count_outcome,
}

-- The readings of the clock during one call of a handler.
pub record Clock : Type 0 where
  pub begun : ℕ
  pub selecting : ℕ
  pub booked : ℕ
  pub calling : ℕ
  pub returned : ℕ

-- A task is booked on a worker, before the worker is called.
unfoldable pub start_task : String → String → WorkerInfo → Clock → Server → Server
unfolding notify load_or_store unix
start_task build_type task_id w t s =
    notify
      (started (record {
        id = task_id;
        build_type = build_type;
        status = "running";
        worker_id = w.id;
        started_at = unix t.calling;
        completed_at = 0;
        duration_ms = pos 0;
        exit_code = pos 0;
        from_cache = false;
        error_message = "";
      }))
      (record s {
        registry = after s.registry (increment_tasks w.id s.registry);
        counters = record s.counters {
          active_tasks = up s.counters.active_tasks;
          total_tasks = up s.counters.total_tasks;
        };
        active_tasks_by_worker = load_or_store w.id s.active_tasks_by_worker;
      })

-- What the server makes of the worker's reply.
pub record Report : Type 0 where
  pub success : Bool
  pub compile_time : ℤ
  pub exit_code : ℤ
  pub error_message : String

-- `time.Duration(ms) * time.Millisecond`
unfoldable pub duration_of_ms : ℤ → ℤ
duration_of_ms ms = wrap64 (ms *ℤ pos 1000000)

-- The worker has replied: the registry and the counters follow, and the notifier is told.
unfoldable pub finish_task : String → String → WorkerInfo → Clock → Report → Server → Server
unfolding notify unix milliseconds count_outcome
finish_task build_type task_id w t r s =
    notify
      (completed (record {
        id = task_id;
        build_type = build_type;
        status = if r.success then "completed" else "failed";
        worker_id = w.id;
        started_at = unix t.calling;
        completed_at = unix t.returned;
        duration_ms = milliseconds t.calling t.returned;
        exit_code = r.exit_code;
        from_cache = false;
        error_message = r.error_message;
      }))
      (record s {
        registry = after s.registry (decrement_tasks w.id r.success r.compile_time s.registry);
        counters = count_outcome r.success s.counters;
      })
