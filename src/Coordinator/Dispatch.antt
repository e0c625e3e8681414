-- ===== src/Coordinator/Dispatch.antt =====
-- What `Compile` of internal/coordinator/server/grpc.go gives and leaves behind.
use hybridgrid.Prelude.{
  not, ◌&&◌, ◌||◌, is_empty, Option, if◌then◌else◌, ℕ, ◌<◌, String, str_eq, ◌≡◌, refl, ap, Bool,
  true, false, some, arith,
}
use Prim.Native.String.{◌++◌ as append}
use hybridgrid.Prelude.Int.{word}
use hybridgrid.Prelude.Float.{Float}
use hybridgrid.Registry.Types.{WorkerInfo, WorkerCapabilities, build_type_cpp}
use hybridgrid.Registry.Capability.{matches_capability}
use hybridgrid.Registry.Table.{increment_tasks, decrement_tasks, get, is_healthy}
use hybridgrid.Registry.Invariant.{after, IsValid}
use hybridgrid.Registry.Listing.{list_by_capability-mem}
use hybridgrid.Scheduler.Eligible.{SelectError, Selection, selected, fails, panics, view, runs_on}
use hybridgrid.Scheduler.Interface.{Scheduler}
use hybridgrid.Coordinator.Messages.{CompileRequest, CompileResponse, Reply, answers, crashes}
use hybridgrid.Coordinator.Server.{
  Server, Counters, up, down, notify, leave_worker, leave_queue, count_outcome,
}
use hybridgrid.Coordinator.Compile.{
  error_text, failed_response, compile_report, compile_answer, compile_enter, select_worker, run_on,
  dispatch, compile, client_os_filter,
}
use hybridgrid.Coordinator.Tasks.{Clock, Report, start_task, finish_task}

down-up : (n : ℕ) → n < word → down (up n) ≡ n
down-up n h = omega arith

-- The counters after a handler that was alone: what was queued and active is as before.
abbrev pub settled : Bool → Counters → Counters
settled success c =
    count_outcome success
      (record c { cache_misses = up c.cache_misses; total_tasks = up c.total_tasks })

queue_lem :
    (s : Server)
    → s.counters.queued_tasks < word
    → leave_queue (compile_enter s)
      ≡ record s { counters = record s.counters { cache_misses = up s.counters.cache_misses } }
unfolding leave_queue compile_enter
queue_lem s q =
    ap
      (λ k. record s {
        counters = record s.counters {
          cache_misses = up s.counters.cache_misses;
          queued_tasks = k;
        };
      })
      (down-up s.counters.queued_tasks q)

settled_lem :
    (build_type task_id : String) (w : WorkerInfo) (t : Clock) (r : Report) (s : Server)
    → s.counters.queued_tasks < word
    → s.counters.active_tasks < word
    → (leave_queue (
        leave_worker w.id (
          finish_task build_type task_id w t r
            (start_task build_type task_id w t (compile_enter s))))).counters
      ≡ settled r.success s.counters
unfolding leave_queue leave_worker finish_task start_task compile_enter count_outcome notify
settled_lem build_type task_id w t r s q a =
    ground (arith, down-up s.counters.queued_tasks, down-up s.counters.active_tasks)

fits_system :
    (no_raw no_source : Bool) (os : String) (caps : Option WorkerCapabilities)
    → let filter = if no_raw && not no_source then os else "" in
      (str_eq filter "" || runs_on filter caps) ≡ true
      → (not no_raw || (no_source || (str_eq os "" || runs_on os caps))) ≡ true
fits_system false no_source os caps h = refl
fits_system true true os caps h = refl
fits_system true false os caps h = h

module _ (F : Float) (log1p : F.Carrier → F.Carrier) (S : Scheduler F.Carrier) (t : Clock)
    (req : CompileRequest) (sched : S.State) where
  -- Whatever the scheduler, if it selects only workers that are listed for the build and fit the system that
  -- it is given: a worker that gets the task is registered under its own ID, was heard of within the time to
  -- live and is not unhealthy, and can compile C++ for the architecture; and unless the request has raw
  -- source, no preprocessed source or no name of a system, the worker runs that system or has
  -- Docker. (The registry is valid.)
  pub select_worker_lem :
      (n : ℕ) (s : Server) (w : WorkerInfo)
      → IsValid n s.registry
      → (select_worker F log1p S t req sched s).0 ≡ selected w
      → (get w.id s.registry ≡ some w)
        × (is_healthy w t.selecting s.registry.ttl ≡ true)
        × (matches_capability w.capabilities build_type_cpp req.target_arch ≡ true)
        × (not (is_empty req.raw_source)
              || (is_empty req.preprocessed_source
                  || (str_eq req.client_os "" || runs_on req.client_os w.capabilities))
            ≡ true)
  unfolding select_worker view client_os_filter
  select_worker_lem n s w v h =
      let (listed, system) = S.select-Matches _ _ _ _ _ _ w h in
      let (found, healthy, capable) =
        (list_by_capability-mem n t.selecting build_type_cpp req.target_arch s.registry w v).0
          listed in
      (
        found,
        healthy,
        capable,
        fits_system (is_empty req.raw_source) (is_empty req.preprocessed_source) req.client_os
            w.capabilities system,
      )

  -- The choice does not depend on the counters.
  select-enter :
      (s : Server) {choice : Selection WorkerInfo}
      → (select_worker F log1p S t req sched s).0 ≡ choice
      → (select_worker F log1p S t req sched (compile_enter s)).0 ≡ choice
  unfolding select_worker compile_enter
  select-enter s h = h

  module _ (forward : WorkerInfo → CompileRequest → Reply CompileResponse) (s : Server)
      (named : str_eq req.task_id "" ≡ false) (q : s.counters.queued_tasks < word) where
    -- Where the scheduler fails, the response is FAILED with exit code 1 and the scheduler's error, no
    -- worker is called, and of the server only the cache misses have changed: the task counts neither
    -- in the total nor as failed, and nobody is notified. (The request has a task ID, and the count of
    -- queued tasks is one of 64 bits.)
    pub compile-fails :
        (e : SelectError)
        → (select_worker F log1p S t req sched s).0 ≡ fails e
        → let (answer, sched', s') = compile F log1p S t forward req sched s in
          (answer ≡ answers (failed_response (append "no worker available: " (error_text e))))
          × (s' ≡ record s {
            counters = record s.counters { cache_misses = up s.counters.cache_misses };
          })
    unfolding compile dispatch
    compile-fails e h = rw (named, compile) (rw (select-enter s h) (refl, queue_lem s q))

    pub compile-panics :
        (select_worker F log1p S t req sched s).0 ≡ panics
        → (compile F log1p S t forward req sched s).0 ≡ crashes
    unfolding compile dispatch
    compile-panics h = rw (named, compile) (rw (select-enter s h) refl)

    -- Where a worker is selected, the response is the worker's own with the queue time, or FAILED with
    -- the error of the call. The task is booked on that worker and finished with the outcome, and it counts
    -- in the total, as a success or as a failure, and as a cache miss; the queued and the active
    -- tasks are what they were. (The request has a task ID, and the counts of queued and of active
    -- tasks are of 64 bits.)
    pub compile-selected :
        (w : WorkerInfo)
        → s.counters.active_tasks < word
        → (select_worker F log1p S t req sched s).0 ≡ selected w
        → let (answer, sched', s') = compile F log1p S t forward req sched s in
          let reply = forward w req in
          let report = compile_report reply in
          let booked = after s.registry (increment_tasks w.id s.registry) in
          (answer ≡ answers (compile_answer t reply))
          × (s'.counters ≡ settled report.success s.counters)
          × (s'.registry
              ≡ after booked (decrement_tasks w.id report.success report.compile_time booked))
    unfolding compile dispatch run_on leave_queue leave_worker finish_task start_task notify
        compile_enter
    compile-selected w a h =
        rw (named, compile)
          (rw (select-enter s h)
            (refl, settled_lem "cpp" req.task_id w t (compile_report (forward w req)) s q a, refl))
