-- ===== src/Coordinator/Compile.antt =====
-- `Compile` of internal/coordinator/server/grpc.go. The call of the worker is a parameter, and so
-- are log1p and the scheduler; the readings of the clock are arguments. Tracing, logging and
-- the metrics of Prometheus are left out.
use hybridgrid.Prelude.{
  ◌+◌, String, false, not, ◌&&◌, Option, none, some, List, if◌then◌else◌, length, is_empty, str_eq,
}
use Prim.Native.String.{◌++◌ as append}
use hybridgrid.Prelude.Int.{pos, negsuc, quot_ℤ, leb_ℤ}
use hybridgrid.Prelude.Float.{Float}
use hybridgrid.Registry.Types.{WorkerInfo, build_type_cpp}
use hybridgrid.Scheduler.Eligible.{
  SelectError, no_workers, no_matching_workers, Selection, selected, fails, panics, view,
}
use hybridgrid.Scheduler.Interface.{Scheduler, TaskContext}
use hybridgrid.Coordinator.Messages.{
  CompileRequest, CompileResponse, status_failed, is_completed, Reply, replies, breaks, Answer,
  answers, invalid_argument, crashes,
}
use hybridgrid.Coordinator.Server.{Server, Config, milliseconds, enqueue, leave_worker, leave_queue}
use hybridgrid.Coordinator.Tasks.{Clock, Report, duration_of_ms, start_task, finish_task}

unfoldable pub error_text : SelectError → String
error_text no_workers = "no workers available"
error_text no_matching_workers = "no workers match requirements"

-- Only preprocessed source ties a task to the client's system.
unfoldable pub client_os_filter : CompileRequest → String
client_os_filter req =
    if is_empty req.raw_source && not (is_empty req.preprocessed_source) then req.client_os else ""

unfoldable pub task_context : CompileRequest → TaskContext
task_context req = record {
  source_size_bytes = length req.preprocessed_source + length req.raw_source;
  task_id = req.task_id;
}

unfoldable pub failed_response : String → CompileResponse
failed_response text = record {
  status = status_failed;
  object_file = List.[];
  exit_code = pos 1;
  stdout = "";
  stderr = text;
  compilation_time_ms = pos 0;
  queue_time_ms = pos 0;
  worker_id = "";
  from_cache = false;
}

unfoldable pub compile_report : Reply CompileResponse → Report
unfolding is_completed duration_of_ms
compile_report (replies resp) =
    let success = is_completed resp.status in
    record {
      success = success;
      compile_time = duration_of_ms resp.compilation_time_ms;
      exit_code = resp.exit_code;
      error_message = if success then "" else resp.stderr;
    }
compile_report (breaks text) = record {
  success = false;
  compile_time = pos 0;
  exit_code = pos 1;
  error_message = text;
}

unfoldable pub compile_enter : Server → Server
unfolding enqueue
compile_enter s = record s { counters = enqueue s.counters }

unfoldable pub compile_answer : Clock → Reply CompileResponse → CompileResponse
unfolding milliseconds failed_response
compile_answer t (breaks text) = failed_response (append "worker error: " text)
compile_answer t (replies resp) = record resp { queue_time_ms = milliseconds t.begun t.booked }

-- `forwardCompile`, over the connection to an address and the call itself.
unfoldable pub forward_compile :
    (dial : String → Option String)
    → (call : String → CompileRequest → Reply CompileResponse) → WorkerInfo
    → CompileRequest
    → Reply CompileResponse
forward_compile dial call w req = elim (dial w.address) [
  | some text ↦ breaks (append "failed to connect to worker: " text)
  | none ↦ call w.address req
]

module _ (F : Float) where
  open F use {Carrier, lit, of_int, neg, div}

  -- The reward of a learning scheduler, about -1 to 0.
  unfoldable pub reward : (log1p : Carrier → Carrier) → Config → Reply CompileResponse → Carrier
  unfolding is_completed
  reward log1p cfg reply =
      let timeout = quot_ℤ cfg.request_timeout 1000000 in
      let timeout_ms = if leb_ℤ timeout (pos 0) then lit (pos 120000) 1 else of_int timeout in
      elim reply [
        | breaks text ↦ lit (negsuc 0) 1
        | replies resp ↦
            if is_completed resp.status
            then div (neg (log1p (of_int resp.compilation_time_ms))) (log1p timeout_ms)
            else lit (negsuc 0) 1
      ]

  module _ (log1p : Carrier → Carrier) (S : Scheduler Carrier) where
    open S use {State}

    unfoldable pub select_worker :
        Clock → CompileRequest → State → Server → Selection WorkerInfo × State
    unfolding task_context client_os_filter view
    select_worker t req sched s =
        S.select (task_context req) (view t.selecting s.registry) build_type_cpp req.target_arch
          (client_os_filter req) sched

    -- From the booking of the task to the end, with the deferred calls in their order.
    unfoldable pub run_on :
        Clock
        → (WorkerInfo → CompileRequest → Reply CompileResponse)
        → CompileRequest
        → WorkerInfo
        → State
        → Server
        → Answer CompileResponse × State × Server
    unfolding start_task finish_task compile_report compile_answer reward task_context leave_worker
    run_on t forward req w sched s =
        let reply = forward w req in
        let report = compile_report reply in
        let finished =
          finish_task "cpp" req.task_id w t report (start_task "cpp" req.task_id w t s) in
        (
          answers (compile_answer t reply),
          S.record_outcome (view t.returned finished.registry) w.id (reward log1p s.config reply)
              report.success (task_context req) sched,
          leave_worker w.id finished,
        )

    unfoldable pub dispatch :
        Clock
        → (WorkerInfo → CompileRequest → Reply CompileResponse)
        → CompileRequest
        → Selection WorkerInfo
        → State
        → Server
        → Answer CompileResponse × State × Server
    unfolding failed_response error_text
    dispatch t forward req (selected w) sched s = run_on t forward req w sched s
    dispatch t forward req (fails e) sched s =
        (answers (failed_response (append "no worker available: " (error_text e))), sched, s)
    dispatch t forward req panics sched s = (crashes, sched, s)

    unfoldable pub compile :
        Clock
        → (WorkerInfo → CompileRequest → Reply CompileResponse)
        → CompileRequest
        → State
        → Server
        → Answer CompileResponse × State × Server
    unfolding compile_enter select_worker dispatch leave_queue
    compile t forward req sched s =
        if str_eq req.task_id ""
        then (invalid_argument "task_id required", sched, s)
        else (let entered = compile_enter s in
            let (choice, sched') = select_worker t req sched entered in
            let (answer, sched'', s') = dispatch t forward req choice sched' entered in
            (answer, sched'', leave_queue s'))
