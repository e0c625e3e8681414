-- ===== src/Coordinator/Jobs/Parts.antt =====
-- The steps of the handlers.
use hybridgrid.Prelude.{
  ℕ, String, Option, none, some, List, [], ◌∷◌, ◌++◌, get_elem?, if◌then◌else◌, str_eq,
}
use hybridgrid.Prelude.Int.{ℤ}
use hybridgrid.Prelude.Float.{Float}
use hybridgrid.Registry.Types.{WorkerInfo}
use hybridgrid.Registry.Invariant
use hybridgrid.Registry.Invariant.{Call}
use hybridgrid.Scheduler.Eligible.{view, Selection, selected, fails, panics}
use hybridgrid.Scheduler.Interface.{Scheduler}
use hybridgrid.Coordinator.Messages.{
  CompileRequest, CompileResponse, BuildRequest, BuildResponse, Reply,
}
use hybridgrid.Coordinator.Server.{Server, Kind, get_cache, leave_worker, leave_queue, kind_name}
use hybridgrid.Coordinator.Compile.{compile_report, compile_enter, reward, task_context}
use hybridgrid.Coordinator.Tasks.{Clock, start_task, finish_task}
use hybridgrid.Coordinator.Compile
use hybridgrid.Coordinator.Build.{
  answer_hit, count_miss, count_build, give_up, build_report, remember,
}
use hybridgrid.Coordinator.Placement
use hybridgrid.Coordinator.Queries.{report_cache_hit}
use hybridgrid.Coordinator.Jobs.Count.{
  compiles, builds, Job, waiting, chosen, running, closing, put, drop_at,
}

-- A number names a job by its place; an event for a job that is not there, or not at that point, is none.
-- `picks` is the choice of a worker, `starts` the booking of a compilation on it, and `connects` what the
-- pool of connections answers for the worker of a build, which books it or ends the handler.
pub data Event : Type 0 where
  compile_arrives : CompileRequest → Event
  build_arrives : Clock → Kind → String → BuildRequest → Event
  picks starts : ℕ → Clock → Event
  connects : ℕ → Clock → Option String → Event
  compile_returns : ℕ → Clock → Reply CompileResponse → Event
  build_returns : ℕ → Clock → Reply BuildResponse → Event
  leaves : ℕ → Event
  registry_call : Call → Event
  hits_reported : ℤ → Event

module _ (F : Float) (log1p : F.Carrier → F.Carrier) (S : Scheduler F.Carrier) where
  pub record System : Type 0 where
    pub server : Server
    pub sched : S.State
    pub jobs : List Job

  -- A handler leaves before any worker has its task.
  unfoldable pub leave_early : ℕ → Server → System → System
  unfolding leave_queue
  leave_early i s y = record y { server = leave_queue s; jobs = drop_at i y.jobs }

  unfoldable pub place_compile :
      ℕ → CompileRequest → Selection WorkerInfo → S.State → System → System
  unfolding leave_early
  place_compile i req (selected w) sched y = record y {
    sched = sched;
    jobs = put i (chosen (compiles req) w) y.jobs;
  }
  place_compile i req (fails e) sched y = leave_early i y.server (record y { sched = sched })
  place_compile i req panics sched y = y

  unfoldable pub place_build :
      ℕ → Clock → Kind → String → BuildRequest → Option WorkerInfo → System → System
  unfolding leave_early give_up
  place_build i t kind key req none y = leave_early i (give_up kind req t y.server) y
  place_build i t kind key req (some w) y = record y {
    jobs = put i (chosen (builds kind key req) w) y.jobs;
  }

  -- The choice of a worker for the job at place `i`. A panic ends the process: nothing follows it.
  unfoldable pub pick : ℕ → Clock → Option Job → System → System
  unfolding place_compile place_build Compile.select_worker Placement.select_worker
  pick i t (some (waiting (compiles req))) y =
      let (choice, sched) = Compile.select_worker F log1p S t req y.sched y.server in
      place_compile i req choice sched y
  pick i t (some (waiting (builds kind key req))) y =
      place_build i t kind key req
        (Placement.select_worker kind t.selecting req.target_platform y.server) y
  pick i t (some (chosen work w)) y = y
  pick i t (some (running work w)) y = y
  pick i t (some (closing id)) y = y
  pick i t none y = y

  -- A compilation books its worker.
  unfoldable pub start : ℕ → Clock → Option Job → System → System
  unfolding start_task
  start i t (some (chosen (compiles req) w)) y = record y {
    server = start_task "cpp" req.task_id w t y.server;
    jobs = put i (running (compiles req) w) y.jobs;
  }
  start i t (some (chosen (builds kind key req) w)) y = y
  start i t (some (waiting work)) y = y
  start i t (some (running work w)) y = y
  start i t (some (closing id)) y = y
  start i t none y = y

  -- A build has its answer from the pool of connections.
  unfoldable pub connect : ℕ → Clock → Option String → Option Job → System → System
  unfolding start_task count_build leave_early
  connect i t (some text) (some (chosen (builds kind key req) w)) y = leave_early i y.server y
  connect i t none (some (chosen (builds kind key req) w)) y = record y {
    server = start_task (kind_name kind) req.task_id w t (count_build kind y.server);
    jobs = put i (running (builds kind key req) w) y.jobs;
  }
  connect i t answer (some (chosen (compiles req) w)) y = y
  connect i t answer (some (waiting work)) y = y
  connect i t answer (some (running work w)) y = y
  connect i t answer (some (closing id)) y = y
  connect i t answer none y = y

  unfoldable pub compile_return : ℕ → Clock → Reply CompileResponse → Option Job → System → System
  unfolding finish_task compile_report reward task_context
  compile_return i t reply (some (running (compiles req) w)) y =
      let report = compile_report reply in
      let finished = finish_task "cpp" req.task_id w t report y.server in
      record {
        server = finished;
        sched =
            S.record_outcome (view t.returned finished.registry) w.id
              (reward F log1p y.server.config reply) report.success (task_context req) y.sched;
        jobs = put i (closing w.id) y.jobs;
      }
  compile_return i t reply (some (running (builds kind key req) w)) y = y
  compile_return i t reply (some (waiting work)) y = y
  compile_return i t reply (some (chosen work w)) y = y
  compile_return i t reply (some (closing id)) y = y
  compile_return i t reply none y = y

  unfoldable pub build_return : ℕ → Clock → Reply BuildResponse → Option Job → System → System
  unfolding finish_task build_report remember
  build_return i t reply (some (running (builds kind key req) w)) y = record y {
    server =
        remember kind key reply
          (finish_task (kind_name kind) req.task_id w t (build_report reply) y.server);
    jobs = put i (closing w.id) y.jobs;
  }
  build_return i t reply (some (running (compiles req) w)) y = y
  build_return i t reply (some (waiting work)) y = y
  build_return i t reply (some (chosen work w)) y = y
  build_return i t reply (some (closing id)) y = y
  build_return i t reply none y = y

  unfoldable pub leave : ℕ → Option Job → System → System
  unfolding leave_queue leave_worker
  leave i (some (closing id)) y = record y {
    server = leave_queue (leave_worker id y.server);
    jobs = drop_at i y.jobs;
  }
  leave i (some (waiting work)) y = y
  leave i (some (chosen work w)) y = y
  leave i (some (running work w)) y = y
  leave i none y = y

  unfoldable pub step : System → Event → System
  unfolding compile_enter get_cache answer_hit count_miss pick start connect compile_return
      build_return leave
  step y (compile_arrives req) = if str_eq req.task_id "" then y else record y {
    server = compile_enter y.server;
    jobs = y.jobs ++ waiting (compiles req) ∷ [];
  }
  step y (build_arrives t kind key req) = elim (get_cache kind key y.server) [
    | some entry ↦ record y { server = answer_hit kind req t entry y.server }
    | none ↦ record y {
      server = count_miss kind y.server;
      jobs = y.jobs ++ waiting (builds kind key req) ∷ [];
    }
  ]
  step y (picks i t) = pick i t (get_elem? y.jobs i) y
  step y (starts i t) = start i t (get_elem? y.jobs i) y
  step y (connects i t answer) = connect i t answer (get_elem? y.jobs i) y
  step y (compile_returns i t reply) = compile_return i t reply (get_elem? y.jobs i) y
  step y (build_returns i t reply) = build_return i t reply (get_elem? y.jobs i) y
  step y (leaves i) = leave i (get_elem? y.jobs i) y
  step y (registry_call c) = record y {
    server = record y.server { registry = Invariant.step y.server.registry c };
  }
  step y (hits_reported hits) = record y { server = report_cache_hit hits y.server }

  unfoldable pub run : System → List Event → System
  unfolding step
  run y [] = y
  run y (e ∷ es) = run (step y e) es
