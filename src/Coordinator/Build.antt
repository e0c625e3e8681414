-- ===== src/Coordinator/Build.antt =====
-- `Build` of internal/coordinator/server/grpc.go: `handleFlutterBuild` and `handleUnityBuild`, which
-- are the same code on the two sets of fields, with the choice of a worker for each. The key of a
-- request (FlutterCacheKey, UnityCacheKey), the connection and the call of the worker are parameters.
use hybridgrid.Prelude.{
  String, true, false, Option, none, some, [], if◌then◌else◌, is_empty, str_eq,
}
use Prim.Native.String.{◌++◌ as append}
use hybridgrid.Prelude.Int.{pos}
use hybridgrid.Registry.Types.{WorkerInfo}
use hybridgrid.Coordinator.Messages.{
  BuildRequest, BuildResponse, flutter_config, unity_config, other_config, status_completed,
  status_failed, is_completed, Reply, replies, breaks, Answer, answers, invalid_argument, TaskEvent,
  started, completed,
}
use hybridgrid.Coordinator.Server.{
  Server, Kind, flutter, unity, Counters, CacheEntry, up, notify, unix, enqueue, kind_name,
  builds_of, set_builds, get_cache, set_cache, leave_worker, leave_queue,
}
use hybridgrid.Coordinator.Tasks.{Clock, Report, start_task, finish_task}
use hybridgrid.Coordinator.Placement.{select_worker, no_worker_text}

unfoldable pub failed_build : String → BuildResponse
failed_build text = record {
  status = status_failed;
  artifacts = [];
  artifact_list = [];
  exit_code = pos 1;
  stdout = "";
  stderr = text;
  build_time_ms = pos 0;
  from_cache = false;
}

unfoldable pub cached_build : CacheEntry → BuildResponse
cached_build entry = record {
  status = status_completed;
  artifacts = entry.artifacts;
  artifact_list = entry.artifact_list;
  exit_code = pos 0;
  stdout = entry.stdout;
  stderr = entry.stderr;
  build_time_ms = entry.build_time_ms;
  from_cache = true;
}

-- The events of a task that no worker gets.
unfoldable pub start_event : Kind → String → Clock → TaskEvent
unfolding unix kind_name
start_event kind id t = record {
  id = id;
  build_type = kind_name kind;
  status = "running";
  worker_id = "";
  started_at = unix t.begun;
  completed_at = 0;
  duration_ms = pos 0;
  exit_code = pos 0;
  from_cache = false;
  error_message = "";
}

unfoldable pub count_hit : Kind → Server → Server
unfolding builds_of set_builds
count_hit kind s =
    let b = builds_of kind s in
    set_builds kind (record b { hits = up b.hits; builds = up b.builds })
      (record s {
        counters = record s.counters {
          cache_hits = up s.counters.cache_hits;
          total_tasks = up s.counters.total_tasks;
          success_tasks = up s.counters.success_tasks;
        };
      })

unfoldable pub answer_hit : Kind → BuildRequest → Clock → CacheEntry → Server → Server
unfolding count_hit notify start_event
answer_hit kind req t entry s =
    notify
      (completed (record (start_event kind req.task_id t) {
        status = "completed";
        completed_at = unix t.returned;
        duration_ms = entry.build_time_ms;
        from_cache = true;
      }))
      (notify (started (start_event kind req.task_id t)) (count_hit kind s))

unfoldable pub count_miss : Kind → Server → Server
unfolding builds_of set_builds enqueue
count_miss kind s =
    let b = builds_of kind s in
    set_builds kind (record b { misses = up b.misses }) (record s { counters = enqueue s.counters })

-- Nobody can do the build.
unfoldable pub count_unplaced : Counters → Counters
count_unplaced c = record c { total_tasks = up c.total_tasks; failed_tasks = up c.failed_tasks }

unfoldable pub give_up : Kind → BuildRequest → Clock → Server → Server
unfolding count_unplaced notify start_event no_worker_text
give_up kind req t s =
    notify
      (completed (record (start_event kind req.task_id t) {
        status = "failed";
        completed_at = unix t.returned;
        exit_code = pos 1;
        error_message = no_worker_text kind req.target_platform;
      }))
      (notify (started (start_event kind req.task_id t))
        (record s { counters = count_unplaced s.counters }))

unfoldable pub count_build : Kind → Server → Server
unfolding builds_of set_builds
count_build kind s =
    let b = builds_of kind s in set_builds kind (record b { builds = up b.builds }) s

unfoldable pub build_report : Reply BuildResponse → Report
unfolding is_completed
build_report (replies resp) =
    let success = is_completed resp.status in
    record {
      success = success;
      compile_time = pos 0;
      exit_code = resp.exit_code;
      error_message = if success then "" else resp.stderr;
    }
build_report (breaks text) = record {
  success = false;
  compile_time = pos 0;
  exit_code = pos 1;
  error_message = text;
}

unfoldable pub build_answer : Reply BuildResponse → BuildResponse
unfolding failed_build
build_answer (replies resp) = resp
build_answer (breaks text) = failed_build (append "worker error: " text)

-- What is kept of the reply: every response that has artifacts.
unfoldable pub remember : Kind → String → Reply BuildResponse → Server → Server
unfolding set_cache
remember kind key (breaks text) s = s
remember kind key (replies resp) s =
    if is_empty resp.artifacts then s else set_cache kind key resp s

module _ (dial : String → Option String) (call : String → BuildRequest → Reply BuildResponse) where
  unfoldable pub run_on :
      Kind → String → Clock → BuildRequest → WorkerInfo → Server → BuildResponse × Server
  unfolding start_task finish_task build_report build_answer remember count_build leave_worker
  run_on kind key t req w s =
      let reply = call w.address req in
      let booked = start_task (kind_name kind) req.task_id w t (count_build kind s) in
      let finished = finish_task (kind_name kind) req.task_id w t (build_report reply) booked in
      (build_answer reply, leave_worker w.id (remember kind key reply finished))

  -- The worker that was selected, and what the connection to it gave.
  unfoldable pub reach :
      Kind
      → String
      → Clock
      → BuildRequest
      → WorkerInfo
      → Option String
      → Server
      → BuildResponse × Server
  unfolding failed_build run_on
  reach kind key t req w (some text) s =
      (failed_build (append "failed to connect to worker: " text), s)
  reach kind key t req w none s = run_on kind key t req w s

  unfoldable pub place :
      Kind → String → Clock → BuildRequest → Option WorkerInfo → Server → BuildResponse × Server
  unfolding give_up failed_build no_worker_text reach
  place kind key t req none s =
      (failed_build (no_worker_text kind req.target_platform), give_up kind req t s)
  place kind key t req (some w) s = reach kind key t req w (dial w.address) s

  -- The request, with what the cache has for it.
  unfoldable pub serve :
      Kind → String → Clock → BuildRequest → Option CacheEntry → Server → BuildResponse × Server
  unfolding answer_hit cached_build count_miss select_worker place leave_queue
  serve kind key t req (some entry) s = (cached_build entry, answer_hit kind req t entry s)
  serve kind key t req none s =
      let entered = count_miss kind s in
      let choice = select_worker kind t.selecting req.target_platform entered in
      let (answer, s') = place kind key t req choice entered in (answer, leave_queue s')

  -- `handleFlutterBuild` and `handleUnityBuild`
  unfoldable pub handle_build :
      Kind → String → Clock → BuildRequest → Server → BuildResponse × Server
  unfolding get_cache serve
  handle_build kind key t req s = serve kind key t req (get_cache kind key s) s

  module _ (flutter_key unity_key : BuildRequest → String) where
    unfoldable pub build : Clock → BuildRequest → Server → Answer BuildResponse × Server
    unfolding handle_build failed_build
    build t req s =
        if str_eq req.task_id ""
        then (invalid_argument "task_id required", s)
        else elim req.config [
          | flutter_config ↦
              let (resp, s') = handle_build flutter (flutter_key req) t req s in (answers resp, s')
          | unity_config ↦
              let (resp, s') = handle_build unity (unity_key req) t req s in (answers resp, s')
          | other_config ↦ (answers (failed_build "build type not implemented yet"), s)
        ]
