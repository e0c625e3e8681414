-- ===== src/Coordinator/Queries.antt =====
-- The other handlers of internal/coordinator/server/grpc.go: `Handshake`, which registers a worker,
-- `ReportCacheHit`, `StreamBuild`, and those that only read. `decimal` stands for the `%d` of fmt.
use hybridgrid.Prelude.{
  ℕ, ◌+◌, ◌%◌, String, Bool, true, false, ◌||◌, Option, none, some, List, [], ◌∷◌, ◌++◌,
  if◌then◌else◌, str_eq, map, length, keep, ltb, ◌==◌,
}
use Prim.Native.String.{◌++◌ as append}
use hybridgrid.Prelude.Int.{
  ℤ, pos, negsuc, word, half64, signed, wrap32, quot_ℤ, leb_ℤ, ltb_ℤ, pos_part,
}
use hybridgrid.Registry.Types.{
  Architecture, arch_unspecified, BuildType, WorkerCapabilities, idle, WorkerInfo, Error, not_found,
  ok, err,
}
use hybridgrid.Registry.Table.{add, update_heartbeat, list, is_healthy, list_by_capability}
use hybridgrid.Coordinator.Messages.{
  Bytes, BuildResponse, Answer, answers, invalid_argument, internal,
}
use hybridgrid.Coordinator.Server.{Server, unix}
use hybridgrid.Coordinator.Build.{failed_build}

pub record HandshakeRequest : Type 0 where
  pub capabilities : Option WorkerCapabilities
  pub auth_token : String
  pub worker_address : String

pub record HandshakeResponse : Type 0 where
  pub accepted : Bool
  pub message : String
  pub assigned_worker_id : String
  pub heartbeat_interval_seconds : ℤ

unfoldable pub or_else_text : String → String → String
or_else_text given default = if str_eq given "" then default else given

-- The worker that a handshake hands to the registry.
unfoldable pub offered_worker :
    (decimal : ℕ → String) → ℕ → HandshakeRequest → WorkerCapabilities → WorkerInfo
unfolding or_else_text
offered_worker decimal nanos req caps = record {
  id =
      or_else_text caps.worker_id
        (append "worker-" (append caps.hostname (append "-" (decimal nanos))));
  address = or_else_text req.worker_address (append caps.hostname ":50052");
  capabilities = some caps;
  state = idle;
  discovery_source = "";
  last_heartbeat = 0;
  registered_at = 0;
  max_parallel = if leb_ℤ caps.max_parallel_tasks (pos 0) then pos 4 else caps.max_parallel_tasks;
  active_tasks = pos 0;
  total_tasks = pos 0;
  successful_tasks = pos 0;
  failed_tasks = pos 0;
  avg_compile_time = pos 0;
}

-- `int32(ttl.Seconds() / 2)`; the quotient of float64 is exact for a time below 2^22 seconds.
unfoldable pub heartbeat_interval : ℤ → ℤ
heartbeat_interval ttl = wrap32 (quot_ℤ ttl 2000000000)

unfoldable pub welcome : String → ℤ → HandshakeResponse
unfolding heartbeat_interval
welcome id ttl = record {
  accepted = true;
  message = "worker registered successfully";
  assigned_worker_id = id;
  heartbeat_interval_seconds = heartbeat_interval ttl;
}

unfoldable pub rejection : HandshakeResponse
rejection = record {
  accepted = false;
  message = "invalid auth token";
  assigned_worker_id = "";
  heartbeat_interval_seconds = pos 0;
}

unfoldable pub registry_error : Error → String
registry_error (not_found id) = append "worker " (append id " not found")

-- `Add`, and a heartbeat where that fails.
unfoldable pub register : ℕ → WorkerInfo → Server → Answer HandshakeResponse × Server
unfolding welcome registry_error
register now w s = elim (add now w s.registry) [
  | ok r ↦ (answers (welcome w.id s.config.heartbeat_ttl), record s { registry = r })
  | err _ ↦ elim (update_heartbeat now w.id s.registry) [
    | ok r ↦ (answers (welcome w.id s.config.heartbeat_ttl), record s { registry = r })
    | err e ↦ (internal (append "failed to register worker: " (registry_error e)), s)
  ]
]

unfoldable pub token_fits : String → String → Bool
token_fits wanted given = str_eq wanted "" || str_eq given wanted

unfoldable pub handshake :
    (decimal : ℕ → String) → ℕ → ℕ → HandshakeRequest → Server → Answer HandshakeResponse × Server
unfolding token_fits rejection offered_worker register
handshake decimal nanos now req s = elim req.capabilities [
  | none ↦ (invalid_argument "capabilities required", s)
  | some caps ↦
      if token_fits s.config.auth_token req.auth_token
      then register now (offered_worker decimal nanos req caps) s
      else (answers rejection, s)
]

unfoldable pub clamp_int64_to_int32 : ℤ → ℤ
clamp_int64_to_int32 v =
    if ltb_ℤ (pos 2147483647) v
    then pos 2147483647
    else if ltb_ℤ v (negsuc 2147483647)
    then negsuc 2147483647
    else v

pub record HealthResponse : Type 0 where
  pub healthy : Bool
  pub active_tasks : ℤ
  pub queued_tasks : ℤ

unfoldable pub count_healthy : ℕ → Server → ℕ
unfolding is_healthy list
count_healthy now s = length (keep (λ w. is_healthy w now s.config.heartbeat_ttl) (list s.registry))

unfoldable pub health_check : ℕ → Server → HealthResponse
unfolding count_healthy clamp_int64_to_int32 list
health_check now s = record {
  healthy = ltb 0 (count_healthy now s) || (length (list s.registry) == 0);
  active_tasks = clamp_int64_to_int32 (signed half64 s.counters.active_tasks);
  queued_tasks = clamp_int64_to_int32 (signed half64 s.counters.queued_tasks);
}

pub record WorkerStatus : Type 0 where
  pub worker_id : String
  pub host : String
  pub native_arch : Architecture
  pub cpu_cores : ℤ
  pub memory_bytes : ℤ
  pub active_tasks : ℤ
  pub total_tasks_completed : ℤ
  pub last_heartbeat_unix : ℕ

-- `workerCapabilitiesOrDefault`, the fields that are read of it.
unfoldable pub worker_status : WorkerInfo → WorkerStatus
unfolding unix
worker_status w = record {
  worker_id = w.id;
  host = elim w.capabilities [ none ↦ "" | some c ↦ c.hostname ];
  native_arch = elim w.capabilities [ none ↦ arch_unspecified | some c ↦ c.native_arch ];
  cpu_cores = elim w.capabilities [ none ↦ pos 0 | some c ↦ c.cpu_cores ];
  memory_bytes = elim w.capabilities [ none ↦ pos 0 | some c ↦ c.memory_bytes ];
  active_tasks = w.active_tasks;
  total_tasks_completed = w.total_tasks;
  last_heartbeat_unix = unix w.last_heartbeat;
}

pub record WorkerStatusResponse : Type 0 where
  pub workers : List WorkerStatus
  pub total_workers : ℤ
  pub healthy_workers : ℤ

unfoldable pub get_worker_status : ℕ → Server → WorkerStatusResponse
unfolding worker_status count_healthy list
get_worker_status now s = record {
  workers = map worker_status (list s.registry);
  total_workers = wrap32 (pos (length (list s.registry)));
  healthy_workers = wrap32 (pos (count_healthy now s));
}

pub record WorkersForBuildResponse : Type 0 where
  pub worker_ids : List String
  pub available_count : ℤ

unfoldable pub get_workers_for_build : ℕ → BuildType → Server → WorkersForBuildResponse
unfolding list_by_capability
get_workers_for_build now build_type s =
    let ids = map (λ w. w.id) (list_by_capability now build_type arch_unspecified s.registry) in
    record { worker_ids = ids; available_count = wrap32 (pos (length ids)) }

-- `ReportCacheHit`, which always acknowledges.
unfoldable pub report_cache_hit : ℤ → Server → Server
report_cache_hit hits s =
    if ltb_ℤ (pos 0) hits
    then record s {
      counters = record s.counters { cache_hits = (s.counters.cache_hits + pos_part hits) % word };
    }
    else s

-- What one `Recv` of a stream gives; the end of a list of them is io.EOF.
pub data Chunk : Type 0 where
  metadata : Chunk
  source_chunk : Bytes → Chunk
  no_payload : Chunk
  broken : String → Chunk

-- The loop of `StreamBuild`: whether metadata came, and the source so far.
unfoldable pub receive : List Chunk → Bool → Bytes → Answer (Bool × Bytes)
receive [] seen source = answers (seen, source)
receive (metadata ∷ cs) seen source = receive cs true source
receive (source_chunk bytes ∷ cs) seen source = receive cs seen (source ++ bytes)
receive (no_payload ∷ cs) seen source = receive cs seen source
receive (broken text ∷ cs) seen source = internal (append "failed to receive chunk: " text)

unfoldable pub close_stream : Answer (Bool × Bytes) → Answer BuildResponse
unfolding failed_build
close_stream (answers (seen, source)) =
    if seen
    then answers (failed_build "stream build not implemented yet")
    else invalid_argument "metadata required"
close_stream (invalid_argument text) = invalid_argument text
close_stream (internal text) = internal text
close_stream Answer.crashes = Answer.crashes

unfoldable pub stream_build : List Chunk → Answer BuildResponse
unfolding receive close_stream
stream_build cs = close_stream (receive cs false [])
