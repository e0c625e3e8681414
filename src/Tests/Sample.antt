-- ===== src/Tests/Sample.antt =====
-- Two workers with a C++ compiler, and a table that holds them.
use hybridgrid.Prelude.{String, ℕ, true, false, none, some, List, [], ◌∷◌}
use hybridgrid.Prelude.Int.{pos}
use hybridgrid.Registry.Types.{
  arch_x86_64, WorkerCapabilities, WorkerState, idle, busy, unhealthy, WorkerInfo,
}
use hybridgrid.Registry.Table.{InMemoryRegistry}
use hybridgrid.Scheduler.Eligible.{RegistryView}

abbrev pub linux_caps : WorkerCapabilities
linux_caps = record {
  worker_id = "w";
  hostname = "h";
  cpu_cores = pos 8;
  memory_bytes = pos 17179869184;
  disk_space_bytes = pos 0;
  native_arch = arch_x86_64;
  os = "linux";
  docker_available = true;
  docker_images = [];
  max_parallel_tasks = pos 4;
  version = "1";
  cpp = some (record {
    compilers = "gcc" ∷ [];
    cross_compile = false;
    docker_images = [];
    msvc_version = "";
    msvc_architectures = [];
    has_windows_sdk = false;
  });
  flutter = none;
  unity = none;
  cocos = none;
  rust = none;
  go = none;
  nodejs = none;
}

abbrev pub worker : String → WorkerState → ℕ → WorkerInfo
worker id state active = record {
  id = id;
  address = "10.0.0.1:9001";
  capabilities = some linux_caps;
  state = state;
  discovery_source = "LAN";
  last_heartbeat = 100;
  registered_at = 50;
  max_parallel = pos 4;
  active_tasks = pos active;
  total_tasks = pos active;
  successful_tasks = pos 0;
  failed_tasks = pos 0;
  avg_compile_time = pos 0;
}

abbrev pub alice : WorkerInfo
alice = worker "alice" busy 2

abbrev pub bob : WorkerInfo
bob = worker "bob" idle 0

abbrev pub carol : WorkerInfo
carol = worker "carol" unhealthy 0

abbrev pub everyone : List WorkerInfo
everyone = alice ∷ bob ∷ carol ∷ []

abbrev pub office : InMemoryRegistry
office = record {
  workers = ("alice", alice) ∷ ("bob", bob) ∷ ("carol", carol) ∷ [];
  ttl = pos 30;
  stopped = false;
  gauges = record { active = 2; total = 3 };
}

abbrev pub office_view : RegistryView
office_view = record { listed = λ b a. everyone; size = 3; find = λ id. none }
