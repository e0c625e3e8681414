-- ===== src/Coordinator/Server.antt =====
-- The state of the coordinator's server, `Server` of internal/coordinator/server/grpc.go, and the
-- changes of it that the handlers are made of. The counters are int64 values as numbers modulo
-- 2^64, and each change of one is atomic in the source.
use hybridgrid.Prelude.{
  ℕ, ◌+◌, ◌-◌, ◌%◌, ◌/◌, ◌++◌, String, Bool, Option, none, some, List, [], ◌∷◌, if◌then◌else◌,
}
use hybridgrid.Prelude.Int.{ℤ, pos, word, sub_ℕ, quot_ℤ}
use hybridgrid.Prelude.Maps.{lookup, insert}
use hybridgrid.Registry.Table.{InMemoryRegistry, new_in_memory_registry}
use hybridgrid.Coordinator.Messages.{Bytes, BuildResponse, ArtifactInfo, Notice}

-- The fields of `Config` that the handlers read; times in nanoseconds.
pub record Config : Type 0 where
  pub auth_token : String
  pub heartbeat_ttl : ℤ
  pub request_timeout : ℤ

unfoldable pub default_config : Config
default_config = record {
  auth_token = "";
  heartbeat_ttl = pos 60000000000;
  request_timeout = pos 120000000000;
}

pub record Counters : Type 0 where
  pub active_tasks : ℕ
  pub queued_tasks : ℕ
  pub total_tasks : ℕ
  pub success_tasks : ℕ
  pub failed_tasks : ℕ
  pub cache_hits : ℕ
  pub cache_misses : ℕ

pub record CacheEntry : Type 0 where
  pub artifacts : Bytes
  pub artifact_list : List ArtifactInfo
  pub stdout : String
  pub stderr : String
  pub build_time_ms : ℤ

-- The four fields that the server has for Flutter builds, and again for Unity builds.
pub record Builds : Type 0 where
  pub builds : ℕ
  pub hits : ℕ
  pub misses : ℕ
  pub cache : List (String × CacheEntry)

pub data Kind : Type 0 where
  flutter unity : Kind

pub record Server : Type 0 where
  pub config : Config
  pub registry : InMemoryRegistry
  pub counters : Counters
  pub flutter : Builds
  pub unity : Builds
  pub active_tasks_by_worker : List (String × ℕ)
  -- What the notifier was told, if one is set.
  pub notifier : Option (List Notice)

unfoldable pub no_tasks : Counters
no_tasks = record {
  active_tasks = 0;
  queued_tasks = 0;
  total_tasks = 0;
  success_tasks = 0;
  failed_tasks = 0;
  cache_hits = 0;
  cache_misses = 0;
}

unfoldable pub no_builds : Builds
no_builds = record { builds = 0; hits = 0; misses = 0; cache = [] }

-- `New`
unfoldable pub new : Config → Server
unfolding no_tasks no_builds new_in_memory_registry
new cfg = record {
  config = cfg;
  registry = new_in_memory_registry cfg.heartbeat_ttl;
  counters = no_tasks;
  flutter = no_builds;
  unity = no_builds;
  active_tasks_by_worker = [];
  notifier = none;
}

-- `SetEventNotifier`
unfoldable pub set_event_notifier : Server → Server
set_event_notifier s = record s { notifier = some [] }

-- `atomic.AddInt64(&n, 1)` and `atomic.AddInt64(&n, -1)`
abbrev pub up : ℕ → ℕ
up n = (n + 1) % word

abbrev pub down : ℕ → ℕ
down n = (n + (word - 1)) % word

unfoldable pub builds_of : Kind → Server → Builds
builds_of flutter s = s.flutter
builds_of unity s = s.unity

unfoldable pub set_builds : Kind → Builds → Server → Server
set_builds flutter b s = record s { flutter = b }
set_builds unity b s = record s { unity = b }

unfoldable pub kind_name : Kind → String
kind_name flutter = "flutter"
kind_name unity = "unity"

-- A call of the notifier, if there is one.
unfoldable pub tell : Notice → Option (List Notice) → Option (List Notice)
tell n none = none
tell n (some told) = some (told ++ n ∷ [])

unfoldable pub notify : Notice → Server → Server
unfolding tell
notify n s = record s { notifier = tell n s.notifier }

-- `LoadOrStore` of a new counter, and one up.
unfoldable pub load_or_store : String → List (String × ℕ) → List (String × ℕ)
load_or_store id m = elim (lookup id m) [ none ↦ insert id (up 0) m | some n ↦ insert id (up n) m ]

-- `Load`, and one down if it is there.
unfoldable pub load_and_drop : String → List (String × ℕ) → List (String × ℕ)
load_and_drop id m = elim (lookup id m) [ none ↦ m | some n ↦ insert id (down n) m ]

-- `time.Time.Unix` of a reading, and `Milliseconds` of the time between two.
unfoldable pub unix : ℕ → ℕ
unix t = t / 1000000000

unfoldable pub milliseconds : ℕ → ℕ → ℤ
milliseconds from to = quot_ℤ (sub_ℕ to from) 1000000

-- A task waits: it counts as a miss of the cache, and as queued.
unfoldable pub enqueue : Counters → Counters
enqueue c = record c { cache_misses = up c.cache_misses; queued_tasks = up c.queued_tasks }

unfoldable pub count_outcome : Bool → Counters → Counters
count_outcome success c =
    if success
    then record c { success_tasks = up c.success_tasks }
    else record c { failed_tasks = up c.failed_tasks }

-- The deferred calls of a handler: that of a running task, and that of a queued one.
unfoldable pub leave_worker : String → Server → Server
unfolding load_and_drop
leave_worker id s = record s {
  counters = record s.counters { active_tasks = down s.counters.active_tasks };
  active_tasks_by_worker = load_and_drop id s.active_tasks_by_worker;
}

unfoldable pub leave_queue : Server → Server
leave_queue s = record s {
  counters = record s.counters { queued_tasks = down s.counters.queued_tasks };
}

unfoldable pub get_cache : Kind → String → Server → Option CacheEntry
unfolding builds_of
get_cache kind key s = lookup key (builds_of kind s).cache

unfoldable pub entry_of : BuildResponse → CacheEntry
entry_of resp = record {
  artifacts = resp.artifacts;
  artifact_list = resp.artifact_list;
  stdout = resp.stdout;
  stderr = resp.stderr;
  build_time_ms = resp.build_time_ms;
}

unfoldable pub set_cache : Kind → String → BuildResponse → Server → Server
unfolding builds_of set_builds entry_of
set_cache kind key resp s =
    let b = builds_of kind s in
    set_builds kind (record b { cache = insert key (entry_of resp) b.cache }) s
