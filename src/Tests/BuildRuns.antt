-- ===== src/Tests/BuildRuns.antt =====
-- A Flutter build that is asked for twice, and a handshake.
use hybridgrid.Prelude.{
  ◌⊎◌, ℕ, String, str_eq, ◌≡◌, refl, true, false, ◌&&◌, Option, none, some, [], ◌∷◌,
}
use hybridgrid.Prelude.Int.{pos}
use hybridgrid.Prelude.Maps.{lookup}
use hybridgrid.Registry.Types.{
  WorkerInfo, WorkerCapabilities, idle, platform_android, platform_web, is_unhealthy,
}
use hybridgrid.Registry.Table.{is_healthy, list}
use hybridgrid.Coordinator.Messages.{
  BuildRequest, BuildResponse, flutter_config, status_failed, Reply, replies, answers,
  status_completed, invalid_argument,
}
use hybridgrid.Coordinator.Server.{Server, Kind, flutter, get_cache, builds_of, no_builds, up}
use hybridgrid.Coordinator.Placement
use hybridgrid.Coordinator.Placement.{
  first_worker, worker_supports, supports, offers, among, platform_eq,
}
use hybridgrid.Coordinator.Build.{handle_build}
use hybridgrid.Coordinator.BuildCache.{same_kind, handle_build-handle_build}
use hybridgrid.Coordinator.Queries.{HandshakeRequest, handshake}
use hybridgrid.Coordinator.Registration.{Accepted, handshake_lem}
use hybridgrid.Tests.Sample.{worker, linux_caps}
use hybridgrid.Tests.CoordinatorRuns.{clock, office_server}

abbrev flutter_caps : WorkerCapabilities
flutter_caps = record linux_caps {
  flutter = some (record {
    sdk_version = "3.0";
    platforms = platform_web ∷ platform_android ∷ [];
    android_sdk = true;
    xcode_available = false;
  });
}

abbrev erin : WorkerInfo
erin = record (worker "erin" idle 0) { capabilities = some flutter_caps }

abbrev studio : Server
studio = record office_server {
  registry = record {
    workers = ("bob", worker "bob" idle 0) ∷ ("erin", erin) ∷ [];
    ttl = pos 30;
    stopped = false;
    gauges = record { active = 2; total = 2 };
  };
}

abbrev app : BuildRequest
app = record { task_id = "b1"; target_platform = platform_android; config = flutter_config }

-- The build failed, and left something behind.
abbrev broken_app : BuildResponse
broken_app = record {
  status = status_failed;
  artifacts = 9 ∷ [];
  artifact_list = [];
  exit_code = pos 1;
  stdout = "";
  stderr = "no space left";
  build_time_ms = pos 40;
  from_cache = false;
}

abbrev no_errors : String → Option String
no_errors address = none

abbrev call : String → BuildRequest → Reply BuildResponse
call address req = replies broken_app

erin_is_chosen : Placement.select_worker flutter 120 platform_android studio ≡ some erin
unfolding Placement.select_worker first_worker worker_supports supports offers among platform_eq
    is_healthy is_unhealthy list
erin_is_chosen = refl

abbrev built : Server
built = (handle_build no_errors call flutter "key" clock app studio).1

handle_build-handle_build_example :
    let (again, after_hit) = handle_build no_errors call flutter "key" clock app built in
    (again ≡ record {
      status = status_completed;
      artifacts = broken_app.artifacts;
      artifact_list = broken_app.artifact_list;
      exit_code = pos 0;
      stdout = broken_app.stdout;
      stderr = broken_app.stderr;
      build_time_ms = broken_app.build_time_ms;
      from_cache = true;
    })
    × (after_hit.counters ≡ record built.counters {
      cache_hits = up built.counters.cache_hits;
      total_tasks = up built.counters.total_tasks;
      success_tasks = up built.counters.success_tasks;
    })
    × (after_hit.registry ≡ built.registry)
    × ((k : Kind) (j : String)
        → (same_kind flutter k && str_eq "key" j) ≡ false
        → get_cache k j built ≡ get_cache k j studio)
unfolding get_cache builds_of no_builds lookup
handle_build-handle_build_example =
    handle_build-handle_build no_errors call flutter "key" clock app studio erin broken_app clock
      app refl erin_is_chosen refl refl refl

abbrev decimal : ℕ → String
decimal n = "7"

abbrev greeting : HandshakeRequest
greeting = record { capabilities = some linux_caps; auth_token = "secret"; worker_address = "" }

handshake_lem_example :
    let out = handshake decimal 5 120 greeting studio in
    ((greeting.capabilities ≡ none) × (out ≡ (invalid_argument "capabilities required", studio)))
    ⊎ ((caps : WorkerCapabilities) × (some linux_caps ≡ some caps)
        × (str_eq "secret" "" ≡ false)
        × (str_eq "secret" "secret" ≡ false)
        × (out ≡ (
          answers (record {
            accepted = false;
            message = "invalid auth token";
            assigned_worker_id = "";
            heartbeat_interval_seconds = pos 0;
          }),
          studio,
        )))
    ⊎ ((caps : WorkerCapabilities) × (some linux_caps ≡ some caps)
        × ((str_eq "secret" "" ≡ true) ⊎ (str_eq "secret" "secret" ≡ true))
        × Accepted decimal 5 120 greeting studio caps out)
handshake_lem_example = handshake_lem decimal 5 120 greeting studio
