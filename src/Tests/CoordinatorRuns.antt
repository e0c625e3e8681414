-- ===== src/Tests/CoordinatorRuns.antt =====
-- Requests to a coordinator with the workers of the sample.
use hybridgrid.Prelude.{
  ◌||◌, String, str_eq, ◌≡◌, refl, true, false, Option, none, some, List, [], ◌∷◌, arith, All, keep,
}
use hybridgrid.Prelude.Int.{pos}
use hybridgrid.Prelude.Float.Fixed.{fixed}
use hybridgrid.Registry.Types.{idle, arch_x86_64, build_type_cpp, WorkerInfo}
use hybridgrid.Registry.Table.{get}
use hybridgrid.Scheduler.Eligible.{selected, fails}
use hybridgrid.Scheduler.Interface.{Scheduler}
use hybridgrid.Scheduler.Instances.{least_loaded}
use hybridgrid.Coordinator.Messages.{
  CompileRequest, CompileResponse, status_completed, Reply, replies,
}
use hybridgrid.Coordinator.Server.{Server, default_config, new, no_tasks, no_builds}
use hybridgrid.Coordinator.Tasks.{Clock}
use hybridgrid.Coordinator.Compile.{select_worker}
use hybridgrid.Registry.Capability.{matches_capability, arch_matches, build_matches, has_cpp}
use hybridgrid.Registry.Types.{arch_eq, is_unhealthy}
use hybridgrid.Registry.Table.{is_healthy, list_by_capability, count, new_in_memory_registry}
use hybridgrid.Registry.Invariant.{adds}
use hybridgrid.Scheduler.Eligible.{no_workers, matching_workers, filter_by_os, runs_on, view}
use hybridgrid.Scheduler.LeastLoaded
use hybridgrid.Coordinator.Compile.{client_os_filter}
use hybridgrid.Coordinator.Dispatch.{select_worker_lem}
use hybridgrid.Coordinator.Jobs.Parts.{
  Event, registry_call, compile_arrives, picks, starts, compile_returns, System, run,
}
use hybridgrid.Coordinator.Jobs.Balance.{Balanced}
use hybridgrid.Coordinator.Jobs.Steps.{run-new}
use hybridgrid.Coordinator.Jobs.Booked.{Booked}
use hybridgrid.Coordinator.Jobs.Orderly.{IsOrderly, run-new-Booked}
use hybridgrid.Tests.Sample.{worker, bob, office}
use hybridgrid.Tests.RegistryRuns.{office-IsValid}

abbrev pub clock : Clock
clock = record { begun = 120; selecting = 120; booked = 125; calling = 126; returned = 2000000126 }

abbrev pub request : CompileRequest
request = record {
  task_id = "t1";
  preprocessed_source = 1 ∷ 2 ∷ [];
  raw_source = [];
  target_arch = arch_x86_64;
  client_os = "linux";
}

abbrev pub office_server : Server
office_server = record {
  config = record {
    auth_token = "secret";
    heartbeat_ttl = pos 30;
    request_timeout = pos 120000000000;
  };
  registry = office;
  counters = no_tasks;
  flutter = no_builds;
  unity = no_builds;
  active_tasks_by_worker = [];
  notifier = some [];
}

abbrev pub default_scheduler : Scheduler fixed.Carrier
default_scheduler = least_loaded fixed.Carrier

abbrev pub no_log : fixed.Carrier → fixed.Carrier
no_log x = x

abbrev compiled : CompileResponse
compiled = record {
  status = status_completed;
  object_file = 7 ∷ [];
  exit_code = pos 0;
  stdout = "";
  stderr = "";
  compilation_time_ms = pos 1500;
  queue_time_ms = pos 0;
  worker_id = "bob";
  from_cache = false;
}

abbrev pub forward : WorkerInfo → CompileRequest → Reply CompileResponse
forward w req = replies compiled

pub bob_is_chosen :
    (select_worker fixed no_log default_scheduler clock request tt office_server).0 ≡ selected bob
unfolding select_worker LeastLoaded.select LeastLoaded.least_loaded matching_workers filter_by_os
    runs_on view list_by_capability is_healthy matches_capability arch_matches build_matches has_cpp
    arch_eq is_unhealthy keep client_os_filter
bob_is_chosen = refl

abbrev pub empty_server : Server
empty_server = new default_config

pub nobody_is_chosen :
    (select_worker fixed no_log default_scheduler clock request tt empty_server).0
    ≡ fails no_workers
unfolding select_worker LeastLoaded.select matching_workers view list_by_capability count new
    new_in_memory_registry keep
nobody_is_chosen = refl

select_worker_lem_example :
    (get "bob" office ≡ some bob)
    × (is_healthy bob 120 (pos 30) ≡ true)
    × (matches_capability bob.capabilities build_type_cpp arch_x86_64 ≡ true)
    × ((str_eq "linux" "" || runs_on "linux" bob.capabilities) ≡ true)
select_worker_lem_example =
    select_worker_lem fixed no_log default_scheduler clock request tt 2 office_server bob
      office-IsValid bob_is_chosen

-- A day at the coordinator: a worker registers, two compilations arrive, one gets the worker and
-- comes back.
abbrev dora : WorkerInfo
dora = worker "dora" idle 0

abbrev no_errors : String → Option String
no_errors address = none

abbrev events : List Event
events =
    registry_call (adds 110 dora)
    ∷ compile_arrives request
    ∷ compile_arrives request
    ∷ picks 0 clock
    ∷ starts 0 clock
    ∷ compile_returns 0 clock (replies compiled)
    ∷ picks 1 clock
    ∷ []

abbrev morning : System fixed no_log default_scheduler
morning = record { server = new default_config; sched = tt; jobs = [] }

abbrev noon : System fixed no_log default_scheduler
noon = run fixed no_log default_scheduler morning events

run-new_example : Balanced noon.server noon.jobs
run-new_example = run-new fixed no_log default_scheduler default_config tt events

events-AreOrderly : All IsOrderly events
events-AreOrderly = (
  record { active = refl; total = refl; successful = refl; failed = refl },
  (tt, (tt, (tt, (tt, (tt, (tt, tt)))))),
)

run-new-Booked_example : Booked 7 noon.server.registry noon.jobs
run-new-Booked_example =
    run-new-Booked fixed no_log default_scheduler default_config tt events (omega arith)
      events-AreOrderly
