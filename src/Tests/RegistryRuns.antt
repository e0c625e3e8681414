-- ===== src/Tests/RegistryRuns.antt =====
-- Runs of the registry.
use hybridgrid.Prelude.{
  String, ◌≡◌, refl, ◌↔◌, true, false, some, List, [], ◌∷◌, Memᴰ, arith, if◌then◌else◌,
}
use hybridgrid.Prelude.Int.{pos, ltb_ℤ}
use hybridgrid.Prelude.Maps.{lookup}
use hybridgrid.Registry.Types.{
  arch_x86_64, build_type_cpp, idle, busy, unhealthy, is_unhealthy, is_busy, WorkerInfo,
}
use hybridgrid.Registry.Capability.{matches_capability}
use hybridgrid.Registry.Table.{
  new_in_memory_registry, get, is_healthy, since, list_by_capability, increment_tasks,
  decrement_tasks, cleanup_stale_workers,
}
use hybridgrid.Registry.Counters.{Counted, IsFresh}
use hybridgrid.Registry.Invariant.{
  Call, adds, beats, books, finishes, cleans, after, run, IsValid, run-new-IsValid,
}
use hybridgrid.Registry.Listing.{list_by_capability-mem, get-cleanup_stale_workers}
use hybridgrid.Registry.Tasks.{get-decrement_tasks-increment_tasks}
use hybridgrid.Tests.Sample.{worker, alice, bob, office}

abbrev day : List Call
day =
    adds 10 (worker "bob" idle 0)
    ∷ adds 12 (worker "dan" idle 0)
    ∷ books "bob"
    ∷ finishes "bob" true (pos 5)
    ∷ beats 40 "dan"
    ∷ cleans 45
    ∷ []

worker-IsFresh : (id : String) → IsFresh (worker id idle 0)
worker-IsFresh id = record { active = refl; total = refl; successful = refl; failed = refl }

run-new-IsValid_example : IsValid 6 (run (new_in_memory_registry (pos 30)) day)
run-new-IsValid_example =
    run-new-IsValid (pos 30) day (omega arith)
      (worker-IsFresh "bob", (worker-IsFresh "dan", (tt, (tt, (tt, (tt, tt))))))

pub office-IsValid : IsValid 2 office
unfolding is_busy lookup
office-IsValid = record { distinct = ground arith; entries = ground arith; gauge = refl }

list_by_capability-mem_example :
    Memᴰ bob (list_by_capability 120 build_type_cpp arch_x86_64 office) ↔ (
      (get "bob" office ≡ some bob)
      × (is_healthy bob 120 (pos 30) ≡ true)
      × (matches_capability bob.capabilities build_type_cpp arch_x86_64 ≡ true))
list_by_capability-mem_example =
    list_by_capability-mem 2 120 build_type_cpp arch_x86_64 office bob office-IsValid

get-cleanup_stale_workers_example :
    get "alice" (cleanup_stale_workers 200 office)
    ≡ some (record alice { state = if ltb_ℤ (pos 30) (since 200 100) then unhealthy else busy })
unfolding get lookup
get-cleanup_stale_workers_example = get-cleanup_stale_workers 200 "alice" office alice refl

bob-Counted : Counted 0 bob
unfolding is_busy
bob-Counted = ground arith

get-decrement_tasks-increment_tasks_example :
    let booked = after office (increment_tasks "bob" office) in
    (x : WorkerInfo) × (get "bob" (after booked (decrement_tasks "bob" true (pos 7) booked))
      ≡ some x)
    × (x.active_tasks ≡ pos 0)
    × (x.total_tasks ≡ pos 1)
    × (x.successful_tasks ≡ pos 1)
    × (x.failed_tasks ≡ pos 0)
    × (is_unhealthy x.state ≡ is_unhealthy idle)
    × (x.active_tasks ≡ pos 0 → is_busy x.state ≡ false)
unfolding get lookup
get-decrement_tasks-increment_tasks_example =
    get-decrement_tasks-increment_tasks 0 "bob" true (pos 7) office bob (omega arith) bob-Counted
      refl

abbrev dora : WorkerInfo
dora = record (worker "dora" busy 1) { successful_tasks = pos 3; avg_compile_time = pos 100 }
