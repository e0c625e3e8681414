-- ===== src/Registry/Table.antt =====
-- `InMemoryRegistry` of internal/coordinator/registry/registry.go. Each method holds the mutex for
-- its whole body, so a method is one step on the table. A reading of the clock is the argument `now`
-- (one reading for the two that `Add` makes). The two gauges that `updateWorkerMetrics` sets are part
-- of the state. The pointers in the Go map are not shared with a caller: `Get` and the lists clone,
-- and the coordinator does not touch the `WorkerInfo` that it handed to `Add`.
use hybridgrid.Prelude.{
  ℕ, String, Bool, true, false, ◌&&◌, ◌||◌, Option, none, some, List, [], if◌then◌else◌, keep,
  length,
}
use hybridgrid.Prelude.Int.{
  ℤ, pos, pos_part, ◌+ℤ◌, ◌-ℤ◌, ◌*ℤ◌, sub_ℕ, ltb_ℤ, leb_ℤ, quot_ℤ, wrap32, wrap64, is_zero,
}
use hybridgrid.Prelude.Maps.{lookup, insert, erase, values, map_values}
use hybridgrid.Registry.Types.{
  Architecture, BuildType, WorkerState, idle, busy, unhealthy, is_idle, is_busy, is_unhealthy,
  WorkerInfo, not_found, Result, ok, err,
}
use hybridgrid.Registry.Capability.{matches_capability}

pub record Gauges : Type 0 where
  pub active : ℕ
  pub total : ℕ

pub record InMemoryRegistry : Type 0 where
  pub workers : List (String × WorkerInfo)
  pub ttl : ℤ
  pub stopped : Bool
  pub gauges : Gauges

-- `time.Since(t)` at the reading `now`
abbrev pub since : ℕ → ℕ → ℤ
since now t = sub_ℕ now t

unfoldable pub is_healthy : WorkerInfo → ℕ → ℤ → Bool
unfolding is_unhealthy
is_healthy w now ttl =
    if is_unhealthy w.state then false else leb_ℤ (since now w.last_heartbeat) ttl

unfoldable pub new_in_memory_registry : ℤ → InMemoryRegistry
new_in_memory_registry ttl = record {
  workers = [];
  ttl = ttl;
  stopped = false;
  gauges = record { active = 0; total = 0 };
}

unfoldable pub is_active : WorkerInfo → Bool
unfolding is_idle is_busy
is_active w = is_idle w.state || is_busy w.state

unfoldable pub update_worker_metrics : InMemoryRegistry → InMemoryRegistry
unfolding is_active
update_worker_metrics r = record r {
  gauges = record { active = length (keep is_active (values r.workers)); total = length r.workers };
}

-- An unhealthy worker that is heard of again is idle.
unfoldable pub revive : WorkerState → WorkerState
unfolding is_unhealthy
revive s = if is_unhealthy s then idle else s

-- `Add` on a known ID: what the new registration says replaces the old.
unfoldable pub refresh : ℕ → WorkerInfo → WorkerInfo → WorkerInfo
unfolding revive
refresh now worker existing = record existing {
  capabilities = worker.capabilities;
  address = worker.address;
  max_parallel = worker.max_parallel;
  last_heartbeat = now;
  state = revive existing.state;
}

-- `Add` on a new ID.
unfoldable pub enrol : ℕ → WorkerInfo → WorkerInfo
enrol now worker = record worker { registered_at = now; last_heartbeat = now; state = idle }

unfoldable pub add : ℕ → WorkerInfo → InMemoryRegistry → Result InMemoryRegistry
unfolding refresh enrol update_worker_metrics
add now worker r = elim (lookup worker.id r.workers) [
  | some existing ↦
      ok (record r { workers = insert worker.id (refresh now worker existing) r.workers })
  | none ↦
      ok (
        update_worker_metrics
          (record r { workers = insert worker.id (enrol now worker) r.workers }))
]

unfoldable pub remove : String → InMemoryRegistry → Result InMemoryRegistry
unfolding update_worker_metrics
remove id r = elim (lookup id r.workers) [
  | none ↦ err (not_found id)
  | some _ ↦ ok (update_worker_metrics (record r { workers = erase id r.workers }))
]

unfoldable pub get : String → InMemoryRegistry → Option WorkerInfo
get id r = lookup id r.workers

unfoldable pub list : InMemoryRegistry → List WorkerInfo
list r = values r.workers

unfoldable pub list_by_capability :
    ℕ → BuildType → Architecture → InMemoryRegistry → List WorkerInfo
unfolding is_healthy matches_capability
list_by_capability now build_type arch r =
    keep (λ w. is_healthy w now r.ttl && matches_capability w.capabilities build_type arch)
      (values r.workers)

-- The methods that change one worker, or fail when it is not there.
unfoldable pub on_worker :
    String → (WorkerInfo → WorkerInfo) → InMemoryRegistry → Result InMemoryRegistry
on_worker id f r = elim (lookup id r.workers) [
  | none ↦ err (not_found id)
  | some worker ↦ ok (record r { workers = insert id (f worker) r.workers })
]

unfoldable pub set_state : WorkerState → WorkerInfo → WorkerInfo
set_state s w = record w { state = s }

unfoldable pub update_state : String → WorkerState → InMemoryRegistry → Result InMemoryRegistry
unfolding on_worker set_state
update_state id s r = on_worker id (set_state s) r

unfoldable pub beat : ℕ → WorkerInfo → WorkerInfo
unfolding revive
beat now w = record w { last_heartbeat = now; state = revive w.state }

unfoldable pub update_heartbeat : ℕ → String → InMemoryRegistry → Result InMemoryRegistry
unfolding on_worker beat
update_heartbeat now id r = on_worker id (beat now) r

unfoldable pub book : WorkerInfo → WorkerInfo
unfolding is_idle
book w = record w {
  active_tasks = wrap32 (w.active_tasks +ℤ pos 1);
  total_tasks = wrap64 (w.total_tasks +ℤ pos 1);
  state = if is_idle w.state then busy else w.state;
}

unfoldable pub increment_tasks : String → InMemoryRegistry → Result InMemoryRegistry
unfolding on_worker book
increment_tasks id r = on_worker id book r

-- The four steps of `DecrementTasks`, in order.
unfoldable pub release : WorkerInfo → WorkerInfo
release w =
    if ltb_ℤ (pos 0) w.active_tasks
    then record w { active_tasks = wrap32 (w.active_tasks -ℤ pos 1) }
    else w

unfoldable pub tally : Bool → WorkerInfo → WorkerInfo
tally success w =
    if success
    then record w { successful_tasks = wrap64 (w.successful_tasks +ℤ pos 1) }
    else record w { failed_tasks = wrap64 (w.failed_tasks +ℤ pos 1) }

unfoldable pub average : ℤ → WorkerInfo → WorkerInfo
average compile_time w =
    let n = w.successful_tasks in
    let total = wrap64 (w.avg_compile_time *ℤ wrap64 (n -ℤ pos 1)) in
    if ltb_ℤ (pos 0) n
    then record w { avg_compile_time = quot_ℤ (wrap64 (total +ℤ compile_time)) (pos_part n) }
    else w

unfoldable pub settle : WorkerInfo → WorkerInfo
unfolding is_busy
settle w = if is_zero w.active_tasks && is_busy w.state then record w { state = idle } else w

unfoldable pub finish : Bool → ℤ → WorkerInfo → WorkerInfo
finish success compile_time w = settle (average compile_time (tally success (release w)))

unfoldable pub decrement_tasks : String → Bool → ℤ → InMemoryRegistry → Result InMemoryRegistry
unfolding on_worker finish
decrement_tasks id success compile_time r = on_worker id (finish success compile_time) r

unfoldable pub count : InMemoryRegistry → ℕ
count r = length r.workers

-- The body of the loop in `cleanupStaleWorkers`.
unfoldable pub mark_stale : ℕ → ℤ → WorkerInfo → WorkerInfo
mark_stale now ttl w =
    if ltb_ℤ ttl (since now w.last_heartbeat) then record w { state = unhealthy } else w

unfoldable pub cleanup_stale_workers : ℕ → InMemoryRegistry → InMemoryRegistry
unfolding mark_stale
cleanup_stale_workers now r = record r { workers = map_values (mark_stale now r.ttl) r.workers }

-- One round of `cleanupLoop`: a tick of the clock, until the stop channel is closed.
unfoldable pub cleanup_loop_round : ℕ → InMemoryRegistry → InMemoryRegistry
unfolding cleanup_stale_workers
cleanup_loop_round now r = if r.stopped then r else cleanup_stale_workers now r

-- `close(r.stopCh)`: a second call panics, which is `none`.
unfoldable pub stop : InMemoryRegistry → Option InMemoryRegistry
stop r = if r.stopped then none else some (record r { stopped = true })
