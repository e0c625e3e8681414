-- ===== src/Registry/Tasks.antt =====
-- What the task calls of internal/coordinator/registry/registry.go do to one worker, and that they
-- leave the others alone.
use hybridgrid.Prelude.{
  ℕ, ◌+◌, ◌<◌, String, ◌≡◌, refl, Bool, false, none, some, arith, if◌then◌else◌, Option-cases, inl,
  inr, eq_iff,
}
use hybridgrid.Prelude.Int.{ℤ, pos, pos_part, half32, half64, wrap64, wrap32, wrap-suc}
use hybridgrid.Prelude.Maps.{lookup, lookup-insert, lookup-insert_self, lookup-erase}
use hybridgrid.Registry.Types.{
  WorkerState, idle, busy, unhealthy, is_idle, is_busy, is_unhealthy, WorkerInfo,
}
use hybridgrid.Registry.Table.{
  InMemoryRegistry, get, add, remove, on_worker, update_state, update_heartbeat, beat, refresh,
  enrol, revive, book, increment_tasks, finish, decrement_tasks, update_worker_metrics, set_state,
}
use hybridgrid.Registry.Counters.{Counted, book-Counted, finish_lem}
use hybridgrid.Registry.Invariant.{
  Call, adds, removes, sets_state, beats, books, finishes, cleans, step, after,
}

-- The worker that a call is about.
abbrev pub IsAbout : Call → String → Type 0
IsAbout (adds now w) id = w.id ≡ id
IsAbout (removes i) id = i ≡ id
IsAbout (sets_state i s) id = i ≡ id
IsAbout (beats now i) id = i ≡ id
IsAbout (books i) id = i ≡ id
IsAbout (finishes i success t) id = i ≡ id
IsAbout (cleans now) id = Unit

on_worker_frame :
    (id j : String) (f : WorkerInfo → WorkerInfo) (r : InMemoryRegistry)
    → ¬ (id ≡ j)
    → get j (after r (on_worker id f r)) ≡ get j r
unfolding on_worker get
on_worker_frame id j f r h = elim (Option-cases (lookup id r.workers)) [
  | inl e ↦ rw (e, on_worker)
  | inr (w, e) ↦ rw (e, on_worker) (ground (arith, eq_iff id j, lookup-insert id j (f w) r.workers))
]

add_frame :
    (now : ℕ) (w : WorkerInfo) (j : String) (r : InMemoryRegistry)
    → ¬ (w.id ≡ j)
    → get j (after r (add now w r)) ≡ get j r
unfolding add get update_worker_metrics
add_frame now w j r h = elim (Option-cases (lookup w.id r.workers)) [
  | inl e ↦
      rw (e, add) (ground (arith, eq_iff w.id j, lookup-insert w.id j (enrol now w) r.workers))
  | inr (x, e) ↦
      rw (e, add) (ground (arith, eq_iff w.id j, lookup-insert w.id j (refresh now w x) r.workers))
]

remove_frame :
    (id j : String) (r : InMemoryRegistry) → ¬ (id ≡ j) → get j (after r (remove id r)) ≡ get j r
unfolding remove get update_worker_metrics
remove_frame id j r h = elim (Option-cases (lookup id r.workers)) [
  | inl e ↦ rw (e, remove)
  | inr (w, e) ↦ rw (e, remove) (ground (arith, eq_iff id j, lookup-erase id j r.workers))
]

-- A call that is about one worker leaves every other worker as it was.
pub get-step_other :
    (c : Call) (j : String) (r : InMemoryRegistry) → ¬ IsAbout c j → get j (step r c) ≡ get j r
unfolding step update_state update_heartbeat increment_tasks decrement_tasks
get-step_other (adds now w) j r h = add_frame now w j r h
get-step_other (removes id) j r h = remove_frame id j r h
get-step_other (sets_state id s) j r h = on_worker_frame id j (set_state s) r h
get-step_other (beats now id) j r h = on_worker_frame id j (beat now) r h
get-step_other (books id) j r h = on_worker_frame id j book r h
get-step_other (finishes id success t) j r h = on_worker_frame id j (finish success t) r h
get-step_other (cleans now) j r h = absurd (h tt)

revive-healthy : (s : WorkerState) → is_unhealthy (revive s) ≡ false
unfolding revive is_unhealthy
revive-healthy idle = refl
revive-healthy busy = refl
revive-healthy unhealthy = refl

-- After `Add` the worker is found under its ID, heard of now and not unhealthy, with the address, the
-- capabilities and the limit of the registration; a worker that was known keeps its counters, and a
-- new one has those that it came with.
pub get-add :
    (now : ℕ) (w : WorkerInfo) (r : InMemoryRegistry)
    → (x : WorkerInfo) × (get w.id (after r (add now w r)) ≡ some x)
      × (x.last_heartbeat ≡ now)
      × (is_unhealthy x.state ≡ false)
      × (x.address ≡ w.address)
      × (x.capabilities ≡ w.capabilities)
      × (x.max_parallel ≡ w.max_parallel)
      × (x.active_tasks ≡ elim (get w.id r) [ none ↦ w.active_tasks | some y ↦ y.active_tasks ])
      × (x.total_tasks ≡ elim (get w.id r) [ none ↦ w.total_tasks | some y ↦ y.total_tasks ])
unfolding add get update_worker_metrics refresh enrol revive is_unhealthy
get-add now w r = elim (Option-cases (lookup w.id r.workers)) [
  | inl e ↦
      rw (e, add)
        (
          enrol now w,
          lookup-insert_self w.id (enrol now w) r.workers,
          refl,
          refl,
          refl,
          refl,
          refl,
          refl,
          refl,
        )
  | inr (x, e) ↦
      rw (e, add)
        (
          refresh now w x,
          lookup-insert_self w.id (refresh now w x) r.workers,
          refl,
          revive-healthy x.state,
          refl,
          refl,
          refl,
          refl,
          refl,
        )
]

book_lem :
    (n : ℕ) (w : WorkerInfo)
    → n + 1 < half32
    → Counted n w
    → book w ≡ record w {
      active_tasks = pos (pos_part w.active_tasks + 1);
      total_tasks = pos (pos_part w.total_tasks + 1);
      state = if is_idle w.state then busy else w.state;
    }
unfolding book wrap32 wrap64
book_lem n w h c = ground (arith, wrap-suc half32 w.active_tasks, wrap-suc half64 w.total_tasks)

pub get-on_worker :
    (id : String) (f : WorkerInfo → WorkerInfo) (r : InMemoryRegistry) (w : WorkerInfo)
    → get id r ≡ some w
    → get id (after r (on_worker id f r)) ≡ some (f w)
unfolding get on_worker
get-on_worker id f r w h = rw (h, on_worker) (lookup-insert_self id (f w) r.workers)

finish-book :
    (n : ℕ) (success : Bool) (t : ℤ) (w : WorkerInfo)
    → n + 2 < half32
    → Counted n w
    → let x = finish success t (book w) in
      (x.active_tasks ≡ w.active_tasks)
      × (x.total_tasks ≡ pos (pos_part w.total_tasks + 1))
      × (x.successful_tasks
          ≡ (if success then pos (pos_part w.successful_tasks + 1) else w.successful_tasks))
      × (x.failed_tasks ≡ (if success then w.failed_tasks else pos (pos_part w.failed_tasks + 1)))
      × (is_unhealthy x.state ≡ is_unhealthy w.state)
      × (x.active_tasks ≡ pos 0 → is_busy x.state ≡ false)
unfolding is_idle is_busy is_unhealthy
finish-book n success t w h c =
    let (m, e) =
      finish_lem (n + 1) success t (book w) (omega arith) (book-Counted n w (omega arith) c) in
    rw (e, book_lem n w (omega arith) c) (ground arith)

-- A task that is booked on a worker and then finished leaves the number of running tasks as it was,
-- adds one to the total and one to the successful or to the failed tasks, and does not change whether
-- the worker is unhealthy; a worker that is left without a task is not busy. (The worker had fewer
-- than 2^31 - 2 calls before.)
pub get-decrement_tasks-increment_tasks :
    (n : ℕ) (id : String) (success : Bool) (t : ℤ) (r : InMemoryRegistry) (w : WorkerInfo)
    → n + 2 < half32
    → Counted n w
    → get id r ≡ some w
    → let booked = after r (increment_tasks id r) in
      (x : WorkerInfo) × (get id (after booked (decrement_tasks id success t booked)) ≡ some x)
      × (x.active_tasks ≡ w.active_tasks)
      × (x.total_tasks ≡ pos (pos_part w.total_tasks + 1))
      × (x.successful_tasks
          ≡ (if success then pos (pos_part w.successful_tasks + 1) else w.successful_tasks))
      × (x.failed_tasks ≡ (if success then w.failed_tasks else pos (pos_part w.failed_tasks + 1)))
      × (is_unhealthy x.state ≡ is_unhealthy w.state)
      × (x.active_tasks ≡ pos 0 → is_busy x.state ≡ false)
unfolding increment_tasks decrement_tasks
get-decrement_tasks-increment_tasks n id success t r w h c e =
    let booked = after r (on_worker id book r) in
    let found = get-on_worker id (finish success t) booked (book w) (get-on_worker id book r w e) in
    let (a, b, d, f, g, k) = finish-book n success t w h c in
    (finish success t (book w), found, a, b, d, f, g, k)
