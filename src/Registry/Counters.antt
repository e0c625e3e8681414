-- ===== src/Registry/Counters.antt =====
-- The counters of one worker: what `IncrementTasks`, `DecrementTasks`, `Add`, `UpdateHeartbeat` and
-- the clean-up do to them.
use hybridgrid.Prelude.{
  ℕ, ◌+◌, ◌-◌, ◌≤◌, ◌<◌, ◌≡◌, Bool, true, false, arith, if◌then◌else◌, leb, ◌&&◌,
}
use hybridgrid.Prelude.Int.{
  ℤ, pos, pos_part, neg_part, wrap32, wrap64, wrap-suc, wrap-pred, half32, half64,
}
use hybridgrid.Registry.Types.{
  WorkerState, idle, busy, unhealthy, is_busy, is_unhealthy, WorkerInfo,
}
use hybridgrid.Registry.Table.{
  revive, refresh, enrol, beat, book, release, tally, average, settle, finish, mark_stale,
  set_state,
}

-- After at most `n` calls: no counter is negative or above `n`, every booked task is running or
-- finished, and a busy worker has a task.
pub record Counted (n : ℕ) (w : WorkerInfo) : Type 0 where
  pub active_sign : neg_part w.active_tasks ≡ 0
  pub total_sign : neg_part w.total_tasks ≡ 0
  pub success_sign : neg_part w.successful_tasks ≡ 0
  pub failed_sign : neg_part w.failed_tasks ≡ 0
  pub active_max : pos_part w.active_tasks ≤ n
  pub total_max : pos_part w.total_tasks ≤ n
  pub finished_max : pos_part w.successful_tasks + pos_part w.failed_tasks ≤ n
  pub ledger :
      pos_part w.total_tasks
      ≤ pos_part w.active_tasks + pos_part w.successful_tasks + pos_part w.failed_tasks
  pub works : is_busy w.state ≡ true → 0 < pos_part w.active_tasks

-- A worker as `Handshake` makes it: no task was ever booked.
pub record IsFresh (w : WorkerInfo) : Type 0 where
  pub active : w.active_tasks ≡ pos 0
  pub total : w.total_tasks ≡ pos 0
  pub successful : w.successful_tasks ≡ pos 0
  pub failed : w.failed_tasks ≡ pos 0

pub Counted-mono : (n m : ℕ) {w : WorkerInfo} → n ≤ m → Counted n w → Counted m w
Counted-mono n m h c = record {
  active_sign = c.active_sign;
  total_sign = c.total_sign;
  success_sign = c.success_sign;
  failed_sign = c.failed_sign;
  active_max = omega (arith, c.active_max);
  total_max = omega (arith, c.total_max);
  finished_max = omega (arith, c.finished_max);
  ledger = c.ledger;
  works = c.works;
}

pub enrol-Counted : (n now : ℕ) (w : WorkerInfo) → IsFresh w → Counted n (enrol now w)
unfolding enrol is_busy
enrol-Counted n now w f = ground arith

-- What leaves the counters alone, and makes no worker busy, keeps `Counted`.
keep-state :
    (n : ℕ) (s : WorkerState) (w : WorkerInfo)
    → (is_busy s ≡ true → is_busy w.state ≡ true)
    → Counted n w
    → Counted n (record w { state = s })
keep-state n s w h c = record {
  active_sign = c.active_sign;
  total_sign = c.total_sign;
  success_sign = c.success_sign;
  failed_sign = c.failed_sign;
  active_max = c.active_max;
  total_max = c.total_max;
  finished_max = c.finished_max;
  ledger = c.ledger;
  works = λ b. c.works (h b);
}

revive-busy : (s : WorkerState) → is_busy (revive s) ≡ true → is_busy s ≡ true
unfolding revive is_busy is_unhealthy
revive-busy idle h = h
revive-busy busy h = h
revive-busy unhealthy h = h

stale-busy :
    (b : Bool) (s : WorkerState) → is_busy (if b then unhealthy else s) ≡ true → is_busy s ≡ true
unfolding is_busy
stale-busy true s h = cc
stale-busy false s h = h

pub set_state-Counted :
    (n : ℕ) (s : WorkerState) (w : WorkerInfo)
    → is_busy s ≡ false
    → Counted n w
    → Counted n (set_state s w)
unfolding set_state
set_state-Counted n s w h c = keep-state n s w (λ b. cc) c

pub beat-Counted : (n now : ℕ) (w : WorkerInfo) → Counted n w → Counted n (beat now w)
unfolding beat
beat-Counted n now w c = ground (arith, keep-state n (revive w.state) w (revive-busy w.state) c)

pub refresh-Counted : (n now : ℕ) (v w : WorkerInfo) → Counted n w → Counted n (refresh now v w)
unfolding refresh
refresh-Counted n now v w c =
    ground (arith, keep-state n (revive w.state) w (revive-busy w.state) c)

pub mark_stale-Counted :
    (n now : ℕ) (ttl : ℤ) (w : WorkerInfo) → Counted n w → Counted n (mark_stale now ttl w)
unfolding mark_stale is_busy
mark_stale-Counted n now ttl w c = ground arith

pub book-Counted :
    (n : ℕ) (w : WorkerInfo) → n + 1 < half32 → Counted n w → Counted (n + 1) (book w)
unfolding book wrap32 wrap64
book-Counted n w h c = ground (arith, wrap-suc half32 w.active_tasks, wrap-suc half64 w.total_tasks)

-- The steps of `DecrementTasks` inside the range of the counters.
release_lem :
    (w : WorkerInfo)
    → neg_part w.active_tasks ≡ 0
    → pos_part w.active_tasks < half32
    → release w ≡ record w { active_tasks = pos (pos_part w.active_tasks - 1) }
unfolding release wrap32
release_lem w h k = ground (arith, wrap-pred half32 w.active_tasks)

tally_lem :
    (success : Bool) (w : WorkerInfo)
    → neg_part w.successful_tasks ≡ 0
    → neg_part w.failed_tasks ≡ 0
    → pos_part w.successful_tasks + pos_part w.failed_tasks + 1 < half64
    → tally success w ≡ (
        if success
        then record w { successful_tasks = pos (pos_part w.successful_tasks + 1) }
        else record w { failed_tasks = pos (pos_part w.failed_tasks + 1) })
unfolding tally wrap64
tally_lem success w h k m =
    ground (arith, wrap-suc half64 w.successful_tasks, wrap-suc half64 w.failed_tasks)

average_lem :
    (t : ℤ) (w : WorkerInfo)
    → average t w ≡ record w { avg_compile_time = (average t w).avg_compile_time }
unfolding average
average_lem t w = ground arith

-- `DecrementTasks` without its arithmetic: one task less, one more in the ledger, and the worker is
-- idle when the last one is gone.
pub finish_lem :
    (n : ℕ) (success : Bool) (t : ℤ) (w : WorkerInfo)
    → n + 1 < half32
    → Counted n w
    → (average' : ℤ) × (finish success t w ≡ record w {
      active_tasks = pos (pos_part w.active_tasks - 1);
      successful_tasks =
          if success then pos (pos_part w.successful_tasks + 1) else w.successful_tasks;
      failed_tasks = if success then w.failed_tasks else pos (pos_part w.failed_tasks + 1);
      avg_compile_time = average';
      state = if leb (pos_part w.active_tasks) 1 && is_busy w.state then idle else w.state;
    })
unfolding finish settle
finish_lem n success t w h c =
    let w₁ : WorkerInfo = record w { active_tasks = pos (pos_part w.active_tasks - 1) } in
    let w₂ : WorkerInfo = tally success w₁ in
    (
      (average t w₂).avg_compile_time,
      rw (release_lem w c.active_sign (omega (arith, c.active_max)), average_lem t w₂)
          (ground (arith, tally_lem success w₁)),
    )

pub finish-Counted :
    (n : ℕ) (success : Bool) (t : ℤ) (w : WorkerInfo)
    → n + 1 < half32
    → Counted n w
    → Counted (n + 1) (finish success t w)
unfolding is_busy
finish-Counted n success t w h c = let (m, e) = finish_lem n success t w h c in rw e (ground arith)
