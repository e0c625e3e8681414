-- ===== src/Scheduler/Simple.antt =====
-- `SimpleScheduler` of internal/coordinator/scheduler/scheduler.go: round robin over a counter.
pub mod Laws
use hybridgrid.Prelude.{
  ℕ, ◌+◌, ◌%◌, String, Bool, ◌&&◌, none, some, List, if◌then◌else◌, keep, is_empty, length,
  get_elem?, ltb, ◌-◌, ◌*◌, ◌==◌,
}
use hybridgrid.Prelude.Int.{half64}
use hybridgrid.Registry.Types.{Architecture, BuildType, WorkerInfo, is_idle}
use hybridgrid.Scheduler.Eligible.{
  RegistryView, Selection, selected, fails, panics, no_matching_workers, ◌>>=◌, matching_workers,
  has_room, admits_relaxed,
}

-- Idle workers with room, or else any that is not unhealthy and has room.
unfoldable pub is_available : WorkerInfo → Bool
unfolding is_idle
is_available w = has_room w && is_idle w.state

unfoldable pub available_workers : List WorkerInfo → List WorkerInfo
available_workers workers =
    let free = keep is_available workers in
    if is_empty free then keep admits_relaxed workers else free

-- `available[int(idx)%len(available)]`; from 2^63 on `int(idx)` is negative, and so is the remainder,
-- unless it is 0.
unfoldable pub pick : ℕ → List WorkerInfo → Selection WorkerInfo
pick idx available =
    let rest = (2 * half64 - idx) % length available in
    elim (if ltb idx half64
      then get_elem? available (idx % length available)
      else if rest == 0
      then get_elem? available 0
      else none) [ some w ↦ selected w | none ↦ panics ]

-- The workers among which `Select` goes round.
unfoldable pub offered :
    RegistryView → BuildType → Architecture → String → Selection (List WorkerInfo)
unfolding available_workers
offered reg build_type arch client_os = do
  workers ← matching_workers reg build_type arch client_os
  let available = available_workers workers
  if is_empty available then fails no_matching_workers else selected available

-- The end of `Select`: only a selection moves the counter.
unfoldable pub round_robin : ℕ → Selection (List WorkerInfo) → ℕ × Selection WorkerInfo
unfolding pick
round_robin counter (fails e) = (counter, fails e)
round_robin counter panics = (counter, panics)
round_robin counter (selected available) =
    let idx = (counter + 1) % (2 * half64) in (idx, pick idx available)

-- `Select`: the new counter and the result.
unfoldable pub select :
    RegistryView → BuildType → Architecture → String → ℕ → ℕ × Selection WorkerInfo
unfolding offered round_robin
select reg build_type arch client_os counter =
    round_robin counter (offered reg build_type arch client_os)
