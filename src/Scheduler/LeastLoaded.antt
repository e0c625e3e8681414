-- ===== src/Scheduler/LeastLoaded.antt =====
-- `LeastLoadedScheduler` of internal/coordinator/scheduler/scheduler.go.
pub mod Laws
use hybridgrid.Prelude.{String, Bool, true, Option, none, some, List, [], ◌∷◌, if◌then◌else◌}
use hybridgrid.Prelude.Int.{ltb_ℤ}
use hybridgrid.Registry.Types.{Architecture, BuildType, WorkerInfo, is_unhealthy}
use hybridgrid.Scheduler.Eligible.{
  RegistryView, Selection, selected, fails, no_matching_workers, ◌>>=◌, matching_workers,
}

-- `best == nil || w.ActiveTasks < best.ActiveTasks`
unfoldable pub better : WorkerInfo → Option WorkerInfo → Bool
better w none = true
better w (some best) = ltb_ℤ w.active_tasks best.active_tasks

-- The loop over the workers, from the best one so far.
unfoldable pub least_loaded : Option WorkerInfo → List WorkerInfo → Option WorkerInfo
unfolding better
least_loaded best [] = best
least_loaded best (w ∷ workers) =
    least_loaded (if is_unhealthy w.state then best else if better w best then some w else best)
      workers

unfoldable pub or_no_match : Option WorkerInfo → Selection WorkerInfo
or_no_match none = fails no_matching_workers
or_no_match (some w) = selected w

unfoldable pub select : RegistryView → BuildType → Architecture → String → Selection WorkerInfo
unfolding least_loaded or_no_match
select reg build_type arch client_os = do
  workers ← matching_workers reg build_type arch client_os
  or_no_match (least_loaded none workers)
