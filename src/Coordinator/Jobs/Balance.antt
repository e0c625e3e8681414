-- ===== src/Coordinator/Jobs/Balance.antt =====
-- What the parts of the handlers of internal/coordinator/server/grpc.go do to the server keeps its
-- counters in account.
use hybridgrid.Prelude.{ℕ, String, ◌≡◌, some, List, [], ◌∷◌, ◌++◌, get_elem?, if_both}
use hybridgrid.Prelude.Int.{ℤ}
use hybridgrid.Registry.Types.{WorkerInfo}
use hybridgrid.Coordinator.Messages.{BuildRequest, BuildResponse, Reply, replies, breaks}
use hybridgrid.Coordinator.Server.{
  Server, CacheEntry, Builds, Kind, flutter, unity, notify, set_builds, set_cache, leave_worker,
  leave_queue,
}
use hybridgrid.Coordinator.Tasks.{Clock, Report, start_task, finish_task}
use hybridgrid.Coordinator.Build.{answer_hit, count_hit, count_miss, give_up, remember}
use hybridgrid.Coordinator.Queries.{report_cache_hit}
use hybridgrid.Coordinator.Jobs.Count.{Work, Job, waiting, chosen, running, closing, put, drop_at}
use hybridgrid.Coordinator.Jobs.Accounted.{
  Accounted, enter_lem, begin_lem, quit_lem, choose_lem, quit_chosen_lem, close_lem, leave_lem,
  unplaced_lem, hit_lem, hits_lem,
}

abbrev pub Balanced : Server → List Job → Type 0
Balanced s jobs = Accounted s.counters s.active_tasks_by_worker jobs

-- The fields for one kind of build are no part of the account.
pub set_builds_lem :
    (kind : Kind) (b : Builds) (s : Server) (jobs : List Job)
    → Balanced s jobs
    → Balanced (set_builds kind b s) jobs
unfolding set_builds
set_builds_lem flutter b s jobs a = a
set_builds_lem unity b s jobs a = a

pub remember-Balanced :
    (kind : Kind) (key : String) (reply : Reply BuildResponse) (s : Server) (jobs : List Job)
    → Balanced s jobs
    → Balanced (remember kind key reply s) jobs
unfolding remember set_cache
remember-Balanced kind key (breaks text) s jobs a = a
remember-Balanced kind key (replies resp) s jobs a =
    if_both (λ s'. Balanced s' jobs) _ s (set_cache kind key resp s) a
      (set_builds_lem kind _ s jobs a)

module _ (s : Server) (jobs : List Job) (a : Balanced s jobs) where
  pub miss-Balanced :
      (kind : Kind) (w : Work) → Balanced (count_miss kind s) (jobs ++ waiting w ∷ [])
  unfolding count_miss
  miss-Balanced kind w = set_builds_lem kind _ _ _ (enter_lem a w)

  pub hit-Balanced :
      (kind : Kind) (req : BuildRequest) (t : Clock) (entry : CacheEntry)
      → Balanced (answer_hit kind req t entry s) jobs
  unfolding answer_hit notify count_hit
  hit-Balanced kind req t entry = set_builds_lem kind _ _ _ (hit_lem a)

  pub early-Balanced :
      (i : ℕ) (w : Work)
      → get_elem? jobs i ≡ some (waiting w)
      → Balanced (leave_queue s) (drop_at i jobs)
  unfolding leave_queue
  early-Balanced i w here = quit_lem a i w here

  pub choose-Balanced :
      (i : ℕ) (w : Work) (x : WorkerInfo)
      → get_elem? jobs i ≡ some (waiting w)
      → Balanced s (put i (chosen w x) jobs)
  choose-Balanced i w x here = choose_lem a i w here x

  pub unreached-Balanced :
      (i : ℕ) (w : Work) (x : WorkerInfo)
      → get_elem? jobs i ≡ some (chosen w x)
      → Balanced (leave_queue s) (drop_at i jobs)
  unfolding leave_queue
  unreached-Balanced i w x here = quit_chosen_lem a i w x here

  pub give_up-Balanced :
      (kind : Kind) (req : BuildRequest) (t : Clock) → Balanced (give_up kind req t s) jobs
  unfolding give_up notify
  give_up-Balanced kind req t = unplaced_lem a

  pub start-Balanced :
      (i : ℕ) (w : Work) (x : WorkerInfo) (build_type id : String) (t : Clock)
      → get_elem? jobs i ≡ some (chosen w x)
      → Balanced (start_task build_type id x t s) (put i (running w x) jobs)
  unfolding start_task notify
  start-Balanced i w x build_type id t here = begin_lem a i w x here

  pub finish-Balanced :
      (i : ℕ) (w : Work) (x : WorkerInfo) (build_type id : String) (t : Clock) (r : Report)
      → get_elem? jobs i ≡ some (running w x)
      → Balanced (finish_task build_type id x t r s) (put i (closing x.id) jobs)
  unfolding finish_task notify
  finish-Balanced i w x build_type id t r here = close_lem a i w x here r.success

  pub leave-Balanced :
      (i : ℕ) (id : String)
      → get_elem? jobs i ≡ some (closing id)
      → Balanced (leave_queue (leave_worker id s)) (drop_at i jobs)
  unfolding leave_queue leave_worker
  leave-Balanced i id here = leave_lem a i id here

pub hits_reported-Balanced :
    (hits : ℤ) (s : Server) (jobs : List Job)
    → Balanced s jobs
    → Balanced (report_cache_hit hits s) jobs
unfolding report_cache_hit
hits_reported-Balanced hits s jobs a = if_both (λ s'. Balanced s' jobs) _ _ s (hits_lem a _) a
