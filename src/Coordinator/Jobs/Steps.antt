-- ===== src/Coordinator/Jobs/Steps.antt =====
-- The account of the server's counters holds at every moment of every interleaving of the handlers
-- of internal/coordinator/server/grpc.go.
use hybridgrid.Prelude.{
  ℕ, String, ◌≡◌, refl, Option, none, some, List, [], ◌∷◌, get_elem?, str_eq, if_both, Option-cases,
  inl, inr,
}
use hybridgrid.Prelude.Maps.{lookup}
use hybridgrid.Prelude.Float.{Float}
use hybridgrid.Registry.Types.{WorkerInfo}
use hybridgrid.Scheduler.Eligible.{Selection, selected, fails, panics}
use hybridgrid.Scheduler.Interface.{Scheduler}
use hybridgrid.Coordinator.Messages.{
  CompileRequest, CompileResponse, BuildRequest, BuildResponse, Reply,
}
use hybridgrid.Coordinator.Server.{Config, Kind, new, no_tasks, get_cache, kind_name}
use hybridgrid.Coordinator.Compile.{compile_report, compile_enter}
use hybridgrid.Coordinator.Tasks.{Clock}
use hybridgrid.Coordinator.Build.{count_build, give_up, build_report}
use hybridgrid.Coordinator.Jobs.Count.{
  compiles, builds, Job, waiting, chosen, running, closing, tally,
}
use hybridgrid.Coordinator.Jobs.Accounted.{enter_lem}
use hybridgrid.Coordinator.Jobs.Parts.{
  Event, compile_arrives, build_arrives, picks, starts, connects, compile_returns, build_returns,
  leaves, registry_call, hits_reported, System, leave_early, place_compile, place_build, pick,
  start, connect, compile_return, build_return, leave, step, run,
}
use hybridgrid.Coordinator.Jobs.Balance.{
  Balanced, set_builds_lem, remember-Balanced, miss-Balanced, hit-Balanced, early-Balanced,
  choose-Balanced, unreached-Balanced, give_up-Balanced, start-Balanced, finish-Balanced,
  leave-Balanced, hits_reported-Balanced,
}

module _ (F : Float) (log1p : F.Carrier → F.Carrier) (S : Scheduler F.Carrier) where
  abbrev pub IsBalanced : System F log1p S → Type 0
  IsBalanced y = Balanced y.server y.jobs

  place_compile-IsBalanced :
      (i : ℕ) (req : CompileRequest) (choice : Selection WorkerInfo) (sched : S.State)
      (y : System F log1p S)
      → get_elem? y.jobs i ≡ some (waiting (compiles req))
      → IsBalanced y
      → IsBalanced (place_compile F log1p S i req choice sched y)
  unfolding place_compile leave_early
  place_compile-IsBalanced i req (selected w) sched y here a =
      choose-Balanced y.server y.jobs a i (compiles req) w here
  place_compile-IsBalanced i req (fails e) sched y here a =
      early-Balanced y.server y.jobs a i (compiles req) here
  place_compile-IsBalanced i req panics sched y here a = a

  place_build-IsBalanced :
      (i : ℕ) (t : Clock) (kind : Kind) (key : String) (req : BuildRequest)
      (choice : Option WorkerInfo) (y : System F log1p S)
      → get_elem? y.jobs i ≡ some (waiting (builds kind key req))
      → IsBalanced y
      → IsBalanced (place_build F log1p S i t kind key req choice y)
  unfolding place_build leave_early
  place_build-IsBalanced i t kind key req none y here a =
      early-Balanced (give_up kind req t y.server) y.jobs
        (give_up-Balanced y.server y.jobs a kind req t) i (builds kind key req) here
  place_build-IsBalanced i t kind key req (some w) y here a =
      choose-Balanced y.server y.jobs a i (builds kind key req) w here

  pick-IsBalanced :
      (i : ℕ) (t : Clock) (o : Option Job) (y : System F log1p S)
      → get_elem? y.jobs i ≡ o
      → IsBalanced y
      → IsBalanced (pick F log1p S i t o y)
  unfolding pick
  pick-IsBalanced i t (some (waiting (compiles req))) y here a =
      place_compile-IsBalanced i req _ _ y here a
  pick-IsBalanced i t (some (waiting (builds kind key req))) y here a =
      place_build-IsBalanced i t kind key req _ y here a
  pick-IsBalanced i t (some (chosen work w)) y here a = a
  pick-IsBalanced i t (some (running work w)) y here a = a
  pick-IsBalanced i t (some (closing id)) y here a = a
  pick-IsBalanced i t none y here a = a

  start-IsBalanced :
      (i : ℕ) (t : Clock) (o : Option Job) (y : System F log1p S)
      → get_elem? y.jobs i ≡ o
      → IsBalanced y
      → IsBalanced (start F log1p S i t o y)
  unfolding start
  start-IsBalanced i t (some (chosen (compiles req) w)) y here a =
      start-Balanced y.server y.jobs a i (compiles req) w "cpp" req.task_id t here
  start-IsBalanced i t (some (chosen (builds kind key req) w)) y here a = a
  start-IsBalanced i t (some (waiting work)) y here a = a
  start-IsBalanced i t (some (running work w)) y here a = a
  start-IsBalanced i t (some (closing id)) y here a = a
  start-IsBalanced i t none y here a = a

  connect-IsBalanced :
      (i : ℕ) (t : Clock) (answer : Option String) (o : Option Job) (y : System F log1p S)
      → get_elem? y.jobs i ≡ o
      → IsBalanced y
      → IsBalanced (connect F log1p S i t answer o y)
  unfolding connect leave_early count_build
  connect-IsBalanced i t (some text) (some (chosen (builds kind key req) w)) y here a =
      unreached-Balanced y.server y.jobs a i (builds kind key req) w here
  connect-IsBalanced i t none (some (chosen (builds kind key req) w)) y here a =
      start-Balanced (count_build kind y.server) y.jobs (set_builds_lem kind _ _ _ a) i
        (builds kind key req) w (kind_name kind) req.task_id t here
  connect-IsBalanced i t answer (some (chosen (compiles req) w)) y here a = a
  connect-IsBalanced i t answer (some (waiting work)) y here a = a
  connect-IsBalanced i t answer (some (running work w)) y here a = a
  connect-IsBalanced i t answer (some (closing id)) y here a = a
  connect-IsBalanced i t answer none y here a = a

  compile_return-IsBalanced :
      (i : ℕ) (t : Clock) (reply : Reply CompileResponse) (o : Option Job) (y : System F log1p S)
      → get_elem? y.jobs i ≡ o
      → IsBalanced y
      → IsBalanced (compile_return F log1p S i t reply o y)
  unfolding compile_return
  compile_return-IsBalanced i t reply (some (running (compiles req) w)) y here a =
      finish-Balanced y.server y.jobs a i (compiles req) w "cpp" req.task_id t
        (compile_report reply) here
  compile_return-IsBalanced i t reply (some (running (builds kind key req) w)) y here a = a
  compile_return-IsBalanced i t reply (some (waiting work)) y here a = a
  compile_return-IsBalanced i t reply (some (chosen work w)) y here a = a
  compile_return-IsBalanced i t reply (some (closing id)) y here a = a
  compile_return-IsBalanced i t reply none y here a = a

  build_return-IsBalanced :
      (i : ℕ) (t : Clock) (reply : Reply BuildResponse) (o : Option Job) (y : System F log1p S)
      → get_elem? y.jobs i ≡ o
      → IsBalanced y
      → IsBalanced (build_return F log1p S i t reply o y)
  unfolding build_return
  build_return-IsBalanced i t reply (some (running (builds kind key req) w)) y here a =
      remember-Balanced kind key reply _ _ (
        finish-Balanced y.server y.jobs a i (builds kind key req) w (kind_name kind) req.task_id t
          (build_report reply) here)
  build_return-IsBalanced i t reply (some (running (compiles req) w)) y here a = a
  build_return-IsBalanced i t reply (some (waiting work)) y here a = a
  build_return-IsBalanced i t reply (some (chosen work w)) y here a = a
  build_return-IsBalanced i t reply (some (closing id)) y here a = a
  build_return-IsBalanced i t reply none y here a = a

  leave-IsBalanced :
      (i : ℕ) (o : Option Job) (y : System F log1p S)
      → get_elem? y.jobs i ≡ o
      → IsBalanced y
      → IsBalanced (leave F log1p S i o y)
  unfolding leave
  leave-IsBalanced i (some (closing id)) y here a = leave-Balanced y.server y.jobs a i id here
  leave-IsBalanced i (some (waiting work)) y here a = a
  leave-IsBalanced i (some (chosen work w)) y here a = a
  leave-IsBalanced i (some (running work w)) y here a = a
  leave-IsBalanced i none y here a = a

  step-IsBalanced :
      (y : System F log1p S) (e : Event) → IsBalanced y → IsBalanced (step F log1p S y e)
  unfolding step compile_enter
  step-IsBalanced y (compile_arrives req) a =
      if_both IsBalanced (str_eq req.task_id "") y _ a (enter_lem a (compiles req))
  step-IsBalanced y (build_arrives t kind key req) a =
      elim (Option-cases (get_cache kind key y.server)) [
        | inl e ↦ rw (e, step) (miss-Balanced y.server y.jobs a kind (builds kind key req))
        | inr (entry, e) ↦ rw (e, step) (hit-Balanced y.server y.jobs a kind req t entry)
      ]
  step-IsBalanced y (picks i t) a = pick-IsBalanced i t _ y refl a
  step-IsBalanced y (starts i t) a = start-IsBalanced i t _ y refl a
  step-IsBalanced y (connects i t answer) a = connect-IsBalanced i t answer _ y refl a
  step-IsBalanced y (compile_returns i t reply) a = compile_return-IsBalanced i t reply _ y refl a
  step-IsBalanced y (build_returns i t reply) a = build_return-IsBalanced i t reply _ y refl a
  step-IsBalanced y (leaves i) a = leave-IsBalanced i _ y refl a
  step-IsBalanced y (registry_call c) a = a
  step-IsBalanced y (hits_reported hits) a = hits_reported-Balanced hits y.server y.jobs a

  pub run-IsBalanced :
      (es : List Event) (y : System F log1p S) → IsBalanced y → IsBalanced (run F log1p S y es)
  unfolding run
  run-IsBalanced [] y a = a
  run-IsBalanced (e ∷ es) y a = run-IsBalanced es _ (step-IsBalanced y e a)

  -- From a new server, after any interleaving of compilations, builds, calls of the registry and
  -- reports of hits: the queued tasks are the handlers in flight, the active tasks those that have a
  -- worker and whose deferred calls are to come, in all and on each worker (which has no counter
  -- before its first task), and the total is the successful, the failed and the running tasks. (All
  -- modulo 2^64, as int64 counters.)
  pub run-new :
      (cfg : Config) (sched : S.State) (es : List Event)
      → IsBalanced (run F log1p S (record { server = new cfg; sched = sched; jobs = [] }) es)
  unfolding new no_tasks tally lookup
  run-new cfg sched es =
      run-IsBalanced es _
        (record { queued = refl; active = refl; total = refl; by_worker = λ id. refl })
