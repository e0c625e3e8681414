-- ===== src/Coordinator/Jobs/Orderly.antt =====
-- Each worker's count of active tasks in the registry is right at every moment of every interleaving of
-- the handlers of internal/coordinator/server/grpc.go.
use hybridgrid.Prelude.{
  ℕ, ◌+◌, ◌<◌, String, ◌≡◌, refl, sym, subst, Option, none, some, List, [], ◌∷◌, length, get_elem?,
  arith, str_eq, Option-cases, inl, inr, All, if_both,
}
use hybridgrid.Prelude.Int.{half32}
use hybridgrid.Prelude.Maps.{lookup}
use hybridgrid.Prelude.Float.{Float}
use hybridgrid.Registry.Types.{WorkerInfo}
use hybridgrid.Registry.Table.{new_in_memory_registry, InMemoryRegistry, get}
use hybridgrid.Registry.Invariant
use hybridgrid.Registry.Invariant.{
  Call, books, finishes, IsValid, IsExpected, Good, step-IsValid, later, new-IsValid,
}
use hybridgrid.Scheduler.Eligible.{Selection, selected, fails, panics}
use hybridgrid.Scheduler.Interface.{Scheduler}
use hybridgrid.Coordinator.Messages.{
  CompileRequest, CompileResponse, BuildRequest, BuildResponse, Reply, replies, breaks,
}
use hybridgrid.Coordinator.Server.{
  Server, Builds, Config, Kind, flutter, unity, set_builds, set_cache, notify, new, get_cache,
  leave_queue, leave_worker,
}
use hybridgrid.Coordinator.Tasks.{Clock, start_task, finish_task}
use hybridgrid.Coordinator.Compile.{compile_report, compile_enter}
use hybridgrid.Coordinator.Dispatch.{select_worker_lem}
use hybridgrid.Coordinator.Build.{
  answer_hit, count_hit, count_miss, count_build, give_up, build_report, remember,
}
use hybridgrid.Coordinator.Queries.{report_cache_hit}
use hybridgrid.Coordinator.Jobs.Count.{
  compiles, builds, Job, waiting, chosen, running, closing, put, tally,
}
use hybridgrid.Coordinator.Jobs.Load.{IsQuiet}
use hybridgrid.Coordinator.Jobs.Parts.{
  Event, compile_arrives, build_arrives, picks, starts, connects, compile_returns, build_returns,
  leaves, registry_call, hits_reported, System, leave_early, place_compile, place_build, pick,
  start, connect, compile_return, build_return, leave, step, run,
}
use hybridgrid.Coordinator.Jobs.Booked.{
  Booked, select_build_worker, enter-Booked, stay-Booked, quit-Booked, unreached-Booked,
  choose-Booked, leave-Booked, quiet-Booked, start-Booked, finish-Booked,
}

-- What may happen: workers are added with all counters at zero, and no call of the registry sets a
-- worker to busy, removes one, or books or finishes a task outside a handler.
abbrev pub IsOrderly : Event → Type 0
IsOrderly (registry_call c) = IsQuiet c
IsOrderly _ = Unit

set_builds-registry :
    (kind : Kind) (b : Builds) (s : Server) → (set_builds kind b s).registry ≡ s.registry
unfolding set_builds
set_builds-registry flutter b s = refl
set_builds-registry unity b s = refl

remember-registry :
    (kind : Kind) (key : String) (reply : Reply BuildResponse) (s : Server)
    → (remember kind key reply s).registry ≡ s.registry
unfolding remember set_cache
remember-registry kind key (breaks text) s = refl
remember-registry kind key (replies resp) s =
    if_both (λ s'. Server.registry s' ≡ s.registry) _ s (set_cache kind key resp s) refl
      (set_builds-registry kind _ s)

module _ (F : Float) (log1p : F.Carrier → F.Carrier) (S : Scheduler F.Carrier) where
  abbrev pub IsBooked : ℕ → System F log1p S → Type 0
  IsBooked n y = Booked n y.server.registry y.jobs

  module _ (n : ℕ) (y : System F log1p S) (b : IsBooked n y) (h : n + 1 < half32) where
    moved :
        {r : InMemoryRegistry} {r' : InMemoryRegistry} {jobs : List Job}
        → r' ≡ r
        → Booked (n + 1) r jobs
        → Booked (n + 1) r' jobs
    moved {r} {r'} {jobs} e c = subst (λ x. Booked (n + 1) x jobs) (sym e) c

    place_compile-IsBooked :
        (i : ℕ) (req : CompileRequest) (choice : Selection WorkerInfo) (sched : S.State)
        → get_elem? y.jobs i ≡ some (waiting (compiles req))
        → ((w : WorkerInfo) → choice ≡ selected w → get w.id y.server.registry ≡ some w)
        → IsBooked (n + 1) (place_compile F log1p S i req choice sched y)
    unfolding place_compile leave_early leave_queue
    place_compile-IsBooked i req (selected w) sched here known =
        choose-Booked n _ _ b i (compiles req) w w here (known w refl)
    place_compile-IsBooked i req (fails e) sched here known =
        quit-Booked n _ _ b i (compiles req) here
    place_compile-IsBooked i req panics sched here known = stay-Booked n _ _ b

    place_build-IsBooked :
        (i : ℕ) (t : Clock) (kind : Kind) (key : String) (req : BuildRequest)
        (choice : Option WorkerInfo)
        → get_elem? y.jobs i ≡ some (waiting (builds kind key req))
        → ((w : WorkerInfo) → choice ≡ some w → get w.id y.server.registry ≡ some w)
        → IsBooked (n + 1) (place_build F log1p S i t kind key req choice y)
    unfolding place_build leave_early leave_queue give_up notify
    place_build-IsBooked i t kind key req none here known =
        quit-Booked n _ _ b i (builds kind key req) here
    place_build-IsBooked i t kind key req (some w) here known =
        choose-Booked n _ _ b i (builds kind key req) w w here (known w refl)

    pick-IsBooked :
        (i : ℕ) (t : Clock) (o : Option Job)
        → get_elem? y.jobs i ≡ o
        → IsBooked (n + 1) (pick F log1p S i t o y)
    unfolding pick
    pick-IsBooked i t (some (waiting (compiles req))) here =
        place_compile-IsBooked i req _ _ here
          (λ w e. (select_worker_lem F log1p S t req y.sched n y.server w b.valid e).0)
    pick-IsBooked i t (some (waiting (builds kind key req))) here =
        place_build-IsBooked i t kind key req _ here (λ w e.
          (select_build_worker n kind t.selecting req.target_platform y.server w b.valid e).0)
    pick-IsBooked i t (some (chosen work w)) here = stay-Booked n _ _ b
    pick-IsBooked i t (some (running work w)) here = stay-Booked n _ _ b
    pick-IsBooked i t (some (closing id)) here = stay-Booked n _ _ b
    pick-IsBooked i t none here = stay-Booked n _ _ b

    start-IsBooked :
        (i : ℕ) (t : Clock) (o : Option Job)
        → get_elem? y.jobs i ≡ o
        → IsBooked (n + 1) (start F log1p S i t o y)
    unfolding start start_task notify Invariant.step
    start-IsBooked i t (some (chosen (compiles req) w)) here =
        start-Booked n _ _ b i (compiles req) w h here
    start-IsBooked i t (some (chosen (builds kind key req) w)) here = stay-Booked n _ _ b
    start-IsBooked i t (some (waiting work)) here = stay-Booked n _ _ b
    start-IsBooked i t (some (running work w)) here = stay-Booked n _ _ b
    start-IsBooked i t (some (closing id)) here = stay-Booked n _ _ b
    start-IsBooked i t none here = stay-Booked n _ _ b

    connect-IsBooked :
        (i : ℕ) (t : Clock) (answer : Option String) (o : Option Job)
        → get_elem? y.jobs i ≡ o
        → IsBooked (n + 1) (connect F log1p S i t answer o y)
    unfolding connect leave_early leave_queue start_task notify Invariant.step count_build
        set_builds
    connect-IsBooked i t (some text) (some (chosen (builds kind key req) w)) here =
        unreached-Booked n _ _ b i (builds kind key req) w here
    connect-IsBooked i t none (some (chosen (builds kind key req) w)) here =
        subst
          (λ r.
            Booked (n + 1) (Invariant.step r (books w.id))
              (put i (running (builds kind key req) w) y.jobs))
          (sym (set_builds-registry kind _ y.server))
          (start-Booked n _ _ b i (builds kind key req) w h here)
    connect-IsBooked i t answer (some (chosen (compiles req) w)) here = stay-Booked n _ _ b
    connect-IsBooked i t answer (some (waiting work)) here = stay-Booked n _ _ b
    connect-IsBooked i t answer (some (running work w)) here = stay-Booked n _ _ b
    connect-IsBooked i t answer (some (closing id)) here = stay-Booked n _ _ b
    connect-IsBooked i t answer none here = stay-Booked n _ _ b

    compile_return-IsBooked :
        (i : ℕ) (t : Clock) (reply : Reply CompileResponse) (o : Option Job)
        → get_elem? y.jobs i ≡ o
        → IsBooked (n + 1) (compile_return F log1p S i t reply o y)
    unfolding compile_return finish_task notify Invariant.step
    compile_return-IsBooked i t reply (some (running (compiles req) w)) here =
        finish-Booked n _ _ b i (compiles req) w (compile_report reply).success
          (compile_report reply).compile_time h here
    compile_return-IsBooked i t reply (some (running (builds kind key req) w)) here =
        stay-Booked n _ _ b
    compile_return-IsBooked i t reply (some (waiting work)) here = stay-Booked n _ _ b
    compile_return-IsBooked i t reply (some (chosen work w)) here = stay-Booked n _ _ b
    compile_return-IsBooked i t reply (some (closing id)) here = stay-Booked n _ _ b
    compile_return-IsBooked i t reply none here = stay-Booked n _ _ b

    build_return-IsBooked :
        (i : ℕ) (t : Clock) (reply : Reply BuildResponse) (o : Option Job)
        → get_elem? y.jobs i ≡ o
        → IsBooked (n + 1) (build_return F log1p S i t reply o y)
    unfolding build_return finish_task notify Invariant.step
    build_return-IsBooked i t reply (some (running (builds kind key req) w)) here =
        moved (remember-registry kind key reply _) (
          finish-Booked n _ _ b i (builds kind key req) w (build_report reply).success
            (build_report reply).compile_time h here)
    build_return-IsBooked i t reply (some (running (compiles req) w)) here = stay-Booked n _ _ b
    build_return-IsBooked i t reply (some (waiting work)) here = stay-Booked n _ _ b
    build_return-IsBooked i t reply (some (chosen work w)) here = stay-Booked n _ _ b
    build_return-IsBooked i t reply (some (closing id)) here = stay-Booked n _ _ b
    build_return-IsBooked i t reply none here = stay-Booked n _ _ b

    leave-IsBooked :
        (i : ℕ) (o : Option Job) → get_elem? y.jobs i ≡ o → IsBooked (n + 1) (leave F log1p S i o y)
    unfolding leave leave_queue leave_worker
    leave-IsBooked i (some (closing id)) here = leave-Booked n _ _ b i id here
    leave-IsBooked i (some (waiting work)) here = stay-Booked n _ _ b
    leave-IsBooked i (some (chosen work w)) here = stay-Booked n _ _ b
    leave-IsBooked i (some (running work w)) here = stay-Booked n _ _ b
    leave-IsBooked i none here = stay-Booked n _ _ b

    step-IsBooked : (e : Event) → IsOrderly e → IsBooked (n + 1) (step F log1p S y e)
    unfolding step compile_enter count_miss answer_hit count_hit notify report_cache_hit
    step-IsBooked (compile_arrives req) q =
        if_both (IsBooked (n + 1)) (str_eq req.task_id "") y _ (stay-Booked n _ _ b)
          (enter-Booked n _ _ b (compiles req))
    step-IsBooked (build_arrives t kind key req) q =
        elim (Option-cases (get_cache kind key y.server)) [
          | inl e ↦
              rw (e, step)
                (moved (set_builds-registry kind _ _) (enter-Booked n _ _ b (builds kind key req)))
          | inr (entry, e) ↦
              rw (e, step) (moved (set_builds-registry kind _ _) (stay-Booked n _ _ b))
        ]
    step-IsBooked (picks i t) q = pick-IsBooked i t _ refl
    step-IsBooked (starts i t) q = start-IsBooked i t _ refl
    step-IsBooked (connects i t answer) q = connect-IsBooked i t answer _ refl
    step-IsBooked (compile_returns i t reply) q = compile_return-IsBooked i t reply _ refl
    step-IsBooked (build_returns i t reply) q = build_return-IsBooked i t reply _ refl
    step-IsBooked (leaves i) q = leave-IsBooked i _ refl
    step-IsBooked (registry_call c) q = quiet-Booked n _ _ b c h q
    step-IsBooked (hits_reported hits) q =
        if_both (λ s. Booked (n + 1) (Server.registry s) y.jobs) _ _ y.server (stay-Booked n _ _ b)
          (stay-Booked n _ _ b)

  run-IsBooked :
      (n : ℕ) (es : List Event) (y : System F log1p S)
      → n + length es < half32
      → All IsOrderly es
      → IsBooked n y
      → IsBooked (n + length es) (run F log1p S y es)
  unfolding run
  run-IsBooked n [] y h q b = let e : n + 0 ≡ n = omega arith in rw e b
  run-IsBooked n (e ∷ es) y h q b =
      let same : n + length (e ∷ es) ≡ n + 1 + length es = omega arith in
      rw same
        (run-IsBooked (n + 1) es _ (omega arith) q.1 (step-IsBooked n y b (omega arith) e q.0))

  -- From a new server, after any interleaving of fewer than 2^31 events in which workers are added with
  -- all counters at zero, no caller sets a worker to busy, and nobody removes a worker or books and
  -- finishes tasks outside the handlers: the registry is valid, the active tasks that it
  -- holds for a registered worker are exactly the handlers that call this worker, and no handler calls a worker, or has chosen one that it
  -- has yet to book, that is not registered.
  pub run-new-Booked :
      (cfg : Config) (sched : S.State) (es : List Event)
      → length es < half32
      → All IsOrderly es
      → IsBooked
          (length es)
          (run F log1p S (record { server = new cfg; sched = sched; jobs = [] }) es)
  unfolding new tally lookup get new_in_memory_registry
  run-new-Booked cfg sched es h q =
      let start : Booked 0 (new cfg).registry [] = record {
        valid = new-IsValid cfg.heartbeat_ttl;
        load = λ id. refl;
        known = λ id. refl;
      } in
      let e : 0 + length es ≡ length es = omega arith in
      rw e at (
        run-IsBooked 0 es (record { server = new cfg; sched = sched; jobs = [] }) (omega arith) q
          start)
