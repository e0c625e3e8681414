-- ===== src/Coordinator/Jobs/Booked.antt =====
-- The registry's count of the tasks of each worker under every interleaving of the handlers of
-- internal/coordinator/server/grpc.go.
use hybridgrid.Prelude.{
  ℕ, ◌+◌, ◌<◌, ◌≤◌, String, ◌≡◌, refl, sym, subst, Bool, true, ◌&&◌, some, List, [], ◌∷◌, ◌++◌,
  get_elem?, arith, if◌then◌else◌, str_eq, Option-cases, Bool-cases, inl, inr, eq_iff, Memᴰ,
}
use hybridgrid.Prelude.Int.{ℤ, half32}
use hybridgrid.Prelude.Maps.{mem-lookup, Entries-lookup, lookup}
use hybridgrid.Registry.Types.{WorkerInfo, TargetPlatform}
use hybridgrid.Registry.Table.{InMemoryRegistry, get, list, is_healthy}
use hybridgrid.Registry.Invariant
use hybridgrid.Registry.Invariant.{
  Call, books, finishes, IsValid, IsExpected, Good, step-IsValid, later, new-IsValid,
}
use hybridgrid.Coordinator.Server.{Server, Kind}
use hybridgrid.Coordinator.Placement.{worker_supports, first_worker, select_worker}
use hybridgrid.Coordinator.Jobs.Count.{
  Work, Job, waiting, chosen, running, closing, put, drop_at, tally, tally-put, tally-drop_at,
  is_running_on, is_chosen_on,
}
use hybridgrid.Coordinator.Jobs.Accounted.{tally-snoc}
use hybridgrid.Coordinator.Jobs.Known.{Known, Known-less, step-Known}
use hybridgrid.Coordinator.Jobs.Load.{
  Carries, Carries-same, books-Carries, finishes-Carries, IsQuiet, IsQuiet-IsExpected,
  IsQuiet-KeepsWorkers, quiet-Carries,
}

-- The registry is valid, a worker's active tasks are the handlers that call it, and a worker that a
-- handler has chosen but not yet booked is registered.
pub record Booked (n : ℕ) (r : InMemoryRegistry) (jobs : List Job) : Type 0 where
  pub valid : IsValid n r
  pub load : (id : String) → Carries (get id r) (tally (is_running_on id) jobs)
  pub known : (id : String) → Known (get id r) (tally (is_chosen_on id) jobs)

first_worker_lem :
    (kind : Kind) (now : ℕ) (ttl : ℤ) (p : TargetPlatform) (ws : List WorkerInfo) (w : WorkerInfo)
    → first_worker kind now ttl p ws ≡ some w
    → Memᴰ w ws × (worker_supports kind w p ≡ true) × (is_healthy w now ttl ≡ true)
unfolding first_worker
first_worker_lem kind now ttl p [] w h = cc
first_worker_lem kind now ttl p (x ∷ ws) w h =
    elim (Bool-cases (worker_supports kind x p && is_healthy x now ttl)) [
      | inl good ↦
          let same : x ≡ w = ground arith in
          (
            Memᴰ.head (sym same),
            subst (λ y. worker_supports kind y p ≡ true) same (ground arith),
            subst (λ y. is_healthy y now ttl ≡ true) same (ground arith),
          )
      | inr bad ↦
          let (m, s, f) = first_worker_lem kind now ttl p ws w (ground arith) in (Memᴰ.tail m, s, f)
    ]

-- A worker that is selected for a Flutter or a Unity build is registered under its own ID, supports
-- the platform, and was heard of within the time to live.
pub select_build_worker :
    (n : ℕ) (kind : Kind) (now : ℕ) (p : TargetPlatform) (s : Server) (w : WorkerInfo)
    → IsValid n s.registry
    → select_worker kind now p s ≡ some w
    → (get w.id s.registry ≡ some w)
      × (worker_supports kind w p ≡ true)
      × (is_healthy w now s.config.heartbeat_ttl ≡ true)
unfolding select_worker list get
select_build_worker n kind now p s w v h =
    let (m, supported, healthy) = first_worker_lem kind now _ p _ w h in
    let (k, e) = mem-lookup w s.registry.workers v.distinct m in
    let good : Good n k w = Entries-lookup (Good n) k w s.registry.workers v.entries e in
    (subst (λ j. lookup j s.registry.workers ≡ some w) good.0 e, supported, healthy)

module _ (n : ℕ) (r : InMemoryRegistry) (jobs : List Job) (b : Booked n r jobs) where
  same_jobs :
      (jobs' : List Job)
      → ((id : String) → tally (is_running_on id) jobs ≡ tally (is_running_on id) jobs')
      → ((id : String) → tally (is_chosen_on id) jobs' ≤ tally (is_chosen_on id) jobs)
      → Booked (n + 1) r jobs'
  same_jobs jobs' same less = record {
    valid = later n r b.valid;
    load = λ id. Carries-same (get id r) _ _ (same id) (b.load id);
    known = λ id. Known-less (get id r) _ _ (less id) (b.known id);
  }

  pub enter-Booked : (w : Work) → Booked (n + 1) r (jobs ++ waiting w ∷ [])
  unfolding is_running_on is_chosen_on
  enter-Booked w =
      same_jobs _ (λ id. omega (arith, tally-snoc (is_running_on id) (waiting w) jobs))
        (λ id. omega (arith, tally-snoc (is_chosen_on id) (waiting w) jobs))

  pub stay-Booked : Booked (n + 1) r jobs
  stay-Booked = same_jobs jobs (λ id. refl) (λ id. omega arith)

  module _ (i : ℕ) (w : Work) where
    pub quit-Booked : get_elem? jobs i ≡ some (waiting w) → Booked (n + 1) r (drop_at i jobs)
    unfolding is_running_on is_chosen_on
    quit-Booked here =
        same_jobs _ (λ id. omega (arith, tally-drop_at (is_running_on id) i (waiting w) jobs here))
          (λ id. omega (arith, tally-drop_at (is_chosen_on id) i (waiting w) jobs here))

    pub unreached-Booked :
        (x : WorkerInfo) → get_elem? jobs i ≡ some (chosen w x) → Booked (n + 1) r (drop_at i jobs)
    unfolding is_running_on
    unreached-Booked x here =
        same_jobs _ (λ id. omega (arith, tally-drop_at (is_running_on id) i (chosen w x) jobs here))
          (λ id. omega (arith, tally-drop_at (is_chosen_on id) i (chosen w x) jobs here))

    pub choose-Booked :
        (x y : WorkerInfo)
        → get_elem? jobs i ≡ some (waiting w)
        → get x.id r ≡ some y
        → Booked (n + 1) r (put i (chosen w x) jobs)
    unfolding is_running_on is_chosen_on
    choose-Booked x y here found = record {
      valid = later n r b.valid;
      load = λ id.
          Carries-same (get id r) _ _
            (omega (arith, tally-put (is_running_on id) i (waiting w) (chosen w x) jobs here))
            (b.load id);
      known = λ id.
          let more = tally-put (is_chosen_on id) i (waiting w) (chosen w x) jobs here in
          elim (Bool-cases (str_eq x.id id)) [
            | inl same ↦
                let known : get id r ≡ some y =
                  subst (λ j. get j r ≡ some y) ((eq_iff x.id id).0 same) found in
                rw known tt
            | inr other ↦ Known-less (get id r) _ _ (ground (arith, more)) (b.known id)
          ];
    }

  pub leave-Booked :
      (i : ℕ) (id : String)
      → get_elem? jobs i ≡ some (closing id)
      → Booked (n + 1) r (drop_at i jobs)
  unfolding is_running_on is_chosen_on
  leave-Booked i id here =
      same_jobs _ (λ j. omega (arith, tally-drop_at (is_running_on j) i (closing id) jobs here))
        (λ j. omega (arith, tally-drop_at (is_chosen_on j) i (closing id) jobs here))

  pub quiet-Booked :
      (c : Call) → n + 1 < half32 → IsQuiet c → Booked (n + 1) (Invariant.step r c) jobs
  quiet-Booked c h q = record {
    valid = step-IsValid n r c h (IsQuiet-IsExpected c q) b.valid;
    load = λ id. quiet-Carries c id r _ q (b.load id);
    known = λ id. step-Known c id r _ (IsQuiet-KeepsWorkers c q) (b.known id);
  }

  -- A worker that was chosen is registered.
  chosen-registered :
      (i : ℕ) (w : Work) (x : WorkerInfo)
      → get_elem? jobs i ≡ some (chosen w x)
      → (y : WorkerInfo) × (get x.id r ≡ some y)
  unfolding is_chosen_on
  chosen-registered i w x here = elim (Option-cases (get x.id r)) [
    | inr found ↦ found
    | inl missing ↦
        let none_chose : tally (is_chosen_on x.id) jobs ≡ 0 = rw missing at (b.known x.id) in
        absurd (
          ground
            (arith, tally-drop_at (is_chosen_on x.id) i (chosen w x) jobs here, eq_iff x.id x.id))
  ]

  pub start-Booked :
      (i : ℕ) (w : Work) (x : WorkerInfo)
      → n + 1 < half32
      → get_elem? jobs i ≡ some (chosen w x)
      → Booked (n + 1) (Invariant.step r (books x.id)) (put i (running w x) jobs)
  unfolding is_running_on is_chosen_on
  start-Booked i w x h here =
      let (y, found) = chosen-registered i w x here in
      record {
        valid = step-IsValid n r (books x.id) h tt b.valid;
        load = λ j.
            Carries-same _ _ _
              (omega (arith, tally-put (is_running_on j) i (chosen w x) (running w x) jobs here))
              (books-Carries n r b.valid h x.id j _ y found (b.load j));
        known = λ j. step-Known (books x.id) j r _ tt (
            Known-less (get j r) _ _
              (omega (arith, tally-put (is_chosen_on j) i (chosen w x) (running w x) jobs here))
              (b.known j));
      }

  pub finish-Booked :
      (i : ℕ) (w : Work) (x : WorkerInfo) (success : Bool) (t : ℤ)
      → n + 1 < half32
      → get_elem? jobs i ≡ some (running w x)
      → Booked (n + 1) (Invariant.step r (finishes x.id success t)) (put i (closing x.id) jobs)
  unfolding is_running_on is_chosen_on
  finish-Booked i w x success t h here =
      let after = put i (closing x.id) jobs in
      let less : (j : String)
          → tally (is_running_on j) jobs
            ≡ tally (is_running_on j) after + (if str_eq x.id j then 1 else 0) =
        λ j. omega (arith, tally-put (is_running_on j) i (running w x) (closing x.id) jobs here) in
      record {
        valid = step-IsValid n r (finishes x.id success t) h tt b.valid;
        load = elim (Option-cases (get x.id r)) [
          | inl absent ↦
              let none_runs : tally (is_running_on x.id) jobs ≡ 0 = rw absent at (b.load x.id) in
              absurd (ground (arith, less x.id, eq_iff x.id x.id))
          | inr (y, found) ↦ λ j.
              finishes-Carries n r b.valid h x.id j (tally (is_running_on j) after) y found success
                t (Carries-same (get j r) _ _ (less j) (b.load j))
        ];
        known = λ j. step-Known (finishes x.id success t) j r _ tt (
            Known-less (get j r) _ _
              (omega (arith, tally-put (is_chosen_on j) i (running w x) (closing x.id) jobs here))
              (b.known j));
      }
