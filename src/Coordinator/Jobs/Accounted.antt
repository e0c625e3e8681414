-- ===== src/Coordinator/Jobs/Accounted.antt =====
-- The counters of the server against the handlers that are in flight: what each part of a handler in
-- internal/coordinator/server/grpc.go does to that account.
use hybridgrid.Prelude.{
  ℕ, ◌+◌, ◌%◌, String, ◌≡◌, refl, Bool, true, false, Option, none, some, List, [], ◌∷◌, ◌++◌,
  get_elem?, arith, if◌then◌else◌, str_eq, eq_iff, Option-cases, inl, inr, Bool-cases,
}
use hybridgrid.Prelude.Int.{word}
use hybridgrid.Prelude.Maps.{lookup, insert, lookup-insert}
use hybridgrid.Registry.Types.{WorkerInfo}
use hybridgrid.Coordinator.Server.{
  Counters, up, down, enqueue, count_outcome, load_or_store, load_and_drop,
}
use hybridgrid.Coordinator.Build.{count_unplaced}
use hybridgrid.Coordinator.Jobs.Count.{
  Work, Job, waiting, chosen, running, closing, put, drop_at, tally, tally-put, tally-drop_at, one,
  is_active, is_running, is_active_on,
}

-- The counter of one worker: it is not there before the worker's first task.
abbrev pub Stands : Option ℕ → ℕ → Type 0
Stands none n = n ≡ 0
Stands (some k) n = k ≡ n % word

-- Every handler in flight counts as queued; one that has a worker counts as active, and as active on
-- that worker, until its deferred calls; and each task in the total has succeeded, has failed, or
-- is running. All counters are int64, so the equations hold modulo 2^64.
pub record Accounted (c : Counters) (m : List (String × ℕ)) (jobs : List Job) : Type 0 where
  pub queued : c.queued_tasks ≡ tally one jobs % word
  pub active : c.active_tasks ≡ tally is_active jobs % word
  pub total : c.total_tasks ≡ (c.success_tasks + c.failed_tasks + tally is_running jobs) % word
  pub by_worker : (id : String) → Stands (lookup id m) (tally (is_active_on id) jobs)

pub tally-snoc :
    (f : Job → ℕ) (j : Job) (jobs : List Job) → tally f (jobs ++ j ∷ []) ≡ tally f jobs + f j
unfolding tally
tally-snoc f j [] = omega arith
tally-snoc f j (x ∷ jobs) = omega (arith, tally-snoc f j jobs)

Stands-same : (o : Option ℕ) (n k : ℕ) → n ≡ k → Stands o n → Stands o k
Stands-same none n k e h = omega arith
Stands-same (some a) n k e h = rw (← e) h

-- A write under `id`, seen under `read`.
write-Stands :
    (id read : String) (m : List (String × ℕ)) (v k : ℕ)
    → (str_eq id read ≡ true → v ≡ k % word)
    → (str_eq id read ≡ false → Stands (lookup read m) k)
    → Stands (lookup read (insert id v m)) k
write-Stands id read m v k same other = elim (Bool-cases (str_eq id read)) [
  | inl e ↦ rw (lookup-insert id read v m, e) (same e)
  | inr e ↦ rw (lookup-insert id read v m, e) (other e)
]

load_or_store-Stands :
    (id read : String) (m : List (String × ℕ)) (n : ℕ)
    → Stands (lookup read m) n
    → Stands (lookup read (load_or_store id m)) (n + (if str_eq id read then 1 else 0))
unfolding load_or_store
load_or_store-Stands id read m n h = elim (Option-cases (lookup id m)) [
  | inl e ↦
      rw (e, load_or_store)
        (write-Stands id read m (up 0) _ (λ same. ground (arith, eq_iff id read))
          (λ other. rw (other) (Stands-same _ n _ (omega arith) h)))
  | inr (k, e) ↦
      rw (e, load_or_store)
        (write-Stands id read m (up k) _ (λ same. ground (arith, eq_iff id read))
          (λ other. rw (other) (Stands-same _ n _ (omega arith) h)))
]

load_and_drop-Stands :
    (id read : String) (m : List (String × ℕ)) (n : ℕ)
    → Stands (lookup read m) (n + (if str_eq id read then 1 else 0))
    → Stands (lookup read (load_and_drop id m)) n
unfolding load_and_drop
load_and_drop-Stands id read m n h = elim (Option-cases (lookup id m)) [
  | inl e ↦ rw (e, load_and_drop) (ground (arith, eq_iff id read))
  | inr (k, e) ↦
      rw (e, load_and_drop)
        (write-Stands id read m (down k) _ (λ same. ground (arith, eq_iff id read))
          (λ other. Stands-same _ (n + 0) n (omega arith) (rw (other) at h)))
]

module _ {c : Counters} {m : List (String × ℕ)} {jobs : List Job} (a : Accounted c m jobs) where
  pub enter_lem : (w : Work) → Accounted (enqueue c) m (jobs ++ waiting w ∷ [])
  unfolding enqueue one is_active is_running is_active_on
  enter_lem w = record {
    queued = omega (arith, a.queued, tally-snoc one (waiting w) jobs);
    active = omega (arith, a.active, tally-snoc is_active (waiting w) jobs);
    total = omega (arith, a.total, tally-snoc is_running (waiting w) jobs);
    by_worker = λ id.
        Stands-same _ _ _ (omega (arith, tally-snoc (is_active_on id) (waiting w) jobs))
          (a.by_worker id);
  }

  module _ (i : ℕ) (w : Work) (here : get_elem? jobs i ≡ some (waiting w)) where
    pub choose_lem : (x : WorkerInfo) → Accounted c m (put i (chosen w x) jobs)
    unfolding one is_active is_running is_active_on
    choose_lem x = record {
      queued = omega (arith, a.queued, tally-put one i (waiting w) (chosen w x) jobs here);
      active = omega (arith, a.active, tally-put is_active i (waiting w) (chosen w x) jobs here);
      total = omega (arith, a.total, tally-put is_running i (waiting w) (chosen w x) jobs here);
      by_worker = λ id.
          Stands-same _ _ _
            (omega (arith, tally-put (is_active_on id) i (waiting w) (chosen w x) jobs here))
            (a.by_worker id);
    }

    pub quit_lem : Accounted (record c { queued_tasks = down c.queued_tasks }) m (drop_at i jobs)
    unfolding one is_active is_running is_active_on
    quit_lem = record {
      queued = omega (arith, a.queued, tally-drop_at one i (waiting w) jobs here);
      active = omega (arith, a.active, tally-drop_at is_active i (waiting w) jobs here);
      total = omega (arith, a.total, tally-drop_at is_running i (waiting w) jobs here);
      by_worker = λ id.
          Stands-same _ _ _ (omega (arith, tally-drop_at (is_active_on id) i (waiting w) jobs here))
            (a.by_worker id);
    }

  module _ (i : ℕ) (w : Work) (x : WorkerInfo) (here : get_elem? jobs i ≡ some (chosen w x)) where
    pub begin_lem :
        Accounted
          (record c { active_tasks = up c.active_tasks; total_tasks = up c.total_tasks })
          (load_or_store x.id m)
          (put i (running w x) jobs)
    unfolding one is_active is_running is_active_on
    begin_lem = record {
      queued = omega (arith, a.queued, tally-put one i (chosen w x) (running w x) jobs here);
      active = omega (arith, a.active, tally-put is_active i (chosen w x) (running w x) jobs here);
      total = omega (arith, a.total, tally-put is_running i (chosen w x) (running w x) jobs here);
      by_worker = λ id.
          Stands-same _ _ _
            (omega (arith, tally-put (is_active_on id) i (chosen w x) (running w x) jobs here))
            (load_or_store-Stands x.id id m _ (a.by_worker id));
    }

    pub quit_chosen_lem :
        Accounted (record c { queued_tasks = down c.queued_tasks }) m (drop_at i jobs)
    unfolding one is_active is_running is_active_on
    quit_chosen_lem = record {
      queued = omega (arith, a.queued, tally-drop_at one i (chosen w x) jobs here);
      active = omega (arith, a.active, tally-drop_at is_active i (chosen w x) jobs here);
      total = omega (arith, a.total, tally-drop_at is_running i (chosen w x) jobs here);
      by_worker = λ id.
          Stands-same _ _ _
            (omega (arith, tally-drop_at (is_active_on id) i (chosen w x) jobs here))
            (a.by_worker id);
    }

  module _ (i : ℕ) (w : Work) (x : WorkerInfo) (here : get_elem? jobs i ≡ some (running w x)) where
    outcome_lem :
        (c' : Counters)
        → c'.queued_tasks ≡ c.queued_tasks
        → c'.active_tasks ≡ c.active_tasks
        → c'.total_tasks ≡ c.total_tasks
        → (c'.success_tasks + c'.failed_tasks) % word
          ≡ (c.success_tasks + c.failed_tasks + 1) % word
        → Accounted c' m (put i (closing x.id) jobs)
    unfolding one is_active is_running is_active_on
    outcome_lem c' q b t more = record {
      queued = omega (arith, a.queued, tally-put one i (running w x) (closing x.id) jobs here);
      active =
          omega (arith, a.active, tally-put is_active i (running w x) (closing x.id) jobs here);
      total = omega (arith, a.total, tally-put is_running i (running w x) (closing x.id) jobs here);
      by_worker = λ id.
          Stands-same _ _ _
            (omega (arith, tally-put (is_active_on id) i (running w x) (closing x.id) jobs here))
            (a.by_worker id);
    }

    pub close_lem :
        (success : Bool) → Accounted (count_outcome success c) m (put i (closing x.id) jobs)
    unfolding count_outcome
    close_lem true = outcome_lem _ refl refl refl (omega arith)
    close_lem false = outcome_lem _ refl refl refl (omega arith)

  pub leave_lem :
      (i : ℕ) (id : String)
      → get_elem? jobs i ≡ some (closing id)
      → Accounted
          (record c { active_tasks = down c.active_tasks; queued_tasks = down c.queued_tasks })
          (load_and_drop id m)
          (drop_at i jobs)
  unfolding one is_active is_running is_active_on
  leave_lem i id here = record {
    queued = omega (arith, a.queued, tally-drop_at one i (closing id) jobs here);
    active = omega (arith, a.active, tally-drop_at is_active i (closing id) jobs here);
    total = omega (arith, a.total, tally-drop_at is_running i (closing id) jobs here);
    by_worker = λ j. load_and_drop-Stands id j m _ (
        Stands-same _ _ _ (omega (arith, tally-drop_at (is_active_on j) i (closing id) jobs here))
          (a.by_worker j));
  }

  pub unplaced_lem : Accounted (count_unplaced c) m jobs
  unfolding count_unplaced
  unplaced_lem = record {
    queued = a.queued;
    active = a.active;
    total = omega (arith, a.total);
    by_worker = a.by_worker;
  }

  pub hit_lem :
      Accounted
        (record c {
          cache_hits = up c.cache_hits;
          total_tasks = up c.total_tasks;
          success_tasks = up c.success_tasks;
        })
        m
        jobs
  hit_lem = record {
    queued = a.queued;
    active = a.active;
    total = omega (arith, a.total);
    by_worker = a.by_worker;
  }

  pub hits_lem : (n : ℕ) → Accounted (record c { cache_hits = n }) m jobs
  hits_lem n = record {
    queued = a.queued;
    active = a.active;
    total = a.total;
    by_worker = a.by_worker;
  }
