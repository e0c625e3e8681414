-- ===== src/Registry/Invariant.antt =====
-- The table of workers under any sequence of calls of internal/coordinator/registry/registry.go.
use hybridgrid.Prelude.{
  ℕ, ◌+◌, ◌<◌, String, ◌≡◌, refl, sym, ◌∙◌, Bool, false, List, [], ◌∷◌, arith, Option-cases, inl,
  inr, length, All, if_both,
}
use hybridgrid.Prelude.Int.{ℤ, half32}
use hybridgrid.Prelude.Maps.{
  lookup, Distinct, insert-Distinct, erase-Distinct, map_values-Distinct, length-insert,
  length-map_values, Entries, Entries-insert, Entries-erase, Entries-lookup, Entries-mono,
  Entries-map_values,
}
use hybridgrid.Registry.Types.{WorkerState, is_busy, WorkerInfo, Result, ok, err}
use hybridgrid.Registry.Table.{
  InMemoryRegistry, new_in_memory_registry, update_worker_metrics, refresh, enrol, add, remove,
  on_worker, set_state, update_state, beat, update_heartbeat, book, increment_tasks, finish,
  release, tally, average, settle, decrement_tasks, mark_stale, cleanup_stale_workers,
  cleanup_loop_round,
}
use hybridgrid.Registry.Counters.{
  Counted, IsFresh, Counted-mono, enrol-Counted, set_state-Counted, beat-Counted, refresh-Counted,
  mark_stale-Counted, book-Counted, finish-Counted,
}

pub data Call : Type 0 where
  adds : ℕ → WorkerInfo → Call
  removes : String → Call
  sets_state : String → WorkerState → Call
  beats : ℕ → String → Call
  books : String → Call
  finishes : String → Bool → ℤ → Call
  cleans : ℕ → Call

-- A call that fails leaves the table as it was.
abbrev pub after : InMemoryRegistry → Result InMemoryRegistry → InMemoryRegistry
after r (ok s) = s
after r (err e) = r

unfoldable pub step : InMemoryRegistry → Call → InMemoryRegistry
step r (adds now w) = after r (add now w r)
step r (removes id) = after r (remove id r)
step r (sets_state id s) = after r (update_state id s r)
step r (beats now id) = after r (update_heartbeat now id r)
step r (books id) = after r (increment_tasks id r)
step r (finishes id success t) = after r (decrement_tasks id success t r)
step r (cleans now) = cleanup_loop_round now r

unfoldable pub run : InMemoryRegistry → List Call → InMemoryRegistry
run r [] = r
run r (c ∷ cs) = run (step r c) cs

-- What the coordinator hands over: a new worker has booked no task, and nobody sets "busy" by hand.
abbrev pub IsExpected : Call → Type 0
IsExpected (adds now w) = IsFresh w
IsExpected (sets_state id s) = is_busy s ≡ false
IsExpected _ = Unit

abbrev pub Good : ℕ → String → WorkerInfo → Type 0
Good n k w = (k ≡ w.id) × Counted n w

pub record IsValid (n : ℕ) (r : InMemoryRegistry) : Type 0 where
  pub distinct : Distinct r.workers
  pub entries : Entries (Good n) r.workers
  pub gauge : r.gauges.total ≡ length r.workers

pub later : (n : ℕ) (r : InMemoryRegistry) → IsValid n r → IsValid (n + 1) r
later n r v = record {
  distinct = v.distinct;
  entries =
      Entries-mono (Good n) (Good (n + 1)) r.workers
        (λ k w g. (g.0, Counted-mono n (n + 1) (omega arith) g.1)) v.entries;
  gauge = v.gauge;
}

-- A method that changes one worker.
on_worker-IsValid :
    (n : ℕ) (id : String) (f : WorkerInfo → WorkerInfo) (r : InMemoryRegistry)
    → ((w : WorkerInfo) → (f w).id ≡ w.id)
    → ((w : WorkerInfo) → Counted n w → Counted (n + 1) (f w))
    → IsValid n r
    → IsValid (n + 1) (after r (on_worker id f r))
unfolding on_worker
on_worker-IsValid n id f r same keeps v = elim (Option-cases (lookup id r.workers)) [
  | inl e ↦ rw (e, on_worker) (later n r v)
  | inr (w, e) ↦
      let good : Good n id w = Entries-lookup (Good n) id w r.workers v.entries e in
      rw (e, on_worker)
        (record {
          distinct = insert-Distinct id (f w) r.workers v.distinct;
          entries =
              Entries-insert (Good (n + 1)) id (f w) r.workers (later n r v).entries
                (good.0 ∙ sym (same w), keeps w good.1);
          gauge = ground (arith, v.gauge, length-insert id (f w) r.workers);
        })
]

remove-IsValid :
    (n : ℕ) (id : String) (r : InMemoryRegistry) → IsValid n r → IsValid n (after r (remove id r))
unfolding remove update_worker_metrics
remove-IsValid n id r v = elim (Option-cases (lookup id r.workers)) [
  | inl e ↦ rw (e, remove) v
  | inr (w, e) ↦
      rw (e, remove)
        (record {
          distinct = erase-Distinct id r.workers v.distinct;
          entries = Entries-erase (Good n) id r.workers v.entries;
          gauge = refl;
        })
]

enrol-id : (now : ℕ) (w : WorkerInfo) → w.id ≡ (enrol now w).id
unfolding enrol
enrol-id now w = refl

refresh-id : (now : ℕ) (v w : WorkerInfo) → w.id ≡ (refresh now v w).id
unfolding refresh
refresh-id now v w = refl

mark_stale-id : (now : ℕ) (ttl : ℤ) (w : WorkerInfo) → w.id ≡ (mark_stale now ttl w).id
unfolding mark_stale
mark_stale-id now ttl w = ground arith

finish-id : (success : Bool) (t : ℤ) (w : WorkerInfo) → (finish success t w).id ≡ w.id
unfolding finish release tally average settle
finish-id success t w = ground arith

add-IsValid :
    (n now : ℕ) (w : WorkerInfo) (r : InMemoryRegistry)
    → IsFresh w
    → IsValid n r
    → IsValid n (after r (add now w r))
unfolding add update_worker_metrics
add-IsValid n now w r fresh v = elim (Option-cases (lookup w.id r.workers)) [
  | inl e ↦
      rw (e, add)
        (record {
          distinct = insert-Distinct w.id (enrol now w) r.workers v.distinct;
          entries =
              Entries-insert (Good n) w.id (enrol now w) r.workers v.entries
                (enrol-id now w, enrol-Counted n now w fresh);
          gauge = refl;
        })
  | inr (x, e) ↦
      let good : Good n w.id x = Entries-lookup (Good n) w.id x r.workers v.entries e in
      rw (e, add)
        (record {
          distinct = insert-Distinct w.id (refresh now w x) r.workers v.distinct;
          entries =
              Entries-insert (Good n) w.id (refresh now w x) r.workers v.entries
                (good.0 ∙ refresh-id now w x, refresh-Counted n now w x good.1);
          gauge = ground (arith, v.gauge, length-insert w.id (refresh now w x) r.workers);
        })
]

cleanup-IsValid :
    (n now : ℕ) (r : InMemoryRegistry) → IsValid n r → IsValid n (cleanup_loop_round now r)
unfolding cleanup_loop_round cleanup_stale_workers
cleanup-IsValid n now r v =
    if_both (IsValid n) r.stopped r (cleanup_stale_workers now r) v (record {
      distinct = map_values-Distinct (mark_stale now r.ttl) r.workers v.distinct;
      entries =
          Entries-map_values (Good n) (Good n) (mark_stale now r.ttl) r.workers
            (λ k w g. (g.0 ∙ mark_stale-id now r.ttl w, mark_stale-Counted n now r.ttl w g.1))
            v.entries;
      gauge = ground (arith, v.gauge, length-map_values (mark_stale now r.ttl) r.workers);
    })

pub step-IsValid :
    (n : ℕ) (r : InMemoryRegistry) (c : Call)
    → n + 1 < half32
    → IsExpected c
    → IsValid n r
    → IsValid (n + 1) (step r c)
unfolding step update_state update_heartbeat increment_tasks decrement_tasks finish
step-IsValid n r (adds now w) h x v = later n _ (add-IsValid n now w r x v)
step-IsValid n r (removes id) h x v = later n _ (remove-IsValid n id r v)
step-IsValid n r (sets_state id s) h x v =
    on_worker-IsValid n id (set_state s) r (λ w. refl)
      (λ w c. Counted-mono n (n + 1) (omega arith) (set_state-Counted n s w x c)) v
step-IsValid n r (beats now id) h x v =
    on_worker-IsValid n id (beat now) r (λ w. refl)
      (λ w c. Counted-mono n (n + 1) (omega arith) (beat-Counted n now w c)) v
step-IsValid n r (books id) h x v =
    on_worker-IsValid n id book r (λ w. refl) (λ w c. book-Counted n w h c) v
step-IsValid n r (finishes id success t) h x v =
    on_worker-IsValid n id (finish success t) r (finish-id success t)
      (λ w c. finish-Counted n success t w h c) v
step-IsValid n r (cleans now) h x v = later n _ (cleanup-IsValid n now r v)

run-IsValid :
    (n : ℕ) (r : InMemoryRegistry) (cs : List Call)
    → n + length cs < half32
    → All IsExpected cs
    → IsValid n r
    → IsValid (n + length cs) (run r cs)
unfolding run
run-IsValid n r [] h x v = let e : n + 0 ≡ n = omega arith in rw e v
run-IsValid n r (c ∷ cs) h x v =
    let e : n + length (c ∷ cs) ≡ n + 1 + length cs = omega arith in
    rw e
      (run-IsValid (n + 1) (step r c) cs (omega arith) x.1 (step-IsValid n r c (omega arith) x.0 v))

pub new-IsValid : (ttl : ℤ) → IsValid 0 (new_in_memory_registry ttl)
unfolding new_in_memory_registry
new-IsValid ttl = record { distinct = tt; entries = tt; gauge = refl }

-- After any sequence of fewer than 2^31 calls on a new registry, in which new workers come with
-- counters at zero and no caller sets a worker to busy: no ID stands twice, each worker stands under
-- its own ID, no counter is negative or above the number of calls, each task that was booked is
-- running or counted as successful or failed, a busy worker has a running task, and the gauge of all
-- workers shows the size of the table.
pub run-new-IsValid :
    (ttl : ℤ) (cs : List Call)
    → length cs < half32
    → All IsExpected cs
    → IsValid (length cs) (run (new_in_memory_registry ttl) cs)
run-new-IsValid ttl cs h x =
    let e : 0 + length cs ≡ length cs = omega arith in
    rw e at (run-IsValid 0 (new_in_memory_registry ttl) cs (omega arith) x (new-IsValid ttl))
