-- ===== src/Coordinator/Jobs/Load.antt =====
-- The load that the registry keeps for a worker against the handlers that call it:
-- internal/coordinator/registry/registry.go under internal/coordinator/server/grpc.go.
use hybridgrid.Prelude.{
  ℕ, ◌+◌, ◌<◌, String, ◌≡◌, refl, subst, ◌∙◌, Bool, false, Option, none, some, arith, if◌then◌else◌,
  str_eq, eq_iff, Option-cases, Bool-cases, inl, inr, if_both,
}
use mathlib.Core.Option
use hybridgrid.Prelude.Int.{ℤ, pos, half32, wrap32, wrap-suc}
use hybridgrid.Prelude.Maps.{lookup, lookup-insert, lookup-map_values, Entries-lookup}
use hybridgrid.Registry.Types.{WorkerInfo, is_busy}
use hybridgrid.Registry.Table.{
  InMemoryRegistry, get, add, on_worker, book, finish, increment_tasks, decrement_tasks, beat,
  set_state, mark_stale, update_state, update_heartbeat, cleanup_loop_round, cleanup_stale_workers,
}
use hybridgrid.Registry.Counters.{Counted, IsFresh, finish_lem}
use hybridgrid.Registry.Tasks.{get-step_other, get-on_worker, get-add}
use hybridgrid.Coordinator.Jobs.Known.{KeepsWorkers}
use hybridgrid.Registry.Invariant
use hybridgrid.Registry.Invariant.{
  Call, adds, removes, sets_state, beats, books, finishes, cleans, after, IsValid, IsExpected, Good,
  step-IsValid,
}

-- The load of a worker that is not registered is nothing.
abbrev pub Carries : Option WorkerInfo → ℕ → Type 0
Carries none k = k ≡ 0
Carries (some w) k = w.active_tasks ≡ pos k

found-Counted :
    (n : ℕ) (id : String) (r : InMemoryRegistry) (w : WorkerInfo)
    → IsValid n r
    → get id r ≡ some w
    → Counted n w
unfolding get
found-Counted n id r w v e =
    let good : Good n id w = Entries-lookup (Good n) id w r.workers v.entries e in good.1

book-load :
    (n k : ℕ) (w : WorkerInfo)
    → n + 1 < half32
    → Counted n w
    → w.active_tasks ≡ pos k
    → (book w).active_tasks ≡ pos (k + 1)
unfolding book wrap32
book-load n k w h c e = ground (arith, wrap-suc half32 w.active_tasks, c.active_max)

finish-load :
    (n k : ℕ) (success : Bool) (t : ℤ) (w : WorkerInfo)
    → n + 1 < half32
    → Counted n w
    → w.active_tasks ≡ pos (k + 1)
    → (finish success t w).active_tasks ≡ pos k
finish-load n k success t w h c e =
    let (m, f) = finish_lem n success t w h c in rw f (ground (arith, e))

pub Carries-same : (o : Option WorkerInfo) (k m : ℕ) → k ≡ m → Carries o k → Carries o m
Carries-same none k m e c = omega arith
Carries-same (some w) k m e c = rw (← e) c

ne_of_test : (id j : String) → str_eq id j ≡ false → ¬ (id ≡ j)
ne_of_test id j e p = ground (arith, eq_iff id j)

-- What the calls of the handlers do to the load of each worker.
module _ (n : ℕ) (r : InMemoryRegistry) (v : IsValid n r) (h : n + 1 < half32) (id j : String)
    (k : ℕ) (w : WorkerInfo) (e : get id r ≡ some w) where
  books_self : Carries (get id r) k → Carries (get id (Invariant.step r (books id))) (k + 1)
  unfolding Invariant.step increment_tasks
  books_self c =
      rw (get-on_worker id book r w e) (book-load n k w h (found-Counted n id r w v e) (rw e at c))

  pub books-Carries :
      Carries (get j r) k
      → Carries (get j (Invariant.step r (books id))) (k + (if str_eq id j then 1 else 0))
  books-Carries c = elim (Bool-cases (str_eq id j)) [
    | inl same ↦ rw same (
        subst (λ i. Carries (get i r) k → Carries (get i (Invariant.step r (books id))) (k + 1))
          ((eq_iff id j).0 same) books_self c)
    | inr other ↦
        rw (other, get-step_other (books id) j r (ne_of_test id j other))
          (Carries-same (get j r) k (k + 0) (omega arith) c)
  ]

  module _ (success : Bool) (t : ℤ) where
    finishes_self :
        Carries (get id r) (k + 1) → Carries (get id (Invariant.step r (finishes id success t))) k
    unfolding Invariant.step decrement_tasks
    finishes_self c =
        rw (get-on_worker id (finish success t) r w e)
          (finish-load n k success t w h (found-Counted n id r w v e) (rw e at c))

    pub finishes-Carries :
        Carries (get j r) (k + (if str_eq id j then 1 else 0))
        → Carries (get j (Invariant.step r (finishes id success t))) k
    finishes-Carries c = elim (Bool-cases (str_eq id j)) [
      | inl same ↦
          subst
            (λ i.
              Carries (get i r) (k + 1)
              → Carries (get i (Invariant.step r (finishes id success t))) k)
            ((eq_iff id j).0 same) finishes_self (rw same at c)
      | inr other ↦
          rw (get-step_other (finishes id success t) j r (ne_of_test id j other))
            (Carries-same (get j r) (k + 0) k (omega arith) (rw other at c))
    ]

-- A call of the registry that is not made for a task: a new worker, a heartbeat, a state that is set,
-- a round of the clean-up. Nobody removes a worker.
abbrev pub IsQuiet : Call → Type 0
IsQuiet (adds now w) = IsFresh w
IsQuiet (sets_state id s) = is_busy s ≡ false
IsQuiet (beats now id) = Unit
IsQuiet (cleans now) = Unit
IsQuiet _ = ⊥

pub IsQuiet-KeepsWorkers : (c : Call) → IsQuiet c → KeepsWorkers c
IsQuiet-KeepsWorkers (adds now w) q = tt
IsQuiet-KeepsWorkers (sets_state id s) q = tt
IsQuiet-KeepsWorkers (beats now id) q = tt
IsQuiet-KeepsWorkers (cleans now) q = tt
IsQuiet-KeepsWorkers (removes id) q = absurd q
IsQuiet-KeepsWorkers (books id) q = absurd q
IsQuiet-KeepsWorkers (finishes id success t) q = absurd q

pub IsQuiet-IsExpected : (c : Call) → IsQuiet c → IsExpected c
IsQuiet-IsExpected (adds now w) q = q
IsQuiet-IsExpected (sets_state id s) q = q
IsQuiet-IsExpected (beats now id) q = tt
IsQuiet-IsExpected (cleans now) q = tt
IsQuiet-IsExpected (removes id) q = absurd q
IsQuiet-IsExpected (books id) q = absurd q
IsQuiet-IsExpected (finishes id success t) q = absurd q

-- A method that leaves the load of its worker alone.
on_worker-Carries :
    (id j : String) (f : WorkerInfo → WorkerInfo) (r : InMemoryRegistry) (k : ℕ)
    → ((w : WorkerInfo) → (f w).active_tasks ≡ w.active_tasks)
    → Carries (get j r) k
    → Carries (get j (after r (on_worker id f r))) k
unfolding on_worker get
on_worker-Carries id j f r k same c = elim (Option-cases (lookup id r.workers)) [
  | inl e ↦ rw (e, on_worker) c
  | inr (w, e) ↦
      rw (e, on_worker)
        (rw (lookup-insert id j (f w) r.workers) (elim (Bool-cases (str_eq id j)) [
          | inl here ↦
              let found : lookup j r.workers ≡ some w =
                subst (λ i. lookup i r.workers ≡ some w) ((eq_iff id j).0 here) e in
              rw here (same w ∙ (rw found at c))
          | inr other ↦ rw other c
        ]))
]

adds_self :
    (now : ℕ) (w : WorkerInfo) (r : InMemoryRegistry) (k : ℕ)
    → IsFresh w
    → Carries (get w.id r) k
    → Carries (get w.id (after r (add now w r))) k
adds_self now w r k fresh c =
    let (x, found, _, _, _, _, _, active, _) = get-add now w r in
    elim (Option-cases (get w.id r)) [
      | inl e ↦
          let zero_load : k ≡ 0 = rw e at c in
          rw (found, zero_load) ((rw e at active) ∙ fresh.active)
      | inr (y, e) ↦ rw found ((rw e at active) ∙ (rw e at c))
    ]

adds-Carries :
    (now : ℕ) (w : WorkerInfo) (j : String) (r : InMemoryRegistry) (k : ℕ)
    → IsFresh w
    → Carries (get j r) k
    → Carries (get j (after r (add now w r))) k
unfolding Invariant.step
adds-Carries now w j r k fresh c = elim (Bool-cases (str_eq w.id j)) [
  | inl same ↦
      subst (λ i. Carries (get i r) k → Carries (get i (after r (add now w r))) k)
        ((eq_iff w.id j).0 same) (adds_self now w r k fresh) c
  | inr other ↦ rw (get-step_other (adds now w) j r (ne_of_test w.id j other)) c
]

mark_stale-load :
    (now : ℕ) (ttl : ℤ) (w : WorkerInfo) → (mark_stale now ttl w).active_tasks ≡ w.active_tasks
unfolding mark_stale
mark_stale-load now ttl w = ground arith

cleans-Carries :
    (now : ℕ) (j : String) (r : InMemoryRegistry) (k : ℕ)
    → Carries (get j r) k
    → Carries (get j (cleanup_loop_round now r)) k
unfolding cleanup_loop_round cleanup_stale_workers get
cleans-Carries now j r k c =
    if_both (λ r'. Carries (get j r') k) r.stopped r (cleanup_stale_workers now r) c
      (rw (lookup-map_values (mark_stale now r.ttl) j r.workers) (kept (lookup j r.workers) c))
  where
    kept : (o : Option WorkerInfo) → Carries o k → Carries (Option.map (mark_stale now r.ttl) o) k
    kept none h = h
    kept (some w) h = mark_stale-load now r.ttl w ∙ h

-- A quiet call leaves the load of every worker alone.
pub quiet-Carries :
    (c : Call) (j : String) (r : InMemoryRegistry) (k : ℕ)
    → IsQuiet c
    → Carries (get j r) k
    → Carries (get j (Invariant.step r c)) k
unfolding Invariant.step update_state update_heartbeat set_state beat
quiet-Carries (adds now w) j r k q h = adds-Carries now w j r k q h
quiet-Carries (sets_state id s) j r k q h = on_worker-Carries id j (set_state s) r k (λ w. refl) h
quiet-Carries (beats now id) j r k q h = on_worker-Carries id j (beat now) r k (λ w. refl) h
quiet-Carries (cleans now) j r k q h = cleans-Carries now j r k h
quiet-Carries (removes id) j r k q h = absurd q
quiet-Carries (books id) j r k q h = absurd q
quiet-Carries (finishes id success t) j r k q h = absurd q
