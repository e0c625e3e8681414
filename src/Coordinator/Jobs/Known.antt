-- ===== src/Coordinator/Jobs/Known.antt =====
-- A worker that internal/coordinator/registry/registry.go knows stays known, as long as nobody removes it.
use hybridgrid.Prelude.{
  ℕ, String, ◌≡◌, ◌≤◌, false, subst, Option, none, some, str_eq, eq_iff, Option-cases, Bool-cases,
  inl, inr, if_both, arith,
}
use mathlib.Core.Option
use hybridgrid.Prelude.Maps.{lookup, lookup-insert, lookup-map_values}
use hybridgrid.Registry.Types.{WorkerInfo}
use hybridgrid.Registry.Table.{
  InMemoryRegistry, get, add, on_worker, book, finish, increment_tasks, decrement_tasks, beat,
  set_state, mark_stale, update_state, update_heartbeat, cleanup_loop_round, cleanup_stale_workers,
}
use hybridgrid.Registry.Tasks.{get-step_other, get-add}
use hybridgrid.Registry.Invariant
use hybridgrid.Registry.Invariant.{
  Call, adds, removes, sets_state, beats, books, finishes, cleans, after,
}

-- Of a worker that is not registered there are no handlers.
abbrev pub Known : Option WorkerInfo → ℕ → Type 0
Known none k = k ≡ 0
Known (some w) k = Unit

pub Known-less : (o : Option WorkerInfo) (k m : ℕ) → m ≤ k → Known o k → Known o m
Known-less none k m h c = omega arith
Known-less (some w) k m h c = tt

ne_of_test : (id j : String) → str_eq id j ≡ false → ¬ (id ≡ j)
ne_of_test id j e p = ground (arith, eq_iff id j)

on_worker-Known :
    (id j : String) (f : WorkerInfo → WorkerInfo) (r : InMemoryRegistry) (k : ℕ)
    → Known (get j r) k
    → Known (get j (after r (on_worker id f r))) k
unfolding on_worker get
on_worker-Known id j f r k c = elim (Option-cases (lookup id r.workers)) [
  | inl e ↦ rw (e, on_worker) c
  | inr (w, e) ↦
      rw (e, on_worker)
        (rw (lookup-insert id j (f w) r.workers)
          (elim (Bool-cases (str_eq id j)) [ inl here ↦ rw here tt | inr other ↦ rw other c ]))
]

adds-Known :
    (now : ℕ) (w : WorkerInfo) (j : String) (r : InMemoryRegistry) (k : ℕ)
    → Known (get j r) k
    → Known (get j (after r (add now w r))) k
unfolding Invariant.step
adds-Known now w j r k c = elim (Bool-cases (str_eq w.id j)) [
  | inl same ↦
      let (x, found, _, _, _, _, _, _, _) = get-add now w r in
      subst (λ i. Known (get i (after r (add now w r))) k) ((eq_iff w.id j).0 same) (rw found tt)
  | inr other ↦ rw (get-step_other (adds now w) j r (ne_of_test w.id j other)) c
]

cleans-Known :
    (now : ℕ) (j : String) (r : InMemoryRegistry) (k : ℕ)
    → Known (get j r) k
    → Known (get j (cleanup_loop_round now r)) k
unfolding cleanup_loop_round cleanup_stale_workers get
cleans-Known now j r k c =
    if_both (λ r'. Known (get j r') k) r.stopped r (cleanup_stale_workers now r) c
      (rw (lookup-map_values (mark_stale now r.ttl) j r.workers) (kept (lookup j r.workers) c))
  where
    kept : (o : Option WorkerInfo) → Known o k → Known (Option.map (mark_stale now r.ttl) o) k
    kept none h = h
    kept (some w) h = tt

abbrev pub KeepsWorkers : Call → Type 0
KeepsWorkers (removes id) = ⊥
KeepsWorkers _ = Unit

pub step-Known :
    (c : Call) (j : String) (r : InMemoryRegistry) (k : ℕ)
    → KeepsWorkers c
    → Known (get j r) k
    → Known (get j (Invariant.step r c)) k
unfolding Invariant.step update_state update_heartbeat increment_tasks decrement_tasks
step-Known (adds now w) j r k q h = adds-Known now w j r k h
step-Known (sets_state id s) j r k q h = on_worker-Known id j (set_state s) r k h
step-Known (beats now id) j r k q h = on_worker-Known id j (beat now) r k h
step-Known (books id) j r k q h = on_worker-Known id j book r k h
step-Known (finishes id success t) j r k q h = on_worker-Known id j (finish success t) r k h
step-Known (cleans now) j r k q h = cleans-Known now j r k h
step-Known (removes id) j r k q h = absurd q
