-- ===== src/Registry/Listing.antt =====
-- Who is listed: `ListByCapability`, `IsHealthy` and `cleanupStaleWorkers` of
-- internal/coordinator/registry/registry.go.
use hybridgrid.Prelude.{
  ℕ, String, ◌≡◌, subst, Bool, true, false, some, arith, if◌then◌else◌, ◌↔◌, ◌&&◌, Memᴰ, mem-keep,
  keep,
}
use hybridgrid.Prelude.Int.{ℤ, ltb_ℤ}
use hybridgrid.Prelude.Maps.{
  lookup, values, lookup-mem, mem-lookup, lookup-map_values, Entries-lookup,
}
use hybridgrid.Registry.Types.{Architecture, BuildType, unhealthy, is_unhealthy, WorkerInfo}
use hybridgrid.Registry.Capability.{matches_capability}
use hybridgrid.Registry.Table.{
  InMemoryRegistry, since, is_healthy, get, list_by_capability, mark_stale, cleanup_stale_workers,
}
use hybridgrid.Registry.Invariant.{IsValid, Good}

and-eq-true : (a b : Bool) → ((a && b) ≡ true) ↔ ((a ≡ true) × (b ≡ true))
and-eq-true a b = ground arith

-- In a valid table the workers that `ListByCapability` returns are exactly those that are found under
-- their own ID, were heard of within the time to live and are not marked unhealthy, and can do the
-- build for the architecture.
pub list_by_capability-mem :
    (n now : ℕ) (b : BuildType) (a : Architecture) (r : InMemoryRegistry) (w : WorkerInfo)
    → IsValid n r
    → Memᴰ w (list_by_capability now b a r) ↔ (
        (get w.id r ≡ some w)
        × (is_healthy w now r.ttl ≡ true)
        × (matches_capability w.capabilities b a ≡ true))
unfolding list_by_capability get
list_by_capability-mem n now b a r w v = (forth, back)
  where
    test : WorkerInfo → Bool
    test x = is_healthy x now r.ttl && matches_capability x.capabilities b a

    forth :
        Memᴰ w (keep test (values r.workers))
        → (lookup w.id r.workers ≡ some w)
          × (is_healthy w now r.ttl ≡ true)
          × (matches_capability w.capabilities b a ≡ true)
    forth m =
        let (there, passes) = (mem-keep test (values r.workers)).0 m in
        let (k, e) = mem-lookup w r.workers v.distinct there in
        let good : Good n k w = Entries-lookup (Good n) k w r.workers v.entries e in
        let (p, q) = (and-eq-true _ _).0 passes in
        (subst (λ j. lookup j r.workers ≡ some w) good.0 e, p, q)

    back :
        (lookup w.id r.workers ≡ some w)
          × (is_healthy w now r.ttl ≡ true)
          × (matches_capability w.capabilities b a ≡ true)
        → Memᴰ w (keep test (values r.workers))
    back h =
        (mem-keep test (values r.workers)).1
          (lookup-mem w.id w r.workers h.0, (and-eq-true _ _).1 (h.1, h.2))

-- The clean-up marks exactly the workers that were not heard of for longer than the time to live, and
-- changes nothing else of any worker.
pub get-cleanup_stale_workers :
    (now : ℕ) (id : String) (r : InMemoryRegistry) (w : WorkerInfo)
    → get id r ≡ some w
    → get id (cleanup_stale_workers now r)
      ≡ some (record w {
        state = if ltb_ℤ r.ttl (since now w.last_heartbeat) then unhealthy else w.state;
      })
unfolding get cleanup_stale_workers
get-cleanup_stale_workers now id r w h =
    ground (arith, lookup-map_values (mark_stale now r.ttl) id r.workers)

-- A worker that the clean-up leaves healthy was healthy by `IsHealthy`, and the other way round: the
-- clean-up makes the stored state agree with the test at its time.
pub mark_stale-is_healthy :
    (now : ℕ) (ttl : ℤ) (w : WorkerInfo)
    → (is_unhealthy (mark_stale now ttl w).state ≡ false) ↔ (is_healthy w now ttl ≡ true)
unfolding mark_stale is_healthy
mark_stale-is_healthy now ttl w = ground arith
