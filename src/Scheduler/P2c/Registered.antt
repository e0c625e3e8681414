-- ===== src/Scheduler/P2c/Registered.antt =====
-- The scheduler on the registry: `Select` of internal/coordinator/scheduler/scheduler.go over a table
-- of internal/coordinator/registry/registry.go.
use hybridgrid.Prelude.{ℕ, String, Bool, true, Option, some, ◌≡◌, subst, inl, inr, ◌||◌, str_eq}
use hybridgrid.Prelude.Float.{Float}
use hybridgrid.Metrics.Latency.{LatencyTracker}
use hybridgrid.Registry.Types.{Architecture, BuildType, WorkerInfo}
use hybridgrid.Registry.Capability.{matches_capability}
use hybridgrid.Registry.Table.{InMemoryRegistry, get, is_healthy}
use hybridgrid.Registry.Invariant.{IsValid}
use hybridgrid.Registry.Listing.{list_by_capability-mem}
use hybridgrid.Scheduler.Eligible.{selected, view, has_room, runs_on}
use hybridgrid.Scheduler.Admission.{Suitable}
use hybridgrid.Scheduler.P2c.{Draws, AreInRange, select}
use hybridgrid.Scheduler.P2c.Laws.{select_of_two}

-- What a worker that gets a task is.
pub record IsDispatchable (now : ℕ) (b : BuildType) (a : Architecture) (os : String)
    (r : InMemoryRegistry) (w : WorkerInfo) : Type 0 where
  pub registered : get w.id r ≡ some w
  pub healthy : is_healthy w now r.ttl ≡ true
  pub capable : matches_capability w.capabilities b a ≡ true
  pub on_system : (str_eq os "" || runs_on os w.capabilities) ≡ true
  pub room : has_room w ≡ true

pub Suitable-IsDispatchable :
    (n now : ℕ) (b : BuildType) (a : Architecture) (os : String) (r : InMemoryRegistry)
    (w : WorkerInfo)
    → IsValid n r
    → Suitable (view now r) b a os w
    → IsDispatchable now b a os r w
unfolding view
Suitable-IsDispatchable n now b a os r w v ((m, system), _, room) =
    let (found, healthy, capable) = (list_by_capability-mem n now b a r w v).0 m in
    record {
      registered = found;
      healthy = healthy;
      capable = capable;
      on_system = system;
      room = room;
    }

-- On a valid registry a worker that is selected is registered under its own ID, was heard of within
-- the time to live and is not marked unhealthy, can do the build for the architecture, fits the
-- client's system and has room for a task. (The random numbers are in range.)
pub select-IsDispatchable :
    (F : Float) (tracker : LatencyTracker F) (checker : Option (String → Bool)) (d : Draws)
    (n now : ℕ) (b : BuildType) (a : Architecture) (os : String) (r : InMemoryRegistry)
    (w : WorkerInfo)
    → AreInRange d
    → IsValid n r
    → select F tracker checker d (view now r) b a os ≡ selected w
    → IsDispatchable now b a os r w
select-IsDispatchable F tracker checker d n now b a os r w range v h =
    elim (select_of_two F tracker d a checker (view now r) b os range) [
      | inr (e, f, _) ↦ absurd (cc)
      | inl (x, cs, f, _, _, s, _, _) ↦
          let same : x ≡ w = cc in
          subst (IsDispatchable now b a os r) same (Suitable-IsDispatchable n now b a os r x v s)
    ]
