-- ===== src/Metrics/Latency.antt =====
-- `LatencyTracker` of internal/coordinator/metrics/latency.go.
use hybridgrid.Prelude.{String, Option, none, some, List, [], if◌then◌else◌, ◌≡◌, arith, str_eq}
use hybridgrid.Prelude.Int.{pos}
use hybridgrid.Prelude.Float.{Float}
use hybridgrid.Prelude.Maps.{lookup, insert, erase, map_values, lookup-insert, lookup-erase}
use hybridgrid.Metrics.Ewma.{Ewma, new_ewma, blend, update}

pub record LatencyTracker (F : Float) : Type 0 where
  pub workers : List (String × Ewma F)
  pub alpha : F.Carrier
  pub def_value : F.Carrier

module _ (F : Float) where
  open F use {Carrier, lit}

  -- `NewLatencyTrackerWithConfig`
  unfoldable pub new_latency_tracker_with_config : Carrier → Carrier → LatencyTracker F
  new_latency_tracker_with_config alpha default_latency = record {
    workers = [];
    alpha = alpha;
    def_value = default_latency;
  }

  -- `NewLatencyTracker`, with the two constants of the file.
  unfoldable pub new_latency_tracker : LatencyTracker F
  new_latency_tracker = new_latency_tracker_with_config (lit (pos 1) 2) (lit (pos 100) 1)

  unfoldable pub or_new : Carrier → Option (Ewma F) → Ewma F
  or_new alpha none = new_ewma F alpha
  or_new alpha (some e) = e

  -- `Record`; the Go name is a reserved word here.
  unfoldable pub record_latency : String → Carrier → LatencyTracker F → LatencyTracker F
  unfolding or_new
  record_latency id latency t = record t {
    workers = insert id (update F latency (or_new t.alpha (lookup id t.workers))) t.workers;
  }

  unfoldable pub get : String → LatencyTracker F → Carrier
  get id t = elim (lookup id t.workers) [
    | some e ↦ if e.init then e.value else t.def_value
    | none ↦ t.def_value
  ]

  unfoldable pub remove : String → LatencyTracker F → LatencyTracker F
  remove id t = record t { workers = erase id t.workers }

  unfoldable pub reset : LatencyTracker F → LatencyTracker F
  reset t = record t { workers = [] }

  -- `All`
  unfoldable pub all_latencies : LatencyTracker F → List (String × Carrier)
  all_latencies t = map_values (λ e. e.value) t.workers

  -- What is measured for one worker is seen by it alone: the first measurement is its latency, a later
  -- one is blended into the old value, and the latency of every other worker stays as it was.
  pub get-record_latency :
      (id j : String) (latency : Carrier) (t : LatencyTracker F)
      → get j (record_latency id latency t) ≡ (
          if str_eq id j
          then elim (lookup id t.workers) [
            | none ↦ latency
            | some e ↦ if e.init then blend F e.alpha latency e.value else latency
          ]
          else get j t)
  unfolding get record_latency update new_ewma
  get-record_latency id j latency t = ground (
    arith,
    lookup-insert id j (update F latency (or_new t.alpha (lookup id t.workers))) t.workers,
  )

  -- After `Remove` a worker has the default latency, and every other worker the one that it had.
  pub get-remove :
      (id j : String) (t : LatencyTracker F)
      → get j (remove id t) ≡ (if str_eq id j then t.def_value else get j t)
  unfolding get remove
  get-remove id j t = ground (arith, lookup-erase id j t.workers)
