-- ===== src/Tests/MetricsRuns.antt =====
-- Runs of the latency tracker, with fixed-point numbers.
use hybridgrid.Prelude.{◌≡◌, none, some, [], ◌∷◌}
use hybridgrid.Prelude.Int.{pos}
use hybridgrid.Prelude.Float.Fixed.{fixed}
use hybridgrid.Prelude.Maps.{lookup}
use hybridgrid.Metrics.Latency.{
  LatencyTracker, new_latency_tracker, new_latency_tracker_with_config, record_latency, get,
  all_latencies,
}
use hybridgrid.Metrics.History.{records, removes, after_calls, get-all_latencies}

abbrev measured : LatencyTracker fixed
measured = record_latency fixed "a" (fixed.lit (pos 4000) 100) (new_latency_tracker fixed)

get-all_latencies_example :
    let t =
      after_calls fixed (records "a" (fixed.lit (pos 4000) 100) ∷ removes "b" ∷ []) (
        new_latency_tracker_with_config fixed (fixed.lit (pos 50) 100) (fixed.lit (pos 100) 100)) in
    get fixed "a" t ≡ elim (lookup "a" (all_latencies fixed t)) [ none ↦ t.def_value | some v ↦ v ]
get-all_latencies_example =
    get-all_latencies fixed (fixed.lit (pos 50) 100) (fixed.lit (pos 100) 100)
      (records "a" (fixed.lit (pos 4000) 100) ∷ removes "b" ∷ []) "a"
