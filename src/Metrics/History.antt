-- ===== src/Metrics/History.antt =====
-- The latency tracker under any sequence of calls.
use hybridgrid.Prelude.{String, true, none, some, List, [], ◌∷◌, ◌≡◌, arith, Option-cases, inl, inr}
use hybridgrid.Prelude.Float.{Float}
use hybridgrid.Prelude.Maps.{
  lookup, lookup-map_values, Entries, Entries-insert, Entries-lookup, Entries-erase,
}
use hybridgrid.Metrics.Ewma.{Ewma, update}
use hybridgrid.Metrics.Latency.{
  LatencyTracker, new_latency_tracker_with_config, or_new, record_latency, get, remove, reset,
  all_latencies,
}

module _ (F : Float) where
  open F use {Carrier}

  pub data LatencyCall : Type 0 where
    records : String → Carrier → LatencyCall
    removes : String → LatencyCall
    resets : LatencyCall

  pub after_call : LatencyCall → LatencyTracker F → LatencyTracker F
  after_call (records id latency) t = record_latency F id latency t
  after_call (removes id) t = remove F id t
  after_call resets t = reset F t

  pub after_calls : List LatencyCall → LatencyTracker F → LatencyTracker F
  after_calls [] t = t
  after_calls (c ∷ cs) t = after_calls cs (after_call c t)

  abbrev pub IsMeasured : String → Ewma F → Type 0
  IsMeasured id e = e.init ≡ true

  update-IsMeasured : (id : String) (v : Carrier) (e : Ewma F) → IsMeasured id (update F v e)
  unfolding update
  update-IsMeasured id v e = ground arith

  after_call-IsMeasured :
      (c : LatencyCall) (t : LatencyTracker F)
      → Entries IsMeasured t.workers
      → Entries IsMeasured (after_call c t).workers
  unfolding after_call record_latency remove reset
  after_call-IsMeasured (records id v) t h =
      Entries-insert IsMeasured id _ t.workers h
        (update-IsMeasured id v (or_new F t.alpha (lookup id t.workers)))
  after_call-IsMeasured (removes id) t h = Entries-erase IsMeasured id t.workers h
  after_call-IsMeasured resets t h = tt

  after_calls-IsMeasured :
      (cs : List LatencyCall) (t : LatencyTracker F)
      → Entries IsMeasured t.workers
      → Entries IsMeasured (after_calls cs t).workers
  unfolding after_calls
  after_calls-IsMeasured [] t h = h
  after_calls-IsMeasured (c ∷ cs) t h =
      after_calls-IsMeasured cs (after_call c t) (after_call-IsMeasured c t h)

  get-measured :
      (id : String) (t : LatencyTracker F)
      → Entries IsMeasured t.workers
      → get F id t ≡ elim (lookup id (all_latencies F t)) [ none ↦ t.def_value | some v ↦ v ]
  unfolding get all_latencies
  get-measured id t h = elim (Option-cases (lookup id t.workers)) [
    | inl e ↦ ground (arith, lookup-map_values (λ (x : Ewma F). x.value) id t.workers)
    | inr (w, e) ↦
        let seen : IsMeasured id w = Entries-lookup IsMeasured id w t.workers h e in
        ground (arith, lookup-map_values (λ (x : Ewma F). x.value) id t.workers)
  ]

  -- After any sequence of calls on a new tracker, `Get` and `All` agree: `Get` returns what `All` lists
  -- for the worker, and the default exactly for the workers that `All` does not list.
  pub get-all_latencies :
      (alpha default_latency : Carrier) (cs : List LatencyCall) (id : String)
      → let t = after_calls cs (new_latency_tracker_with_config F alpha default_latency) in
        get F id t ≡ elim (lookup id (all_latencies F t)) [ none ↦ t.def_value | some v ↦ v ]
  unfolding new_latency_tracker_with_config
  get-all_latencies alpha default_latency cs id = get-measured id _ (after_calls-IsMeasured cs _ tt)
