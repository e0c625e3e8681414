-- ===== src/Scheduler/P2c.antt =====
-- `P2CScheduler` of internal/coordinator/scheduler/scheduler.go: the better of two random candidates.
pub mod Laws
pub mod Registered
use hybridgrid.Prelude.{
  ℕ, zero, suc, ◌+◌, ◌-◌, String, str_eq, Bool, true, false, ◌||◌, Option, none, some, List, [],
  ◌∷◌, if◌then◌else◌, length, get_elem?, ltb, leb, ◌==◌, ◌<◌, ◌≡◌, arith,
}
use hybridgrid.Prelude.Int.{ℤ, pos, negsuc}
use hybridgrid.Prelude.Float.{Float}
use hybridgrid.Metrics.Latency.{LatencyTracker}
use hybridgrid.Metrics.Latency
use hybridgrid.Registry.Types.{
  Architecture, arch_unspecified, arch_eq, BuildType, WorkerCapabilities, WorkerInfo,
}
use hybridgrid.Scheduler.Eligible.{
  RegistryView, Selection, selected, fails, panics, ◌>>=◌, eligible_workers,
}

-- Two calls of `rand.Int(rand.Reader, n)` of crypto/rand: a number, or an error.
pub record Draws : Type 0 where
  pub first : ℕ → Option ℕ
  pub second : ℕ → Option ℕ

-- `rand.Int` documents a value in [0, n).
pub record AreInRange (d : Draws) : Type 0 where
  pub first_lt : (n v : ℕ) → d.first n ≡ some v → v < n
  pub second_lt : (n v : ℕ) → d.second n ≡ some v → v < n

unfoldable pub crypto_rand_int : (ℕ → Option ℕ) → ℕ → ℕ
crypto_rand_int draw n = if n == 0 then 0 else elim (draw n) [ none ↦ 0 | some v ↦ v ]

unfoldable pub pick_two : Draws → ℕ → ℕ × ℕ
unfolding crypto_rand_int
pick_two d n =
    let idx1 = crypto_rand_int d.first n in
    let idx2 = crypto_rand_int d.second (n - 1) in
    if ltb n 2 then (0, 0) else (idx1, if leb idx1 idx2 then idx2 + 1 else idx2)

module _ (F : Float) where
  open F use {Carrier, lit, of_int, add, mul, div, lt, le}

  -- The terms of `scoreWorker`, in order.
  unfoldable pub arch_score : WorkerCapabilities → Architecture → Carrier → Carrier
  unfolding arch_eq
  arch_score caps target score =
      if arch_eq target arch_unspecified || arch_eq caps.native_arch target
      then add score (lit (pos 50) 1)
      else if caps.docker_available
      then add score (lit (pos 25) 1)
      else score

  unfoldable pub at_most : Carrier → Carrier → Carrier
  at_most bound x = if lt bound x then bound else x

  unfoldable pub score_worker : LatencyTracker F → WorkerInfo → Architecture → Carrier
  unfolding arch_score at_most
  score_worker tracker w target = elim w.capabilities [
    | none ↦ lit (pos 0) 1
    | some caps ↦
        let arch = arch_score caps target (lit (pos 0) 1) in
        let cpu = at_most (lit (pos 16) 1) (of_int caps.cpu_cores) in
        let with_cpu = add arch (mul cpu (lit (pos 10) 1)) in
        let mem =
          at_most (lit (pos 64) 1) (div (of_int caps.memory_bytes) (lit (pos 1073741824) 1)) in
        let with_mem = add with_cpu (mul mem (lit (pos 5) 1)) in
        let with_tasks = add with_mem (mul (of_int w.active_tasks) (lit (negsuc 14) 1)) in
        let latency = Latency.get F w.id tracker in
        let with_latency = add with_tasks (mul latency (lit (negsuc 0) 2)) in
        if str_eq w.discovery_source "mdns" || str_eq w.discovery_source "LAN"
        then add with_latency (lit (pos 20) 1)
        else with_latency
  ]

  -- The duel of the two candidates that were drawn; an index out of range would panic.
  unfoldable pub duel :
      LatencyTracker F → Draws → Architecture → List WorkerInfo → Selection WorkerInfo
  unfolding pick_two
  duel tracker d arch cs =
      let (i, j) = pick_two d (length cs) in
      elim (get_elem? cs i) [
        | none ↦ panics
        | some w1 ↦ elim (get_elem? cs j) [
          | none ↦ panics
          | some w2 ↦
              if le (score_worker tracker w2 arch) (score_worker tracker w1 arch)
              then selected w1
              else selected w2
        ]
      ]

  unfoldable pub choose :
      LatencyTracker F → Draws → Architecture → List WorkerInfo → Selection WorkerInfo
  choose tracker d arch (w ∷ []) = selected w
  choose tracker d arch [] = duel tracker d arch []
  choose tracker d arch (w ∷ x ∷ cs) = duel tracker d arch (w ∷ x ∷ cs)

  unfoldable pub select :
      LatencyTracker F
      → Option (String → Bool)
      → Draws
      → RegistryView
      → BuildType
      → Architecture
      → String
      → Selection WorkerInfo
  select tracker checker d reg build_type arch client_os = do
    cs ← eligible_workers checker reg build_type arch client_os
    choose tracker d arch cs

  -- `ReportSuccess`
  unfoldable pub report_success : String → Carrier → LatencyTracker F → LatencyTracker F
  report_success id latency tracker = Latency.record_latency F id latency tracker
