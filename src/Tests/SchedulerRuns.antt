-- ===== src/Tests/SchedulerRuns.antt =====
-- Runs of the schedulers on three workers, one of them unhealthy.
use hybridgrid.Prelude.{
  ◌≤◌, ◌≡◌, refl, ◌⊎◌, String, str_eq, Bool, true, false, Option, none, some, List, [], ◌∷◌, length,
  arith, Memᴰ,
}
use hybridgrid.Prelude.Int.{pos, quot_ℤ, ◌*ℤ◌}
use hybridgrid.Prelude.Float.Fixed.{fixed}
use hybridgrid.Prelude.Maps.{lookup}
use hybridgrid.Metrics.Latency.{LatencyTracker, new_latency_tracker}
use hybridgrid.Registry.Types.{arch_x86_64, build_type_cpp, WorkerInfo, is_unhealthy}
use hybridgrid.Scheduler.Eligible.{SelectError, selected, fails, eligible_workers}
use hybridgrid.Scheduler.Admission.{Matches, Suitable, Preferred}
use hybridgrid.Scheduler.Simple
use hybridgrid.Scheduler.Simple.Laws.{PrefersIdle, select_in_turn}
use hybridgrid.Scheduler.LeastLoaded
use hybridgrid.Scheduler.LeastLoaded.Laws.{NotLighter, select_lightest}
use hybridgrid.Scheduler.P2c
use hybridgrid.Scheduler.P2c.{Draws, AreInRange, pick_two}
use hybridgrid.Scheduler.P2c.Laws.{Wins, select_of_two}
use hybridgrid.Scheduler.EpsilonGreedy
use hybridgrid.Scheduler.EpsilonGreedy.Laws.{IsGreedy, IsFinite, select_by_epsilon}
use hybridgrid.Scheduler.Heft
use hybridgrid.Scheduler.Heft.Laws.{FinishesFirst, select_earliest}
use hybridgrid.Tests.Sample.{office_view}

abbrev pub no_draws : Draws
no_draws = record { first = λ _. none; second = λ _. none }

pub no_draws-AreInRange : AreInRange no_draws
no_draws-AreInRange = record { first_lt = λ n v e. cc; second_lt = λ n v e. cc }

abbrev pub tracker : LatencyTracker fixed
tracker = new_latency_tracker fixed

abbrev pub open_for_alice : Option (String → Bool)
open_for_alice = some (λ id. str_eq id "alice")

select_of_two_example :
    ((w : WorkerInfo) × (cs : List WorkerInfo) × (P2c.select fixed tracker open_for_alice no_draws
          office_view build_type_cpp arch_x86_64 "linux"
        ≡ selected w)
      × (eligible_workers open_for_alice office_view build_type_cpp arch_x86_64 "linux"
          ≡ selected cs)
      × Memᴰ w cs
      × Suitable office_view build_type_cpp arch_x86_64 "linux" w
      × Preferred open_for_alice office_view build_type_cpp arch_x86_64 "linux" w
      × (2 ≤ length cs → Wins fixed tracker no_draws arch_x86_64 cs w))
    ⊎ ((e : SelectError) × (P2c.select fixed tracker open_for_alice no_draws office_view
            build_type_cpp arch_x86_64 "linux"
          ≡ fails e)
        × ((w : WorkerInfo) → ¬ Suitable office_view build_type_cpp arch_x86_64 "linux" w))
select_of_two_example =
    select_of_two fixed tracker no_draws arch_x86_64 open_for_alice office_view build_type_cpp
      "linux" no_draws-AreInRange

select_in_turn_example :
    ((w : WorkerInfo) × (Simple.select office_view build_type_cpp arch_x86_64 "linux" 7
        ≡ (8, selected w))
      × Suitable office_view build_type_cpp arch_x86_64 "linux" w
      × PrefersIdle office_view build_type_cpp arch_x86_64 "linux" 7 w)
    ⊎ ((e : SelectError) × (Simple.select office_view build_type_cpp arch_x86_64 "linux" 7
          ≡ (7, fails e))
        × ((w : WorkerInfo) → ¬ Suitable office_view build_type_cpp arch_x86_64 "linux" w))
select_in_turn_example =
    select_in_turn office_view build_type_cpp arch_x86_64 "linux" 7 (omega arith)

select_lightest_example :
    ((w : WorkerInfo) × (LeastLoaded.select office_view build_type_cpp arch_x86_64 "linux"
        ≡ selected w)
      × Matches office_view build_type_cpp arch_x86_64 "linux" w
      × (is_unhealthy w.state ≡ false)
      × ((x : WorkerInfo)
          → Matches office_view build_type_cpp arch_x86_64 "linux" x
          → NotLighter w x))
    ⊎ ((e : SelectError) × (LeastLoaded.select office_view build_type_cpp arch_x86_64 "linux"
          ≡ fails e)
        × ((x : WorkerInfo)
            → Matches office_view build_type_cpp arch_x86_64 "linux" x
            → is_unhealthy x.state ≡ true))
select_lightest_example = select_lightest office_view build_type_cpp arch_x86_64 "linux"

abbrev learned : EpsilonGreedy.EpsilonGreedyScheduler fixed
learned = record {
  circuit_checker = open_for_alice;
  epsilon = fixed.lit (pos 1) 10;
  values = ("alice", record { q = fixed.lit (pos 3) 2; n = pos 1 }) ∷ [];
}

above_lowest : (id : String) → fixed.is_inf (EpsilonGreedy.q_value fixed learned id) ≡ false
unfolding fixed EpsilonGreedy.q_value lookup ◌*ℤ◌ quot_ℤ
above_lowest id = ground arith

learned-IsFinite : IsFinite fixed learned
unfolding fixed
learned-IsFinite id = (refl, above_lowest id)

abbrev heads : EpsilonGreedy.Coins
heads = record { bytes = none; index = λ _. none }

select_by_epsilon_example :
    ((w : WorkerInfo) × (info : EpsilonGreedy.DispatchInfo fixed) × (cs : List WorkerInfo)
      × (EpsilonGreedy.select_with_dispatch_info fixed learned heads office_view build_type_cpp
            arch_x86_64 "linux"
          ≡ selected (w, info))
      × (eligible_workers learned.circuit_checker office_view build_type_cpp arch_x86_64 "linux"
          ≡ selected cs)
      × Suitable office_view build_type_cpp arch_x86_64 "linux" w
      × Preferred learned.circuit_checker office_view build_type_cpp arch_x86_64 "linux" w
      × (info.q_value_at_dispatch ≡ EpsilonGreedy.q_value fixed learned w.id)
      × (info.was_exploration ≡ false → IsGreedy fixed learned cs w))
    ⊎ ((e : SelectError) × (EpsilonGreedy.select_with_dispatch_info fixed learned heads office_view
            build_type_cpp arch_x86_64 "linux"
          ≡ fails e)
        × ((w : WorkerInfo) → ¬ Suitable office_view build_type_cpp arch_x86_64 "linux" w))
select_by_epsilon_example =
    select_by_epsilon fixed learned heads office_view build_type_cpp arch_x86_64 "linux"
      learned-IsFinite (λ n v e. cc)

abbrev planner : Heft.HeftScheduler fixed
planner = Heft.new_heft_scheduler fixed none (fixed.lit (pos 3) 10)

select_earliest_example :
    ((w : WorkerInfo) × (info : Heft.DispatchInfo fixed) × (cs : List WorkerInfo)
      × ((Heft.select_with_dispatch_info fixed planner office_view build_type_cpp arch_x86_64
            "linux").1
          ≡ selected (w, info))
      × (eligible_workers planner.circuit_checker office_view build_type_cpp arch_x86_64 "linux"
          ≡ selected cs)
      × Suitable office_view build_type_cpp arch_x86_64 "linux" w
      × Preferred planner.circuit_checker office_view build_type_cpp arch_x86_64 "linux" w
      × (2 ≤ length cs
          → FinishesFirst fixed planner
              (Heft.select_with_dispatch_info fixed planner office_view build_type_cpp arch_x86_64
                "linux").0
              cs
              w))
    ⊎ ((e : SelectError) × ((Heft.select_with_dispatch_info fixed planner office_view build_type_cpp
            arch_x86_64 "linux").1
          ≡ fails e)
        × ((w : WorkerInfo) → ¬ Suitable office_view build_type_cpp arch_x86_64 "linux" w))
select_earliest_example =
    select_earliest fixed planner office_view build_type_cpp arch_x86_64 "linux"
