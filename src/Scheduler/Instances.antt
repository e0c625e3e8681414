-- ===== src/Scheduler/Instances.antt =====
-- The schedulers of internal/coordinator/scheduler as the server holds them: least loaded, the default,
-- round robin, the power of two choices, epsilon-greedy and HEFT. Random numbers are drawn in a
-- sequence. LinUCB is not among them.
use hybridgrid.Prelude.{ℕ, ◌+◌, String, ◌≡◌, subst, Bool, Option, inl, inr}
use hybridgrid.Prelude.Float.{Float}
use hybridgrid.Metrics.Latency.{LatencyTracker}
use hybridgrid.Registry.Types.{Architecture, BuildType, WorkerInfo}
use hybridgrid.Scheduler.Eligible.{RegistryView, Selection, selected, fails, panics}
use hybridgrid.Scheduler.Simple
use hybridgrid.Scheduler.EpsilonGreedy
use hybridgrid.Scheduler.EpsilonGreedy.{EpsilonGreedyScheduler, Coins}
use hybridgrid.Scheduler.Heft
use hybridgrid.Scheduler.Heft.{HeftScheduler}
use hybridgrid.Scheduler.Selected.{round_robin-Matches, epsilon_greedy-Matches, heft-Matches}
use hybridgrid.Scheduler.Admission.{Matches}
use hybridgrid.Scheduler.Interface.{Scheduler}
use hybridgrid.Scheduler.LeastLoaded
use hybridgrid.Scheduler.LeastLoaded.Laws.{select_lightest}
use hybridgrid.Scheduler.P2c
use hybridgrid.Scheduler.P2c.{Draws, AreInRange}
use hybridgrid.Scheduler.P2c.Laws.{select_of_two}

pub least_loaded-Matches :
    (reg : RegistryView) (b : BuildType) (a : Architecture) (os : String) (w : WorkerInfo)
    → LeastLoaded.select reg b a os ≡ selected w
    → Matches reg b a os w
least_loaded-Matches reg b a os w h = elim (select_lightest reg b a os) [
  | inl (x, e, m, _, _) ↦ let same : x ≡ w = cc in subst (Matches reg b a os) same m
  | inr (e, f, _) ↦ absurd (cc)
]

pub p2c-Matches :
    (F : Float) (tracker : LatencyTracker F) (checker : Option (String → Bool)) (d : Draws)
    (reg : RegistryView) (b : BuildType) (a : Architecture) (os : String) (w : WorkerInfo)
    → AreInRange d
    → P2c.select F tracker checker d reg b a os ≡ selected w
    → Matches reg b a os w
p2c-Matches F tracker checker d reg b a os w range h =
    elim (select_of_two F tracker d a checker reg b os range) [
      | inl (x, cs, e, _, _, s, _, _) ↦ let same : x ≡ w = cc in subst (Matches reg b a os) same s.0
      | inr (e, f, _) ↦ absurd (cc)
    ]

-- It keeps no state, and does not learn.
abbrev pub least_loaded : (Reward : Type 0) → Scheduler Reward
least_loaded Reward = record {
  State = Unit;
  select = λ ctx reg b a os s. (LeastLoaded.select reg b a os, s);
  record_outcome = λ reg id reward success ctx s. s;
  select-Matches = λ ctx reg b a os s w h. least_loaded-Matches reg b a os w h;
}

-- Its state counts the draws that were made.
unfoldable pub p2c :
    (F : Float) (tracker : LatencyTracker F) (checker : Option (String → Bool)) (draws : ℕ → Draws)
    → ((n : ℕ) → AreInRange (draws n))
    → Scheduler F.Carrier
unfolding P2c.select
p2c F tracker checker draws range = record {
  State = ℕ;
  select = λ ctx reg b a os n. (P2c.select F tracker checker (draws n) reg b a os, n + 1);
  record_outcome = λ reg id reward success ctx n. n;
  select-Matches =
      λ ctx reg b a os n w h. p2c-Matches F tracker checker (draws n) reg b a os w (range n) h;
}

-- The counter is its state.
unfoldable pub round_robin : (Reward : Type 0) → Scheduler Reward
unfolding Simple.select
round_robin Reward = record {
  State = ℕ;
  select = λ ctx reg b a os n. ((Simple.select reg b a os n).1, (Simple.select reg b a os n).0);
  record_outcome = λ reg id reward success ctx n. n;
  select-Matches = λ ctx reg b a os n w h. round_robin-Matches reg b a os n w h;
}

-- `Select` drops what `SelectWithDispatchInfo` tells of the choice.
unfoldable pub worker_of {ℓ} : {D : Type ℓ} → Selection (WorkerInfo × D) → Selection WorkerInfo
worker_of (selected (w, info)) = selected w
worker_of (fails e) = fails e
worker_of panics = panics

pub worker_of-selected {ℓ} :
    {D : Type ℓ} (r : Selection (WorkerInfo × D)) (w : WorkerInfo)
    → worker_of r ≡ selected w
    → (info : D) × (r ≡ selected (w, info))
unfolding worker_of
worker_of-selected (selected (x, info)) w h = let same : x ≡ w = cc in (info, cc)
worker_of-selected (fails e) w h = absurd cc
worker_of-selected panics w h = absurd cc

-- Its state is what it has learnt and the number of the random numbers that it has drawn.
unfoldable pub epsilon_greedy : (F : Float) → (ℕ → Coins) → Scheduler F.Carrier
unfolding worker_of EpsilonGreedy.select_with_dispatch_info EpsilonGreedy.record_outcome
epsilon_greedy F coins = record {
  State = EpsilonGreedyScheduler F × ℕ;
  select = λ ctx reg b a os s. (
    worker_of (EpsilonGreedy.select_with_dispatch_info F s.0 (coins s.1) reg b a os),
    (s.0, s.1 + 1),
  );
  record_outcome =
      λ reg id reward success ctx s. (EpsilonGreedy.record_outcome F id reward s.0, s.1);
  select-Matches = λ ctx reg b a os s w h.
      let (info, e) = worker_of-selected _ w h in
      epsilon_greedy-Matches F s.0 (coins s.1) reg b a os w info e;
}

-- Its averages are its state; it learns from the registry.
unfoldable pub heft : (F : Float) → Scheduler F.Carrier
unfolding worker_of Heft.select_with_dispatch_info Heft.record_outcome
heft F = record {
  State = HeftScheduler F;
  select = λ ctx reg b a os s. (
    worker_of (Heft.select_with_dispatch_info F s reg b a os).1,
    (Heft.select_with_dispatch_info F s reg b a os).0,
  );
  record_outcome = λ reg id reward success ctx s. Heft.record_outcome F reg id s;
  select-Matches = λ ctx reg b a os s w h.
      let (info, e) = worker_of-selected _ w h in heft-Matches F s reg b a os w info e;
}
