-- ===== src/Scheduler/Heft.antt =====
-- `HEFTScheduler` of internal/coordinator/scheduler/heft.go: the earliest finish time.
pub mod Rounds
pub mod Laws
pub mod Prior
use hybridgrid.Prelude.{
  ℕ, ◌+◌, ◌/◌, String, str_eq, Bool, true, false, ◌||◌, ◌&&◌, Option, none, some, List, [], ◌∷◌,
  if◌then◌else◌,
}
use hybridgrid.Prelude.Int.{ℤ, pos, negsuc, wrap64, ◌+ℤ◌, ltb_ℤ, quot_ℤ}
use hybridgrid.Prelude.Float.{Float}
use hybridgrid.Prelude.Maps.{lookup, insert}
use hybridgrid.Metrics.Ewma.{Ewma, new_ewma, update}
use hybridgrid.Registry.Types.{Architecture, BuildType, WorkerCapabilities, WorkerInfo}
use hybridgrid.Scheduler.Eligible.{
  RegistryView, Selection, selected, fails, panics, ◌>>=◌, eligible_workers,
}

pub record HeftScheduler (F : Float) : Type 0 where
  pub circuit_checker : Option (String → Bool)
  pub wbar : List (String × Ewma F)
  pub alpha : F.Carrier
  pub observed : List (String × ℤ)

pub record DispatchInfo (F : Float) : Type 0 where
  pub q_value_at_dispatch : F.Carrier
  pub was_exploration : Bool

-- The variables of the selection loop.
pub record Loop (F : Float) : Type 0 where
  pub wbar : List (String × Ewma F)
  pub best : Option WorkerInfo
  pub best_eft : F.Carrier
  pub all_cold : Bool

module _ (F : Float) where
  open F use {Carrier, lit, of_int, add, mul, div, neg, sqrt, lt, le}

  unfoldable pub new_heft_scheduler : Option (String → Bool) → Carrier → HeftScheduler F
  new_heft_scheduler checker ewma_alpha = record {
    circuit_checker = checker;
    wbar = [];
    alpha =
        if le ewma_alpha (lit (pos 0) 1) || lt (lit (pos 1) 1) ewma_alpha
        then lit (pos 3) 10
        else ewma_alpha;
    observed = [];
  }

  -- `wbarLocked`: the average of a worker, a new one if it has none.
  unfoldable pub wbar_locked : Carrier → List (String × Ewma F) → String → Ewma F
  wbar_locked alpha wbar id = elim (lookup id wbar) [ none ↦ new_ewma F alpha | some e ↦ e ]

  unfoldable pub cores_of : Option WorkerCapabilities → Carrier
  cores_of none = lit (pos 4) 1
  cores_of (some caps) =
      if ltb_ℤ (pos 0) caps.cpu_cores then of_int caps.cpu_cores else lit (pos 4) 1

  -- The guess for a worker that has no observation: 800 ms over the root of a quarter of its cores.
  unfoldable pub prior : WorkerInfo → Carrier
  unfolding cores_of
  prior w = div (lit (pos 800) 1) (sqrt (div (cores_of w.capabilities) (lit (pos 4) 1)))

  -- The average that the loop uses for a worker: a cold one is given its prior.
  unfoldable pub warmed : Carrier → List (String × Ewma F) → WorkerInfo → Ewma F
  unfolding wbar_locked
  warmed alpha wbar w =
      let e = wbar_locked alpha wbar w.id in if e.init then e else update F (prior w) e

  -- `avail + w_ij`
  unfoldable pub eft : WorkerInfo → Carrier → Carrier
  eft w w_ij = add (mul (of_int w.active_tasks) w_ij) w_ij

  unfoldable pub is_better : Option WorkerInfo → Carrier → Carrier → Bool
  is_better none best_eft x = true
  is_better (some b) best_eft x = lt x best_eft

  -- One round of the loop. The average is a pointer, so warming it changes the map.
  unfoldable pub consider : Carrier → WorkerInfo → Loop F → Loop F
  consider alpha w l =
      let e = warmed alpha l.wbar w in
      let x = eft w e.value in
      record {
        wbar = insert w.id e l.wbar;
        best = if is_better l.best l.best_eft x then some w else l.best;
        best_eft = if is_better l.best l.best_eft x then x else l.best_eft;
        all_cold = if (wbar_locked alpha l.wbar w.id).init then false else l.all_cold;
      }

  unfoldable pub consider_all : Carrier → List WorkerInfo → Loop F → Loop F
  consider_all alpha [] l = l
  consider_all alpha (w ∷ ws) l = consider_all alpha ws (consider alpha w l)

  unfoldable pub loop_start : List (String × Ewma F) → Loop F
  loop_start wbar = record {
    wbar = wbar;
    best = none;
    best_eft = lit (negsuc 0) 1;
    all_cold = true;
  }

  -- `-bestEFT`
  unfoldable pub report : Loop F → WorkerInfo → WorkerInfo × DispatchInfo F
  report l w = (w, record { q_value_at_dispatch = neg l.best_eft; was_exploration = l.all_cold })

  -- Go would return a nil worker if nothing had been considered.
  unfoldable pub outcome : Loop F → Option WorkerInfo → Selection (WorkerInfo × DispatchInfo F)
  unfolding report
  outcome l none = panics
  outcome l (some w) = selected (report l w)

  unfoldable pub earliest :
      HeftScheduler F → List WorkerInfo → HeftScheduler F × Selection (WorkerInfo × DispatchInfo F)
  unfolding loop_start outcome
  earliest s cs =
      let l = consider_all s.alpha cs (loop_start s.wbar) in
      (record s { wbar = l.wbar }, outcome l l.best)

  unfoldable pub choose :
      HeftScheduler F → List WorkerInfo → HeftScheduler F × Selection (WorkerInfo × DispatchInfo F)
  choose s (w ∷ []) =
      (s, selected (w, record { q_value_at_dispatch = lit (pos 0) 1; was_exploration = false }))
  choose s [] = earliest s []
  choose s (w ∷ x ∷ cs) = earliest s (w ∷ x ∷ cs)

  -- The new scheduler (its averages may be warmed) and the result.
  unfoldable pub select_with_dispatch_info :
      HeftScheduler F
      → RegistryView
      → BuildType
      → Architecture
      → String
      → HeftScheduler F × Selection (WorkerInfo × DispatchInfo F)
  select_with_dispatch_info s reg build_type arch client_os =
      elim (eligible_workers s.circuit_checker reg build_type arch client_os) [
        | fails e ↦ (s, fails e)
        | panics ↦ (s, panics)
        | selected cs ↦ choose s cs
      ]

  unfoldable pub count_of : Option ℤ → ℤ
  count_of none = pos 0
  count_of (some n) = n

  -- `RecordOutcome`: the registry's average compile time, in whole milliseconds, enters the average.
  unfoldable pub record_outcome : RegistryView → String → HeftScheduler F → HeftScheduler F
  unfolding wbar_locked count_of
  record_outcome reg id s = if str_eq id "" then s else elim (reg.find id) [
    | none ↦ s
    | some w ↦
        if ltb_ℤ (pos 0) w.avg_compile_time
        then record s {
          wbar =
              insert id
                (update F (of_int (quot_ℤ w.avg_compile_time 1000000))
                  (wbar_locked s.alpha s.wbar id))
                s.wbar;
          observed = insert id (wrap64 (count_of (lookup id s.observed) +ℤ pos 1)) s.observed;
        }
        else s
  ]
