-- ===== src/Scheduler/Eligible.antt =====
-- What the schedulers of internal/coordinator/scheduler share: the registry as they see it, their
-- errors, the filter by operating system, and the workers that may get a task.
use hybridgrid.Prelude.{
  ℕ, String, str_eq, Bool, false, ◌||◌, Option, none, some, List, if◌then◌else◌, keep, is_empty,
  ◌==◌,
}
use hybridgrid.Prelude.Int.{ℤ, pos, ltb_ℤ, leb_ℤ}
use hybridgrid.Registry.Types.{
  Architecture, BuildType, WorkerCapabilities, WorkerInfo, is_unhealthy,
}
use hybridgrid.Registry.Table.{InMemoryRegistry, list_by_capability, get, count}

-- The methods of the `Registry` interface that a scheduler calls during one selection.
pub record RegistryView : Type 0 where
  pub listed : BuildType → Architecture → List WorkerInfo
  pub size : ℕ
  pub find : String → Option WorkerInfo

-- The in-memory registry at one moment.
unfoldable pub view : ℕ → InMemoryRegistry → RegistryView
unfolding list_by_capability get count
view now r = record {
  listed = λ b a. list_by_capability now b a r;
  size = count r;
  find = λ id. get id r;
}

pub data SelectError : Type 0 where
  no_workers no_matching_workers : SelectError

-- The result of a selection; `panics` is a run-time panic of Go.
pub data Selection {ℓ} (A : Type ℓ) : Type ℓ where
  selected : A → Selection A
  fails : SelectError → Selection A
  panics : Selection A

infixl 5 ◌>>=◌
abbrev pub ◌>>=◌ {ℓ κ} : {A : Type ℓ} {B : Type κ} → Selection A → (A → Selection B) → Selection B
selected a >>= f = f a
fails e >>= f = fails e
panics >>= f = panics

unfoldable pub runs_on : String → Option WorkerCapabilities → Bool
runs_on client_os none = false
runs_on client_os (some caps) = str_eq caps.os client_os || caps.docker_available

unfoldable pub filter_by_os : List WorkerInfo → String → List WorkerInfo
unfolding runs_on
filter_by_os workers client_os =
    if str_eq client_os "" then workers else keep (λ w. runs_on client_os w.capabilities) workers

-- The first part of every `Select`: the capable workers, those of the client's system if it is given.
unfoldable pub matching_workers :
    RegistryView → BuildType → Architecture → String → Selection (List WorkerInfo)
unfolding filter_by_os
matching_workers reg build_type arch client_os =
    let workers = reg.listed build_type arch in
    let filtered = filter_by_os workers client_os in
    if is_empty workers
    then (if reg.size == 0 then fails no_workers else fails no_matching_workers)
    else if str_eq client_os ""
    then selected workers
    else if is_empty filtered
    then fails no_matching_workers
    else selected filtered

-- The worker's own limit, 4 if it gave none.
unfoldable pub parallel_limit : WorkerInfo → ℤ
parallel_limit w = if leb_ℤ w.max_parallel (pos 0) then pos 4 else w.max_parallel

unfoldable pub has_room : WorkerInfo → Bool
unfolding parallel_limit
has_room w = ltb_ℤ w.active_tasks (parallel_limit w)

-- `circuitChecker != nil && circuitChecker.IsOpen(w.ID)`
unfoldable pub circuit_open : Option (String → Bool) → String → Bool
circuit_open none id = false
circuit_open (some is_open) id = is_open id

-- The candidates of one pass, and those of the second pass, which does not ask the circuit breaker.
unfoldable pub admits : Option (String → Bool) → WorkerInfo → Bool
unfolding circuit_open has_room
admits checker w =
    if is_unhealthy w.state then false else if circuit_open checker w.id then false else has_room w

unfoldable pub admits_relaxed : WorkerInfo → Bool
unfolding has_room
admits_relaxed w = if is_unhealthy w.state then false else has_room w

unfoldable pub candidates : Option (String → Bool) → List WorkerInfo → List WorkerInfo
candidates checker workers =
    let strict = keep (admits checker) workers in
    if is_empty strict then keep admits_relaxed workers else strict

-- `eligibleWorkers` of the learning schedulers, and the same code in `P2CScheduler.Select`.
unfoldable pub eligible_workers :
    Option (String → Bool)
    → RegistryView
    → BuildType
    → Architecture
    → String
    → Selection (List WorkerInfo)
eligible_workers checker reg build_type arch client_os = do
  workers ← matching_workers reg build_type arch client_os
  let chosen = candidates checker workers
  if is_empty chosen then fails no_matching_workers else selected chosen
