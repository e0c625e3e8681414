-- ===== src/Resilience/Circuit.antt =====
-- `CircuitManager` of internal/coordinator/resilience/circuit.go. The callback on a change of state and
-- the log line are left out.
use hybridgrid.Prelude.{
  ℕ, String, Bool, true, false, Option, none, some, List, [], if◌then◌else◌, ltb,
}
use hybridgrid.Prelude.Int.{ℤ, pos}
use hybridgrid.Prelude.Float.{Float}
use hybridgrid.Prelude.Maps.{lookup, insert, erase, map_values}
use hybridgrid.Resilience.Gobreaker.{
  State, state_closed, state_half_open, state_open, Counts, Settings, Gobreaker,
}

pub data CircuitState : Type 0 where
  circuit_closed circuit_half_open circuit_open : CircuitState

-- `gobreakerStateToCircuitState`
unfoldable pub gobreaker_state_to_circuit_state : State → CircuitState
gobreaker_state_to_circuit_state state_closed = circuit_closed
gobreaker_state_to_circuit_state state_half_open = circuit_half_open
gobreaker_state_to_circuit_state state_open = circuit_open

unfoldable pub is_state_open : State → Bool
is_state_open state_open = true
is_state_open _ = false

-- `IsOpen` and `GetState` on the answer of the breaker, if there is one.
unfoldable pub open_or_none : Option State → Bool
unfolding is_state_open
open_or_none none = false
open_or_none (some st) = is_state_open st

unfoldable pub state_or_closed : Option State → CircuitState
unfolding gobreaker_state_to_circuit_state
state_or_closed none = circuit_closed
state_or_closed (some st) = gobreaker_state_to_circuit_state st

pub record CircuitConfig (F : Float) : Type 0 where
  pub max_requests : ℕ
  pub interval : ℤ
  pub timeout : ℤ
  pub failure_ratio : F.Carrier
  pub min_requests : ℕ

pub record CircuitManager (F : Float) (G : Gobreaker) : Type 0 where
  pub breakers : List (String × G.Breaker)
  pub config : CircuitConfig F

module _ (F : Float) where
  -- `DefaultCircuitConfig`
  unfoldable pub default_circuit_config : CircuitConfig F
  default_circuit_config = record {
    max_requests = 3;
    interval = pos 10000000000;
    timeout = pos 60000000000;
    failure_ratio = F.lit (pos 6) 10;
    min_requests = 3;
  }

  -- The `ReadyToTrip` of the settings.
  unfoldable pub ready_to_trip : CircuitConfig F → Counts → Bool
  ready_to_trip config counts =
      if ltb counts.requests config.min_requests
      then false
      else F.le config.failure_ratio
          (F.div (F.of_int (pos counts.total_failures)) (F.of_int (pos counts.requests)))

  unfoldable pub settings : CircuitConfig F → String → Settings
  unfolding ready_to_trip
  settings config id = record {
    name = id;
    max_requests = config.max_requests;
    interval = config.interval;
    timeout = config.timeout;
    ready_to_trip = ready_to_trip config;
  }

module _ (F : Float) (G : Gobreaker) where
  unfoldable pub new_circuit_manager : CircuitConfig F → CircuitManager F G
  new_circuit_manager config = record { breakers = []; config = config }

  unfoldable pub or_fresh : CircuitConfig F → String → Option G.Breaker → G.Breaker
  or_fresh config id none = G.new_circuit_breaker (settings F config id)
  or_fresh config id (some cb) = cb

  -- `getOrCreate`: the breaker, and the manager that holds it.
  unfoldable pub get_or_create : String → CircuitManager F G → G.Breaker × CircuitManager F G
  unfolding or_fresh
  get_or_create id m =
      let cb = or_fresh m.config id (lookup id m.breakers) in
      (cb, record m { breakers = insert id cb m.breakers })

  -- `Execute`: whether the function ran, and the manager afterwards.
  unfoldable pub execute : ℕ → String → Bool → CircuitManager F G → Bool × CircuitManager F G
  unfolding get_or_create
  execute now id succeeds m =
      let (cb, held) = get_or_create id m in
      let (ran, next) = G.execute now succeeds cb in
      (ran, record held { breakers = insert id next held.breakers })

  -- The state of one breaker, and the manager that the question leaves.
  unfoldable pub ask : ℕ → String → CircuitManager F G → Option State × CircuitManager F G
  ask now id m = elim (lookup id m.breakers) [
    | none ↦ (none, m)
    | some cb ↦
        let (st, next) = G.state now cb in
        (some st, record m { breakers = insert id next m.breakers })
  ]

  unfoldable pub is_open : ℕ → String → CircuitManager F G → Bool × CircuitManager F G
  unfolding ask open_or_none
  is_open now id m = let (st, next) = ask now id m in (open_or_none st, next)

  unfoldable pub get_state : ℕ → String → CircuitManager F G → CircuitState × CircuitManager F G
  unfolding ask state_or_closed
  get_state now id m = let (st, next) = ask now id m in (state_or_closed st, next)

  -- `GetAllStates`: the states, and the manager that the questions leave.
  unfoldable pub get_all_states :
      ℕ → CircuitManager F G → List (String × CircuitState) × CircuitManager F G
  unfolding gobreaker_state_to_circuit_state
  get_all_states now m = (
    map_values (λ cb. gobreaker_state_to_circuit_state (G.state now cb).0) m.breakers,
    record m { breakers = map_values (λ cb. (G.state now cb).1) m.breakers },
  )

  unfoldable pub remove : String → CircuitManager F G → CircuitManager F G
  remove id m = record m { breakers = erase id m.breakers }
