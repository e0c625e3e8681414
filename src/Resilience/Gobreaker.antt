-- ===== src/Resilience/Gobreaker.antt =====
-- The package github.com/sony/gobreaker as a parameter of the model of
-- internal/coordinator/resilience/circuit.go.
use hybridgrid.Prelude.{ℕ, String, Bool}
use hybridgrid.Prelude.Int.{ℤ}

pub data State : Type 0 where
  state_closed state_half_open state_open : State

pub record Counts : Type 0 where
  pub requests : ℕ
  pub total_failures : ℕ

pub record Settings : Type 0 where
  pub name : String
  pub max_requests : ℕ
  pub interval : ℤ
  pub timeout : ℤ
  pub ready_to_trip : Counts → Bool

-- A breaker is a value. `State()` moves an open breaker on when its time is over, so it returns the
-- breaker that it leaves; `Execute` is given what the function would return, and says whether it ran.
pub record Gobreaker : Type 1 where
  pub Breaker : Type 0
  pub new_circuit_breaker : Settings → Breaker
  pub state : ℕ → Breaker → State × Breaker
  pub execute : ℕ → (succeeds : Bool) → Breaker → Bool × Breaker
