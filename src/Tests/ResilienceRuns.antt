-- ===== src/Tests/ResilienceRuns.antt =====
-- Runs of the circuit manager, with a breaker that opens at three failures in a row.
use hybridgrid.Prelude.{
  ℕ, ◌+◌, ◌≡◌, refl, ◌↔◌, true, false, none, some, [], ◌∷◌, if◌then◌else◌, leb,
}
use hybridgrid.Prelude.Float.Fixed.{fixed}
use hybridgrid.Prelude.Maps.{lookup}
use hybridgrid.Resilience.Gobreaker.{state_closed, state_open, Gobreaker}
use hybridgrid.Resilience.Circuit.{
  CircuitManager, circuit_closed, circuit_open, default_circuit_config, new_circuit_manager,
  is_open, get_state, get_all_states,
}
use hybridgrid.Resilience.Manager.{
  asks_open, asks_all, removes, run_calls, get_state-is_open, is_open-run_calls,
}

abbrev three_strikes : Gobreaker
three_strikes = record {
  Breaker = ℕ;
  new_circuit_breaker = λ s. 0;
  state = λ now failures. (if leb 3 failures then state_open else state_closed, failures);
  execute = λ now succeeds failures.
      if leb 3 failures then (false, failures) else (true, if succeeds then 0 else failures + 1);
}

abbrev tripped : CircuitManager fixed three_strikes
tripped = record {
  breakers = ("alice", 3) ∷ ("bob", 0) ∷ [];
  config = default_circuit_config fixed;
}

get_state-is_open_example :
    (((is_open fixed three_strikes 5 "alice" tripped).0 ≡ true)
      ↔ ((get_state fixed three_strikes 5 "alice" tripped).0 ≡ circuit_open))
    × ((get_state fixed three_strikes 5 "alice" tripped).0
        ≡ elim (lookup "alice" (get_all_states fixed three_strikes 5 tripped).0) [
          | none ↦ circuit_closed
          | some st ↦ st
        ])
get_state-is_open_example = get_state-is_open fixed three_strikes 5 "alice" tripped

is_open-run_calls_example :
    (is_open fixed three_strikes 9 "alice" (
      run_calls fixed three_strikes
        (asks_open 1 "alice" ∷ asks_all 2 ∷ removes "bob" ∷ [])
        (new_circuit_manager fixed three_strikes (default_circuit_config fixed)))).0
    ≡ false
is_open-run_calls_example =
    is_open-run_calls fixed three_strikes (default_circuit_config fixed)
      (asks_open 1 "alice" ∷ asks_all 2 ∷ removes "bob" ∷ []) 9 "alice" (refl, (refl, (refl, tt)))
