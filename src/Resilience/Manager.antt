-- ===== src/Resilience/Manager.antt =====
-- What the methods of `CircuitManager` in internal/coordinator/resilience/circuit.go guarantee.
use hybridgrid.Prelude.{
  ℕ, String, str_eq, ◌≡◌, refl, sym, ◌∙◌, ap, ◌↔◌, Bool, true, false, Option, none, some, List, [],
  ◌∷◌, if◌then◌else◌, arith, Option-cases, inl, inr, All,
}
use mathlib.Core.Option
use hybridgrid.Prelude.Float.{Float}
use hybridgrid.Prelude.Maps.{
  lookup, insert, erase, map_values, lookup-insert, lookup-erase, lookup-map_values,
}
use hybridgrid.Resilience.Gobreaker.{State, state_closed, state_half_open, state_open, Gobreaker}
use hybridgrid.Resilience.Circuit.{
  CircuitState, circuit_closed, circuit_open, gobreaker_state_to_circuit_state, is_state_open,
  CircuitConfig, CircuitManager, new_circuit_manager, or_fresh, get_or_create, execute, ask,
  open_or_none, is_open, state_or_closed, get_state, get_all_states, remove,
}

is_state_open_iff :
    (st : State) → (is_state_open st ≡ true) ↔ (gobreaker_state_to_circuit_state st ≡ circuit_open)
unfolding is_state_open gobreaker_state_to_circuit_state
is_state_open_iff state_closed = (λ h. cc, λ h. cc)
is_state_open_iff state_half_open = (λ h. cc, λ h. cc)
is_state_open_iff state_open = (λ h. refl, λ h. refl)

asked_iff : (o : Option State) → (open_or_none o ≡ true) ↔ (state_or_closed o ≡ circuit_open)
unfolding open_or_none state_or_closed
asked_iff none = (λ h. cc, λ h. cc)
asked_iff (some st) = is_state_open_iff st

module _ (F : Float) (G : Gobreaker) where
  -- The answer about one worker depends on its breaker alone.
  ask-lookup :
      (now : ℕ) (id : String) (m : CircuitManager F G)
      → (ask F G now id m).0 ≡ Option.map (λ cb. (G.state now cb).0) (lookup id m.breakers)
  unfolding ask
  ask-lookup now id m = elim (Option-cases (lookup id m.breakers)) [
    | inl e ↦ rw (e, ask) refl
    | inr (cb, e) ↦ rw (e, ask) refl
  ]

  listed :
      (now : ℕ) (o : Option G.Breaker)
      → state_or_closed (Option.map (λ cb. (G.state now cb).0) o)
        ≡ elim (Option.map (λ cb. gobreaker_state_to_circuit_state (G.state now cb).0) o) [
          | none ↦ circuit_closed
          | some st ↦ st
        ]
  unfolding state_or_closed
  listed now none = refl
  listed now (some cb) = refl

  -- At any time `IsOpen`, `GetState` and `GetAllStates` agree: a worker's circuit is open exactly when
  -- its state is reported as open; the state is the one in the list of all states, and closed for a
  -- worker that is not in that list.
  pub get_state-is_open :
      (now : ℕ) (id : String) (m : CircuitManager F G)
      → (((is_open F G now id m).0 ≡ true) ↔ ((get_state F G now id m).0 ≡ circuit_open))
        × ((get_state F G now id m).0 ≡ elim (lookup id (get_all_states F G now m).0) [
          | none ↦ circuit_closed
          | some st ↦ st
        ])
  unfolding is_open get_state get_all_states
  get_state-is_open now id m =
      let all =
        lookup-map_values (λ cb. gobreaker_state_to_circuit_state (G.state now cb).0) id
          m.breakers in
      (
        asked_iff (ask F G now id m).0,
        rw (all, ask-lookup now id m) (listed now (lookup id m.breakers)),
      )

  -- The state that the breaker of a worker reports.
  abbrev reported : ℕ → Option G.Breaker → CircuitState
  reported now o = state_or_closed (Option.map (λ cb. (G.state now cb).0) o)

  get_state-lookup :
      (now : ℕ) (id : String) (m : CircuitManager F G)
      → (get_state F G now id m).0 ≡ reported now (lookup id m.breakers)
  unfolding get_state
  get_state-lookup now id m = ap state_or_closed (ask-lookup now id m)

  lookup-execute :
      (now : ℕ) (id j : String) (succeeds : Bool) (m : CircuitManager F G)
      → str_eq id j ≡ false
      → lookup j (execute F G now id succeeds m).1.breakers ≡ lookup j m.breakers
  unfolding execute get_or_create
  lookup-execute now id j succeeds m h =
      let cb = or_fresh F G m.config id (lookup id m.breakers) in
      let next = (G.execute now succeeds cb).1 in
      ground
        (arith, lookup-insert id j next (insert id cb m.breakers), lookup-insert id j cb m.breakers)

  reported-erase :
      (now : ℕ) (id j : String) (b : Bool) (o : Option G.Breaker)
      → reported now (if b then none else o) ≡ (if b then circuit_closed else reported now o)
  unfolding state_or_closed
  reported-erase now id j true o = refl
  reported-erase now id j false o = refl

  -- What is executed for one worker, or its removal, changes the reported state of that worker alone;
  -- a removed worker is reported as closed.
  pub get_state-execute :
      (now later : ℕ) (id j : String) (succeeds : Bool) (m : CircuitManager F G)
      → (str_eq id j ≡ false
          → (get_state F G later j (execute F G now id succeeds m).1).0
            ≡ (get_state F G later j m).0)
        × ((get_state F G later j (remove F G id m)).0
            ≡ (if str_eq id j then circuit_closed else (get_state F G later j m).0))
  unfolding remove
  get_state-execute now later id j succeeds m = (
    λ h.
        get_state-lookup later j (execute F G now id succeeds m).1
        ∙ ap (reported later) (lookup-execute now id j succeeds m h)
        ∙ sym (get_state-lookup later j m),
    get_state-lookup later j (remove F G id m)
        ∙ ap (reported later) (lookup-erase id j m.breakers)
        ∙ reported-erase later id j (str_eq id j) (lookup j m.breakers)
        ∙ ap (λ st. if str_eq id j then circuit_closed else st) (sym (get_state-lookup later j m)),
  )

pub data Call : Type 0 where
  executes : ℕ → String → Bool → Call
  asks_open asks_state : ℕ → String → Call
  asks_all : ℕ → Call
  removes : String → Call

abbrev pub is_execute : Call → Bool
is_execute (executes now id succeeds) = true
is_execute _ = false

module _ (F : Float) (G : Gobreaker) where
  unfoldable pub call : Call → CircuitManager F G → CircuitManager F G
  call (executes now id succeeds) m = (execute F G now id succeeds m).1
  call (asks_open now id) m = (is_open F G now id m).1
  call (asks_state now id) m = (get_state F G now id m).1
  call (asks_all now) m = (get_all_states F G now m).1
  call (removes id) m = remove F G id m

  unfoldable pub run_calls : List Call → CircuitManager F G → CircuitManager F G
  run_calls [] m = m
  run_calls (c ∷ cs) m = run_calls cs (call c m)

  call-empty :
      (c : Call) (m : CircuitManager F G)
      → is_execute c ≡ false
      → m.breakers ≡ []
      → (call c m).breakers ≡ []
  unfolding call is_open get_state ask get_all_states remove lookup erase map_values
  call-empty (executes now id succeeds) m h e = cc
  call-empty (asks_open now id) m h e = ground arith
  call-empty (asks_state now id) m h e = ground arith
  call-empty (asks_all now) m h e = ground arith
  call-empty (removes id) m h e = ground arith

  run_calls-empty :
      (cs : List Call) (m : CircuitManager F G)
      → All (λ c. is_execute c ≡ false) cs
      → m.breakers ≡ []
      → (run_calls cs m).breakers ≡ []
  unfolding run_calls
  run_calls-empty [] m h e = e
  run_calls-empty (c ∷ cs) m (h, hs) e = run_calls-empty cs (call c m) hs (call-empty c m h e)

  -- Only `Execute` makes a breaker: after any calls on a new manager that do not include it, no
  -- circuit is open, at any time and for any worker.
  pub is_open-run_calls :
      (config : CircuitConfig F) (cs : List Call) (now : ℕ) (id : String)
      → All (λ c. is_execute c ≡ false) cs
      → (is_open F G now id (run_calls cs (new_circuit_manager F G config))).0 ≡ false
  unfolding is_open open_or_none new_circuit_manager lookup
  is_open-run_calls config cs now id h =
      let empty : (run_calls cs (new_circuit_manager F G config)).breakers ≡ [] =
        run_calls-empty cs (new_circuit_manager F G config) h refl in
      rw (ask-lookup F G now id (run_calls cs (new_circuit_manager F G config))) (rw empty refl)
