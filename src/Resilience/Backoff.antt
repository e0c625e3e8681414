-- ===== src/Resilience/Backoff.antt =====
-- The package github.com/cenkalti/backoff as a parameter of the model of
-- internal/coordinator/resilience/retry.go.
use hybridgrid.Prelude.{Option, none, some, ◌≡◌}

-- What an operation under `backoff.Retry` gives: no error, one that `backoff.Permanent` wraps, or another.
pub data Signal (E : Type 0) : Type 0 where
  succeeded : Signal E
  permanent transient : E → Signal E

-- The documented ways for `backoff.Retry` to end with the error and the state `r`: at once when the
-- operation succeeds or its error is permanent; after any other error it gives up, with that error or the
-- context's, or calls the operation again.
pub data Runs {E S : Type 0} (step : S → Signal E × S) (r : Option E × S) : S → Type 0 where
  ends : (s : S) → (step s).0 ≡ succeeded → r ≡ (none, (step s).1) → Runs step r s
  stops : (s : S) (e : E) → (step s).0 ≡ permanent e → r ≡ (some e, (step s).1) → Runs step r s
  gives_up :
      (s : S) (e reason : E)
      → (step s).0 ≡ transient e
      → r ≡ (some reason, (step s).1)
      → Runs step r s
  again : (s : S) (e : E) → (step s).0 ≡ transient e → Runs step r (step s).1 → Runs step r s

-- `backoff.Retry` under one policy and one context.
pub record Backoff (E : Type 0) : Type 1 where
  pub retry : {S : Type 0} → (S → Signal E × S) → S → Option E × S
  pub retry-Runs : {S : Type 0} (step : S → Signal E × S) (s : S) → Runs step (retry step s) s
