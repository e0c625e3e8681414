-- ===== src/Resilience/Retry.antt =====
-- `Retry`, `RetryWithResult` and `IsRetryable` of internal/coordinator/resilience/retry.go. An error is
-- known by what `errors.Is` and `status.FromError` say of it. Logging is left out.
use hybridgrid.Prelude.{Bool, true, false, Option, none, some, if◌then◌else◌}
use hybridgrid.Resilience.Backoff.{Signal, succeeded, permanent, transient, Backoff}

-- google.golang.org/grpc/codes
pub data Code : Type 0 where
  ok canceled unknown invalid_argument deadline_exceeded not_found already_exists : Code
  permission_denied resource_exhausted failed_precondition aborted out_of_range : Code
  unimplemented internal unavailable data_loss unauthenticated other_code : Code

unfoldable pub code_is_retryable : Code → Bool
code_is_retryable ok = false
code_is_retryable canceled = false
code_is_retryable invalid_argument = false
code_is_retryable not_found = false
code_is_retryable already_exists = false
code_is_retryable permission_denied = false
code_is_retryable failed_precondition = false
code_is_retryable unimplemented = false
code_is_retryable unauthenticated = false
code_is_retryable _ = true

-- An error, or else the error that came before.
unfoldable pub or_else : {E : Type 0} → Option E → Option E → Option E
or_else (some e) last = some e
or_else none last = last

-- What a call of the operation returns: Go has a value also beside an error.
pub record Returned (T E : Type 0) : Type 0 where
  pub value : T
  pub error : Option E

-- The variables that the function under `backoff.Retry` shares with `RetryWithResult`, and the
-- state of the world that the operation changes.
pub record Shared (S T E : Type 0) : Type 0 where
  pub world : S
  pub result : T
  pub last_err : Option E

module _ {E : Type 0} (is_context_error : E → Bool) (status_code : E → Option Code) where
  unfoldable pub is_retryable : E → Bool
  unfolding code_is_retryable
  is_retryable e =
      if is_context_error e
      then false
      else elim (status_code e) [ some c ↦ code_is_retryable c | none ↦ true ]

  unfoldable pub signal : Option E → Signal E
  signal none = succeeded
  signal (some e) = if is_retryable e then transient e else permanent e

  unfoldable pub retry_step : {S : Type 0} → (S → Option E × S) → S → Signal E × S
  unfolding signal
  retry_step operation s = let (err, s') = operation s in (signal err, s')

  unfoldable pub retry : Backoff E → {S : Type 0} → (S → Option E × S) → S → Option E × S
  unfolding retry_step
  retry backoff operation s = backoff.retry (retry_step operation) s

  -- `lastErr` is set when the operation fails, and never reset.
  unfoldable pub result_step :
      {S T : Type 0} → (S → Returned T E × S) → Shared S T E → Signal E × Shared S T E
  unfolding or_else signal
  result_step operation v =
      let (r, world') = operation v.world in
      (
        signal r.error,
        record { world = world'; result = r.value; last_err = or_else r.error v.last_err },
      )

  -- After `backoff.Retry`: its error if there is one, or else `lastErr`.
  unfoldable pub report : {S T : Type 0} → Option E × Shared S T E → Returned T E × S
  unfolding or_else
  report (err, v) = (record { value = v.result; error = or_else err v.last_err }, v.world)

  unfoldable pub retry_with_result :
      Backoff E → {S T : Type 0} → T → (S → Returned T E × S) → S → Returned T E × S
  unfolding result_step report
  retry_with_result backoff zero_value operation s = report (
      backoff.retry (result_step operation)
        (record { world = s; result = zero_value; last_err = none }))
