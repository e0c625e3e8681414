-- ===== src/Tests/RetryRuns.antt =====
-- An operation that fails once and succeeds at its second call, under a policy of two calls.
use hybridgrid.Prelude.{
  ℕ, zero, suc, ◌≡◌, refl, Bool, false, String, Option, none, some, sym, ap, subst,
}
use hybridgrid.Resilience.Backoff.{
  Signal, succeeded, permanent, transient, Runs, ends, stops, gives_up, again, Backoff,
}
use hybridgrid.Resilience.Retry.{
  Code, unavailable, Returned, is_retryable, retry, retry_with_result,
}
use hybridgrid.Resilience.Retrying.{Settled, retry_lem, retry_with_result-none, at_once}

-- Whether an error comes from the context, and its code.
abbrev is_context_error : String → Bool
is_context_error text = false

abbrev status_code : String → Option Code
status_code text = some unavailable

-- A policy of `retries` calls after the first.
turn : {S : Type 0} → ℕ → (S → Signal String × S) → Signal String × S → Option String × S
turn retries step (succeeded, s) = (none, s)
turn retries step (permanent e, s) = (some e, s)
turn zero step (transient e, s) = (some e, s)
turn (suc retries) step (transient e, s) = turn retries step (step s)

turn-Runs :
    {S : Type 0} (retries : ℕ) (step : S → Signal String × S) (s : S) (out : Signal String × S)
    → step s ≡ out
    → Runs step (turn retries step out) s
unfolding turn
turn-Runs retries step s (succeeded, s') e =
    ends s (ap (λ o. o.0) e) (ap (λ o. (none, o.1)) (sym e))
turn-Runs retries step s (permanent text, s') e =
    stops s text (ap (λ o. o.0) e) (ap (λ o. (some text, o.1)) (sym e))
turn-Runs zero step s (transient text, s') e =
    gives_up s text text (ap (λ o. o.0) e) (ap (λ o. (some text, o.1)) (sym e))
turn-Runs (suc retries) step s (transient text, s') e = again s text (ap (λ o. o.0) e) (
    subst (λ x. Runs step (turn retries step (step s')) x) (ap (λ o. o.1) (sym e))
      (turn-Runs retries step s' (step s') refl))

abbrev policy : Backoff String
policy = record {
  retry = λ step s. turn 1 step (step s);
  retry-Runs = λ step s. turn-Runs 1 step s (step s) refl;
}

-- The state counts the calls.
abbrev operation : ℕ → Returned ℕ String × ℕ
operation zero = (record { value = 0; error = some "unavailable" }, 1)
operation (suc k) = (record { value = 7; error = none }, suc (suc k))

abbrev plain : ℕ → Option String × ℕ
plain s = ((operation s).0.error, (operation s).1)

-- The second call succeeds, and the error of the first is returned beside its value.
second_value :
    retry_with_result is_context_error status_code policy 0 operation 0
    ≡ (record { value = 7; error = some "unavailable" }, 2)
unfolding retry_with_result turn is_retryable
second_value = refl

retry_with_result-none_example :
    let out = retry_with_result is_context_error status_code policy 0 operation 0 in
    (out.0.error ≡ none → (operation 0).0.error ≡ none)
    × ((operation 0).0.error ≡ none → out ≡ at_once is_context_error status_code operation 0)
retry_with_result-none_example =
    retry_with_result-none is_context_error status_code operation policy 0 0

retry_lem_example :
    Settled is_context_error status_code plain 0 (retry is_context_error status_code policy plain 0)
retry_lem_example = retry_lem is_context_error status_code policy plain 0
