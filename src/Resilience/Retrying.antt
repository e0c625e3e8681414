-- ===== src/Resilience/Retrying.antt =====
-- What `Retry` and `RetryWithResult` of internal/coordinator/resilience/retry.go return.
use hybridgrid.Prelude.{
  ◌≡◌, refl, sym, ap, ◌∙◌, subst, Bool, true, false, Option, none, some, if◌then◌else◌,
}
use hybridgrid.Resilience.Backoff.{
  Signal, succeeded, permanent, transient, Runs, ends, stops, gives_up, again, Backoff,
}
use hybridgrid.Resilience.Retry.{
  Code, Returned, Shared, or_else, is_retryable, signal, retry_step, retry, result_step, report,
  retry_with_result,
}

or_else-none : {E : Type 0} (a b : Option E) → or_else a b ≡ none → (a ≡ none) × (b ≡ none)
unfolding or_else
or_else-none (some e) b h = absurd cc
or_else-none none b h = (refl, h)

module _ {E : Type 0} (is_context_error : E → Bool) (status_code : E → Option Code) where
  -- The states that the operation can be called in: after calls that ended in errors that are retried.
  pub data Retried {S : Type 0} (operation : S → Option E × S) (s : S) : S → Type 0 where
    first_call : Retried operation s s
    next_call :
        (s' : S) (e : E)
        → (operation s').0 ≡ some e
        → is_retryable is_context_error status_code e ≡ true
        → Retried operation s s'
        → Retried operation s (operation s').1

  as_succeeded :
      (b : Bool) (e : E)
      → (if◌then◌else◌ {A = Signal E} b (transient e) (permanent e)) ≡ succeeded
      → ⊥
  as_succeeded true e h = cc
  as_succeeded false e h = cc

  as_permanent :
      (b : Bool) (e' e : E)
      → (if◌then◌else◌ {A = Signal E} b (transient e') (permanent e')) ≡ permanent e
      → e' ≡ e
  as_permanent true e' e h = absurd cc
  as_permanent false e' e h = cc

  as_transient :
      (b : Bool) (e' e : E)
      → (if◌then◌else◌ {A = Signal E} b (transient e') (permanent e')) ≡ transient e
      → (b ≡ true) × (e' ≡ e)
  as_transient true e' e h = (refl, cc)
  as_transient false e' e h = absurd cc

  signal-succeeded :
      (err : Option E) → signal is_context_error status_code err ≡ succeeded → err ≡ none
  unfolding signal
  signal-succeeded none h = refl
  signal-succeeded (some e) h =
      absurd (as_succeeded (is_retryable is_context_error status_code e) e h)

  signal-permanent :
      (err : Option E) (e : E)
      → signal is_context_error status_code err ≡ permanent e
      → err ≡ some e
  unfolding signal
  signal-permanent none e h = absurd cc
  signal-permanent (some e') e h =
      ap some (as_permanent (is_retryable is_context_error status_code e') e' e h)

  signal-transient :
      (err : Option E) (e : E)
      → signal is_context_error status_code err ≡ transient e
      → (err ≡ some e) × (is_retryable is_context_error status_code e ≡ true)
  unfolding signal
  signal-transient none e h = absurd cc
  signal-transient (some e') e h =
      let (t, same) = as_transient (is_retryable is_context_error status_code e') e' e h in
      (ap some same, subst (λ x. is_retryable is_context_error status_code x ≡ true) same t)

  module _ {S T : Type 0} (operation : S → Returned T E × S) where
    -- The report of a first call that succeeds.
    abbrev pub at_once : S → Returned T E × S
    at_once s = let (r, s') = operation s in (record { value = r.value; error = none }, s')

    no_error :
        (out : Option E × Shared S T E) (v : Shared S T E)
        → Runs (result_step is_context_error status_code operation) out v
        → (report is_context_error status_code out).0.error ≡ none
        → (v.last_err ≡ none) × ((operation v.world).0.error ≡ none)
    unfolding report result_step or_else
    no_error out _ (ends v e r) h =
        let same : or_else (operation v.world).0.error v.last_err ≡ none =
          subst (λ o. (report is_context_error status_code o).0.error ≡ none) r h in
        let (err, last) = or_else-none (operation v.world).0.error v.last_err same in (last, err)
    no_error out _ (stops v e p r) h =
        let same : some e ≡ none =
          subst (λ o. (report is_context_error status_code o).0.error ≡ none) r h in
        absurd cc
    no_error out _ (gives_up v e reason p r) h =
        let same : some reason ≡ none =
          subst (λ o. (report is_context_error status_code o).0.error ≡ none) r h in
        absurd cc
    no_error out _ (again v e p more) h =
        let (last, later) =
          no_error out (result_step is_context_error status_code operation v).1 more h in
        let (none_here, before) = or_else-none (operation v.world).0.error v.last_err last in
        let (failed, retried) = signal-transient (operation v.world).0.error e p in absurd cc

    first_success :
        (out : Option E × Shared S T E) (v : Shared S T E)
        → Runs (result_step is_context_error status_code operation) out v
        → v.last_err ≡ none
        → (operation v.world).0.error ≡ none
        → report is_context_error status_code out ≡ at_once v.world
    unfolding report result_step or_else
    first_success out _ (ends v e r) h k =
        ap (report is_context_error status_code) r
        ∙ ap
            (λ err.
              (record { value = (operation v.world).0.value; error = err }, (operation v.world).1))
            (ap (λ err. or_else err v.last_err) k ∙ h)
    first_success out _ (stops v e p r) h k =
        let failed = signal-permanent (operation v.world).0.error e p in absurd cc
    first_success out _ (gives_up v e reason p r) h k =
        let (failed, retried) = signal-transient (operation v.world).0.error e p in absurd cc
    first_success out _ (again v e p more) h k =
        let (failed, retried) = signal-transient (operation v.world).0.error e p in absurd cc

    -- `RetryWithResult` returns without an error exactly if the first call of the operation succeeds; it
    -- then returns that call's value, and does not call the operation again. After a first call that
    -- fails an error is returned also where a later call succeeds.
    pub retry_with_result-none :
        (backoff : Backoff E) (zero_value : T) (s : S)
        → let out = retry_with_result is_context_error status_code backoff zero_value operation s in
          (out.0.error ≡ none → (operation s).0.error ≡ none)
          × ((operation s).0.error ≡ none → out ≡ at_once s)
    unfolding retry_with_result
    retry_with_result-none backoff zero_value s =
        let start : Shared S T E = record { world = s; result = zero_value; last_err = none } in
        let step : Shared S T E → Signal E × Shared S T E =
          result_step is_context_error status_code operation in
        let runs = backoff.retry-Runs step start in
        (
          λ h. (no_error (backoff.retry step start) start runs h).1,
          λ k. first_success (backoff.retry step start) start runs refl k,
        )

  -- How a run of `Retry` ended, with its last call of the operation.
  pub record Settled {S : Type 0} (operation : S → Option E × S) (s : S) (out : Option E × S)
      : Type 0 where
    pub last : S
    pub before : Retried operation s last
    pub state : out.1 ≡ (operation last).1
    pub no_error : out.0 ≡ none → (operation last).0 ≡ none
    pub success : (operation last).0 ≡ none → out.0 ≡ none
    pub final :
        (e : E)
        → (operation last).0 ≡ some e
        → is_retryable is_context_error status_code e ≡ false
        → out.0 ≡ some e

  settle :
      {S : Type 0} (operation : S → Option E × S) (s : S) (out : Option E × S) (s' : S)
      → Retried operation s s'
      → Runs (retry_step is_context_error status_code operation) out s'
      → Settled operation s out
  unfolding retry_step
  settle operation s out _ before (ends v e r) =
      let fine = signal-succeeded (operation v).0 e in
      record {
        last = v;
        before = before;
        state = ap (λ o. o.1) r;
        no_error = λ h. fine;
        success = λ h. ap (λ o. o.0) r;
        final = λ e' h k. absurd cc;
      }
  settle operation s out _ before (stops v e p r) =
      let failed = signal-permanent (operation v).0 e p in
      let error : out.0 ≡ some e = ap (λ o. o.0) r in
      record {
        last = v;
        before = before;
        state = ap (λ o. o.1) r;
        no_error = λ h. absurd cc;
        success = λ h. absurd cc;
        final = λ e' h k. error ∙ (sym failed ∙ h);
      }
  settle operation s out _ before (gives_up v e reason p r) =
      let (failed, retried) = signal-transient (operation v).0 e p in
      let error : out.0 ≡ some reason = ap (λ o. o.0) r in
      record {
        last = v;
        before = before;
        state = ap (λ o. o.1) r;
        no_error = λ h. absurd cc;
        success = λ h. absurd cc;
        final = λ e' h k. absurd cc;
      }
  settle operation s out _ before (again v e p more) =
      let (failed, retried) = signal-transient (operation v).0 e p in
      settle operation s out (operation v).1 (next_call v e failed retried before) more

  -- `Retry` ends with a call of the operation: all calls before it ended in errors that are retried. The
  -- state is the one after that call, no error is returned exactly if the call succeeded, and an error of
  -- it that is not retried is returned as it is.
  pub retry_lem :
      {S : Type 0} (backoff : Backoff E) (operation : S → Option E × S) (s : S)
      → Settled operation s (retry is_context_error status_code backoff operation s)
  unfolding retry
  retry_lem backoff operation s =
      settle operation s (backoff.retry (retry_step is_context_error status_code operation) s) s
        first_call (backoff.retry-Runs (retry_step is_context_error status_code operation) s)
