-- ===== src/Client/Remote.antt =====
-- The calls of the coordinator in internal/cli/build/build.go: the arguments that are sent, and the loop
-- of attempts that `compileRemotePreprocessed` and `compileRemoteRaw` share. The call itself and
-- the context are parameters: what the call gives at each attempt, and whether the context is done when
-- the attempt would wait.
use hybridgrid.Prelude.{
  ℕ, zero, suc, ◌+◌, ◌-◌, String, Bool, ◌||◌, List, [], ◌∷◌, ◌++◌, if◌then◌else◌, is_empty, Option,
  none, some, keep, not,
}
use Prim.Native.String.{◌++◌ as append}
use hybridgrid.Prelude.Text.{points, has_prefix, has_part, any}
use hybridgrid.Prelude.Int.{ℤ, pos, pos_part, ltb_ℤ, wrap64, ◌*ℤ◌}
use hybridgrid.Compiler.Files.{Bytes}
use hybridgrid.Compiler.Args.{ParsedArgs}
use hybridgrid.Coordinator.Messages.{CompileResponse, Reply, replies, breaks}

unfoldable pub is_retryable_error : String → Bool
unfolding has_part any
is_retryable_error text =
    any (λ part. has_part (points text) (points part))
      ("connection" ∷ "timeout" ∷ "deadline" ∷ "unavailable" ∷ "reset" ∷ "EOF" ∷ [])

unfoldable pub standard_args : Bytes → List Bytes
standard_args standard = if is_empty standard then [] else (points "-std=" ++ standard) ∷ []

-- The flags without those that the preprocessor has used up.
unfoldable pub build_remote_args : ParsedArgs → List Bytes
unfolding keep has_prefix standard_args
build_remote_args args =
    points "-c"
    ∷ (keep (λ flag. not (has_prefix flag (points "-I") || has_prefix flag (points "-D")))
          args.flags
        ++ standard_args args.standard)

unfoldable pub build_remote_args_for_raw : ParsedArgs → List Bytes
unfolding standard_args
build_remote_args_for_raw args = points "-c" ∷ (args.flags ++ standard_args args.standard)

-- `delay *= 2`, at most five seconds.
unfoldable pub next_delay : ℤ → ℤ
next_delay delay =
    let doubled = wrap64 (delay *ℤ pos 2) in
    if ltb_ℤ (pos 5000000000) doubled then pos 5000000000 else doubled

-- How the loop ends, and the waits between its attempts.
pub record Attempts : Type 0 where
  pub reply : Reply CompileResponse
  pub calls : ℕ
  pub waits : List ℤ

unfoldable pub after_wait : ℤ → Attempts → Attempts
after_wait delay a = record a { waits = delay ∷ a.waits }

module _ (decimal : ℕ → String) (call : ℕ → Reply CompileResponse)
    (is_done : ℕ → Option String) where
  -- The error after the last attempt; `decimal` stands for the `%d` of fmt.
  unfoldable pub given_up : ℕ → String → Reply CompileResponse
  given_up attempts last = breaks (
      append "remote compilation failed after "
        (append (decimal attempts) (append " attempts: " last)))

  -- Before the next attempt: the context may be done during the wait, which ends the loop.
  unfoldable pub waited : ℕ → ℤ → Option String → Attempts → Attempts
  unfolding after_wait
  waited attempt delay (some reason) more = record {
    reply = breaks reason;
    calls = attempt + 1;
    waits = [];
  }
  waited attempt delay none more = after_wait delay more

  -- An attempt was made, with this reply; `left` more are allowed.
  unfoldable pub answered : (left attempt : ℕ) → ℤ → Reply CompileResponse → Attempts
  unfolding waited given_up
  answered left attempt delay (replies resp) = record {
    reply = replies resp;
    calls = attempt + 1;
    waits = [];
  }
  answered zero attempt delay (breaks text) = record {
    reply = if is_retryable_error text then given_up (attempt + 1) text else breaks text;
    calls = attempt + 1;
    waits = [];
  }
  answered (suc left) attempt delay (breaks text) =
      let more = answered left (attempt + 1) (next_delay delay) (call (attempt + 1)) in
      if is_retryable_error text
      then waited attempt delay (is_done (attempt + 1)) more
      else record { reply = breaks text; calls = attempt + 1; waits = [] }

  -- `maxRetries`, at least one attempt.
  unfoldable pub compile_remote : (max_retries : ℤ) → ℤ → Attempts
  unfolding answered
  compile_remote max_retries delay = answered (pos_part max_retries - 1) 0 delay (call 0)
