-- ===== src/Client/Retrying.antt =====
-- How often the client of internal/cli/build/build.go calls the coordinator, and with what result.
use hybridgrid.Prelude.{
  ℕ, zero, suc, ◌+◌, ◌-◌, ◌≤◌, ◌<◌, ◌≡◌, refl, sym, ◌∙◌, subst, inl, inr, true, false, Option, some,
  String, length, arith, Bool-cases, Option-cases, ◌==◌,
}
use hybridgrid.Prelude.Int.{ℤ, pos_part}
use hybridgrid.Coordinator.Messages.{CompileResponse, Reply, replies, breaks}
use hybridgrid.Client.Remote.{
  is_retryable_error, Attempts, after_wait, next_delay, given_up, waited, answered, compile_remote,
}

abbrev pub IsTransient : Reply CompileResponse → Type 0
IsTransient (replies resp) = ⊥
IsTransient (breaks text) = is_retryable_error text ≡ true

module _ (decimal : ℕ → String) (call : ℕ → Reply CompileResponse)
    (is_done : ℕ → Option String) where
  -- How the loop ended after its last call: with that call's reply, which is a response or an error that is
  -- not retried; with all attempts used; or with the context done during a wait.
  pub data Ended (most : ℕ) (a : Attempts) : Type 0 where
    settled : (k : ℕ) → a.calls ≡ k + 1 → a.reply ≡ call k → ¬ IsTransient (call k) → Ended most a
    used_up :
        (k : ℕ) (text : String)
        → a.calls ≡ k + 1
        → a.calls ≡ most
        → call k ≡ breaks text
        → a.reply ≡ given_up decimal call is_done (k + 1) text
        → Ended most a
    cancelled :
        (reason : String) → is_done a.calls ≡ some reason → a.reply ≡ breaks reason → Ended most a

  -- The loop from attempt `first` on.
  pub record Tried (most first : ℕ) (a : Attempts) : Type 0 where
    pub some_call : first < a.calls
    pub bound : a.calls ≤ most
    pub waits : length a.waits + first + 1 ≡ a.calls
    pub transient : (j : ℕ) → first ≤ j → j + 1 < a.calls → IsTransient (call j)
    pub ended : Ended most a

  stopped :
      (k : ℕ) (text : String)
      → call k ≡ breaks text
      → is_retryable_error text ≡ false
      → ¬ IsTransient (call k)
  stopped k text e f t = let t' : is_retryable_error text ≡ true = rw e at t in cc

  Ended-wait :
      (most most' : ℕ) (delay : ℤ) (a : Attempts)
      → most ≡ most'
      → Ended most a
      → Ended most' (after_wait delay a)
  unfolding after_wait
  Ended-wait most most' delay a e (settled k c r s) = settled k c r s
  Ended-wait most most' delay a e (used_up k text c m r g) = used_up k text c (m ∙ e) r g
  Ended-wait most most' delay a e (cancelled reason d r) = cancelled reason d r

  -- An error that is retried, a wait, and what follows.
  one_more :
      (left first : ℕ) (delay : ℤ) (text : String)
      → call first ≡ breaks text
      → is_retryable_error text ≡ true
      → (a : Attempts) → Tried (left + (first + 1) + 1) (first + 1) a
      → Tried (suc left + first + 1) first (after_wait delay a)
  unfolding after_wait
  one_more left first delay text e t a h = record {
    some_call = omega (arith, h.some_call);
    bound = omega (arith, h.bound);
    waits = omega (arith, h.waits);
    transient = λ j p q. elim (Bool-cases (j == first)) [
      | inl same ↦
          let here : IsTransient (call first) = rw e t in
          let at_first : first ≡ j = ground arith in subst (λ k. IsTransient (call k)) at_first here
      | inr later ↦ h.transient j (ground arith) q
    ];
    ended =
        Ended-wait (left + (first + 1) + 1) (suc left + first + 1) delay a (omega arith) h.ended;
  }

  answered-Tried :
      (left first : ℕ) (delay : ℤ) (r : Reply CompileResponse)
      → call first ≡ r
      → Tried (left + first + 1) first (answered decimal call is_done left first delay r)
  unfolding answered
  answered-Tried left first delay (replies resp) e = record {
    some_call = omega arith;
    bound = omega arith;
    waits = omega arith;
    transient = λ j h k. absurd (omega arith);
    ended = settled first refl (sym e) (λ t. rw e at t);
  }
  answered-Tried zero first delay (breaks text) e = record {
    some_call = omega arith;
    bound = omega arith;
    waits = omega arith;
    transient = λ j h k. absurd (omega arith);
    ended = elim (Bool-cases (is_retryable_error text)) [
      | inl t ↦ rw t (used_up first text refl (omega arith) e refl)
      | inr f ↦ rw f (settled first refl (sym e) (stopped first text e f))
    ];
  }
  answered-Tried (suc left) first delay (breaks text) e =
      elim (Bool-cases (is_retryable_error text)) [
        | inr f ↦
            rw (f, answered)
              (record {
                some_call = omega arith;
                bound = omega arith;
                waits = omega arith;
                transient = λ j h k. absurd (omega arith);
                ended = settled first refl (sym e) (stopped first text e f);
              })
        | inl t ↦ elim (Option-cases (is_done (first + 1))) [
          | inr (reason, d) ↦
              rw (t, answered)
                (rw (d, waited)
                  (record {
                    some_call = omega arith;
                    bound = omega arith;
                    waits = omega arith;
                    transient = λ j h k. absurd (omega arith);
                    ended = cancelled reason d refl;
                  }))
          | inl d ↦
              rw (t, answered)
                (rw (d, waited)
                  (one_more left first delay text e t
                    (answered decimal call is_done left (first + 1) (next_delay delay)
                      (call (first + 1)))
                    (answered-Tried left (first + 1) (next_delay delay) (call (first + 1)) refl)))
        ]
      ]

  -- With n as the limit on retries, the coordinator is called once at least and max(1, n) times at most. Every call
  -- but the last ended in an error that is retried. The loop ends with the reply of the last call, a
  -- response or an error that is not retried; or with an error when all attempts are used; or
  -- with the error of the context, where that is done during a wait. There is one wait between two calls.
  pub compile_remote_lem :
      (max_retries : ℤ) (delay : ℤ)
      → Tried
          (pos_part max_retries - 1 + 0 + 1)
          0
          (compile_remote decimal call is_done max_retries delay)
  unfolding compile_remote
  compile_remote_lem max_retries delay =
      answered-Tried (pos_part max_retries - 1) 0 delay (call 0) refl
