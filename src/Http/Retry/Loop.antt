-- ===== src/Http/Retry/Loop.antt =====
-- The loop of `DefaultRetryExecutor.run`, against the sequence of outcomes that the attempt gives.
use email_platform_services.Common.{
  state_after, outcome_at, ℕ, zero, suc, ◌+◌, ◌≤◌, ◌<◌, ◌≡◌, ap, ◌∙◌, subst, ◌⊎◌, inl, inr, true,
  false, arith, [], ◌∷◌, length, Outcome, ok, throws, Thrown, undefined, Outcome-cases, Bool-cases,
}
use native.Mathlib.Nat.{add-zero}
use email_platform_services.Http.Types.{RetryPolicy}
use email_platform_services.Http.Retry.{
  Doubles, Run, run, run_from, is_retryable, should_retry, backoff_with_jitter,
}
use email_platform_services.Http.Retry.Policy.{should_retry-lt, not_should_retry}

-- The outcome asks for another attempt.
abbrev pub IsTransient : {A : Type 0} → Outcome A → Type 0
IsTransient o = (err : Thrown) × (o ≡ throws err) × (is_retryable err ≡ true)

abbrev pub IsFinal : {A : Type 0} → ℕ → ℕ → Outcome A → Type 0
IsFinal {A} limit n o =
    ((a : A) × (o ≡ ok a))
    ⊎ ((err : Thrown) × (o ≡ throws err) × ((limit ≤ n) ⊎ (is_retryable err ≡ false)))

-- The run made `count + 1` attempts: all but the last were transient failures, the last settled
-- it, and a wait stands between each two.
pub record Settles {A S : Type 0} (attempt : S → Outcome A × S) (limit i : ℕ) (s : S) (r : Run A S)
    : Type 0 where
  pub count : ℕ
  pub within : i + count ≤ limit
  pub transient : (j : ℕ) → j < count → IsTransient (outcome_at attempt j s)
  pub final : IsFinal limit (i + count) (outcome_at attempt count s)
  pub outcome : r.outcome ≡ outcome_at attempt count s
  pub state : r.state ≡ state_after attempt (suc count) s
  pub sleeps : length r.sleeps ≡ count

module _ {A S : Type 0} (attempt : S → Outcome A × S) (limit i : ℕ) (s : S) where
  Settles-here :
      (r : Run A S)
      → i ≤ limit
      → IsFinal limit i (attempt s).0
      → r ≡ record { outcome = (attempt s).0; state = (attempt s).1; sleeps = [] }
      → Settles attempt limit i s r
  Settles-here r h f e = record {
    count = 0;
    within = omega arith;
    transient = λ j lt. absurd (omega arith);
    final = rw (add-zero i) f;
    outcome = ap (λ q. q.outcome) e;
    state = ap (λ q. q.state) e;
    sleeps = ap (λ q. length q.sleeps) e;
  }

  Settles-again :
      (r rest : Run A S) (wait : ℕ)
      → IsTransient (attempt s).0
      → Settles attempt limit (i + 1) (attempt s).1 rest
      → r ≡ record rest { sleeps = wait ∷ rest.sleeps }
      → Settles attempt limit i s r
  Settles-again r rest wait t later e = record {
    count = suc later.count;
    within = omega (arith, later.within);
    transient = elim [ zero ↦ λ lt. t | suc j ↦ λ lt. later.transient j (omega arith) ];
    final =
        subst (λ n. IsFinal limit n (outcome_at attempt later.count (attempt s).1)) (omega arith)
          later.final;
    outcome = ap (λ q. q.outcome) e ∙ later.outcome;
    state = ap (λ q. q.state) e ∙ later.state;
    sleeps = ap (λ q. length q.sleeps) e ∙ ap suc later.sleeps;
  }

module _ {A S : Type 0} (attempt : S → Outcome A × S) (policy : RetryPolicy) (doubles : Doubles)
    (random : ℕ → ℕ) where
  run_from-ok :
      (left i : ℕ) (last_err : Thrown) (s : S) (a : A)
      → (attempt s).0 ≡ ok a
      → run_from attempt policy doubles random (suc left) i last_err s
        ≡ record { outcome = (attempt s).0; state = (attempt s).1; sleeps = [] }
  unfolding run_from
  run_from-ok left i last_err s a e = ground arith

  run_from-throws :
      (left i : ℕ) (last_err : Thrown) (s : S) (err : Thrown)
      → (attempt s).0 ≡ throws err
      → should_retry err i policy ≡ false
      → run_from attempt policy doubles random (suc left) i last_err s
        ≡ record { outcome = (attempt s).0; state = (attempt s).1; sleeps = [] }
  unfolding run_from
  run_from-throws left i last_err s err e stop = ground arith

  run_from-again :
      (left i : ℕ) (last_err : Thrown) (s : S) (err : Thrown)
      → (attempt s).0 ≡ throws err
      → should_retry err i policy ≡ true
      → let rest = run_from attempt policy doubles random left (i + 1) err (attempt s).1 in
        run_from attempt policy doubles random (suc left) i last_err s
        ≡ record rest { sleeps = backoff_with_jitter doubles (random i) i policy ∷ rest.sleeps }
  unfolding run_from
  run_from-again left i last_err s err e again = ground arith

  -- A round below the last is followed by another only if the error is worth it.
  rounds_left :
      (left i : ℕ) → i + suc left ≡ suc policy.max_attempts → i < policy.max_attempts → 0 < left
  rounds_left left i e h = omega arith

  run_from-Settles :
      (left i : ℕ) (last_err : Thrown) (s : S)
      → i + left ≡ suc policy.max_attempts
      → 0 < left
      → Settles attempt policy.max_attempts i s
          (run_from attempt policy doubles random left i last_err s)
  run_from-Settles zero i last_err s e h = elim h [ ]
  run_from-Settles (suc left) i last_err s e h = elim (Outcome-cases (attempt s).0) [
    | inl (a, settled) ↦
        Settles-here attempt _ i s _ (omega arith) (inl (a, settled))
          (run_from-ok left i last_err s a settled)
    | inr (err, settled) ↦ elim (Bool-cases (should_retry err i policy)) [
      | inl again ↦
          let (below, transient) = should_retry-lt err i policy again in
          Settles-again attempt _ i s _ _ _ (err, settled, transient)
            (run_from-Settles left (i + 1) err (attempt s).1 (omega arith) (omega arith))
            (run_from-again left i last_err s err settled again)
      | inr stop ↦
          Settles-here attempt _ i s _ (omega arith)
            (inr (err, settled, not_should_retry err i policy stop))
            (run_from-throws left i last_err s err settled stop)
    ]
  ]

  -- With a positive budget the run ends at the first outcome that is no transient failure, or at
  -- the last of `maxAttempts`, and gives that outcome and the state then reached; all outcomes
  -- before it are transient failures, each followed by one wait, and none follows the last.
  pub run-Settles :
      (s : S)
      → 0 < policy.max_attempts
      → Settles attempt policy.max_attempts 1 s (run attempt policy doubles random s)
  unfolding run
  run-Settles s h = run_from-Settles policy.max_attempts 1 undefined s (omega arith) h

  -- A budget of zero makes no attempt, and throws `undefined`.
  pub run_no_attempts :
      (s : S)
      → policy.max_attempts ≡ 0
      → run attempt policy doubles random s
        ≡ record { outcome = throws undefined; state = s; sleeps = [] }
  unfolding run run_from
  run_no_attempts s e = rw e
