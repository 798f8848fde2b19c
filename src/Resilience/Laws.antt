-- ===== src/Resilience/Laws.antt =====
-- How `retryConnect` ends, and how long it waits.
use Prim.Native.String.{◌++◌ as append}
use email_platform_services.Common.{
  ℕ, zero, suc, ◌+◌, ◌*◌, ◌-◌, ◌≤◌, ◌<◌, ◌≡◌, refl, ◌≢◌, ap, ◌∙◌, ◌⊎◌, inl, inr, String, arith,
  List, [], ◌∷◌, length, Outcome, ok, throws, Thrown, plain_error, Outcome-cases, state_after,
  outcome_at,
}
use native.Mathlib.Decide.{ℕ_discrete}
use email_platform_services.Resilience.{
  RetryOptions, Event, connected, waiting, Connection, connect_delay, error_text, failed_after,
  connect_from, retry_connect,
}

abbrev pub Fails : {A : Type 0} → Outcome A → Type 0
Fails o = (err : Thrown) × (o ≡ throws err)

-- The wait of an event, if it is one.
abbrev pub wait_of : Event → ℕ
wait_of connected = 0
wait_of (waiting attempt max_retries retry_in_ms) = retry_in_ms

abbrev pub total_wait : List Event → ℕ
total_wait [] = 0
total_wait (e ∷ es) = wait_of e + total_wait es

module _ {A S : Type 0} (show : ℕ → String) (name : String) (connect : S → Outcome A × S)
    (o : RetryOptions) (jitter : ℕ → ℕ) where
  -- How the attempts from `i` on ended: `failures` of them failed, then one connected, or it was the
  -- last and failed too. `within` has room for `connected`.
  pub record Ends (i : ℕ) (s : S) (r : Connection A S) : Type 0 where
    pub failures : ℕ
    pub within : i + failures ≤ o.max_retries
    pub failed : (j : ℕ) → j < failures → Fails (outcome_at connect j s)
    pub state : r.state ≡ state_after connect (suc failures) s
    pub last :
        ((a : A) × (outcome_at connect failures s ≡ ok a)
          × (r.outcome ≡ ok a)
          × (length r.events ≡ suc failures))
        ⊎ ((err : Thrown) × (outcome_at connect failures s ≡ throws err)
            × (i + failures ≡ o.max_retries)
            × (r.outcome
                ≡ throws (
                    plain_error
                      (append (failed_after show name o) (append ": " (error_text show err)))))
            × (length r.events ≡ failures))

  connect_from-ok :
      (left i : ℕ) (s : S) (a : A)
      → (connect s).0 ≡ ok a
      → connect_from show name connect o jitter (suc left) i s
        ≡ record { outcome = ok a; state = (connect s).1; events = connected ∷ [] }
  unfolding connect_from
  connect_from-ok left i s a e = ground arith

  connect_from-last :
      (left i : ℕ) (s : S) (err : Thrown)
      → (connect s).0 ≡ throws err
      → i ≡ o.max_retries
      → connect_from show name connect o jitter (suc left) i s ≡ record {
        outcome =
            throws
              (plain_error (append (failed_after show name o) (append ": " (error_text show err))));
        state = (connect s).1;
        events = [];
      }
  unfolding connect_from
  connect_from-last left i s err e h = ground arith

  connect_from-again :
      (left i : ℕ) (s : S) (err : Thrown)
      → (connect s).0 ≡ throws err
      → i ≢ o.max_retries
      → let rest = connect_from show name connect o jitter left (i + 1) (connect s).1 in
        connect_from show name connect o jitter (suc left) i s ≡ record rest {
          events = waiting i o.max_retries (connect_delay o (jitter i) i) ∷ rest.events;
        }
  unfolding connect_from
  connect_from-again left i s err e h = ground arith

  Ends-step :
      (i : ℕ) (s : S) (r rest : Connection A S) (e : Event) (err : Thrown)
      → (connect s).0 ≡ throws err
      → Ends (i + 1) (connect s).1 rest
      → r ≡ record rest { events = e ∷ rest.events }
      → Ends i s r
  Ends-step i s r rest e err f later same = record {
    failures = suc later.failures;
    within = omega (arith, later.within);
    failed = elim [ zero ↦ λ lt. (err, f) | suc j ↦ λ lt. later.failed j (omega arith) ];
    state = ap (λ q. q.state) same ∙ later.state;
    last = elim later.last [
      | inl (a, o, out, n) ↦
          inl (a, o, ap (λ q. q.outcome) same ∙ out, ap (λ q. length q.events) same ∙ ap suc n)
      | inr (err', o, at_end, out, n) ↦ inr (
        err',
        o,
        omega (arith, at_end),
        ap (λ q. q.outcome) same ∙ out,
        ap (λ q. length q.events) same ∙ ap suc n,
      )
    ];
  }

  connect_from-Ends :
      (left i : ℕ) (s : S)
      → i + left ≡ suc o.max_retries
      → 0 < left
      → Ends i s (connect_from show name connect o jitter left i s)
  connect_from-Ends zero i s e h = elim h [ ]
  connect_from-Ends (suc left) i s e h = elim (Outcome-cases (connect s).0) [
    | inl (a, settled) ↦ rw (connect_from-ok left i s a settled) (record {
      failures = 0;
      within = omega arith;
      failed = λ j lt. absurd (omega arith);
      state = refl;
      last = inl (a, settled, refl, refl);
    })
    | inr (err, settled) ↦ elim (ℕ_discrete i o.max_retries) [
      | yes at_end ↦ rw (connect_from-last left i s err settled at_end) (record {
        failures = 0;
        within = omega arith;
        failed = λ j lt. absurd (omega arith);
        state = refl;
        last = inr (err, settled, omega arith, refl, refl);
      })
      | no more ↦
          Ends-step i s _ _ _ err settled
            (connect_from-Ends left (i + 1) (connect s).1 (omega arith) (omega arith))
            (connect_from-again left i s err settled more)
    ]
  ]

  -- With a positive `maxRetries` connecting ends at the first attempt that does not fail, with what
  -- it gave, or with an error that names the last failure once all `maxRetries` attempts have
  -- failed. The state is that after these attempts, and each failed attempt but a last one is
  -- followed by one wait.
  pub retry_connect-Ends :
      (s : S) → 0 < o.max_retries → Ends 1 s (retry_connect show name connect o jitter s)
  unfolding retry_connect
  retry_connect-Ends s h = connect_from-Ends o.max_retries 1 s (omega arith) h

  module _ (drawn : (k : ℕ) → jitter k ≤ o.base_delay_ms) where
    connect_delay-le : (i : ℕ) → connect_delay o (jitter i) i ≤ o.max_delay_ms + o.base_delay_ms
    unfolding connect_delay
    connect_delay-le i = omega (arith, drawn i)

    connect_from-wait_le :
        (left i : ℕ) (s : S)
        → i + left ≡ suc o.max_retries
        → 0 < left
        → total_wait (connect_from show name connect o jitter left i s).events
          ≤ (left - 1) * (o.max_delay_ms + o.base_delay_ms)
    connect_from-wait_le zero i s e h = elim h [ ]
    connect_from-wait_le (suc left) i s e h = elim (Outcome-cases (connect s).0) [
      | inl (a, settled) ↦ rw (connect_from-ok left i s a settled) (omega arith)
      | inr (err, settled) ↦ elim (ℕ_discrete i o.max_retries) [
        | yes at_end ↦ rw (connect_from-last left i s err settled at_end) (omega arith)
        | no more ↦
            let rest =
              connect_from-wait_le left (i + 1) (connect s).1 (omega arith) (omega arith) in
            rw (connect_from-again left i s err settled more)
              (grind (arith, connect_delay-le i, rest))
      ]
    ]

    -- All waits together are at most `maxRetries - 1` times the longest delay plus the longest
    -- jitter, when `maxRetries` is positive.
    pub total_wait-retry_connect :
        (s : S)
        → 0 < o.max_retries
        → total_wait (retry_connect show name connect o jitter s).events
          ≤ (o.max_retries - 1) * (o.max_delay_ms + o.base_delay_ms)
    unfolding retry_connect
    total_wait-retry_connect s h = connect_from-wait_le o.max_retries 1 s (omega arith) h
