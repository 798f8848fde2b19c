-- ===== src/Http/Client/Laws.antt =====
-- What a request does: nothing on an open circuit, and a bounded number of fetches otherwise.
use email_platform_services.Common.{
  state_after, ℕ, zero, suc, ◌+◌, ◌≤◌, ◌<◌, get_or, if◌then◌else◌, ◌≡◌, refl, ap, ◌∙◌, String, true,
  false, some, arith, Outcome, ok, throws, circuit_open_error, undefined, Outcome-cases,
  Option-cases, inl, inr,
}
use native.Mathlib.Decide.{dec_lt}
use email_platform_services.Http.Types.{HttpMethod, HttpCallOpts, CbOptions, RetryPolicy}
use email_platform_services.Http.Retry.{Doubles, run, resolve_retry_policy, is_idempotent}
use email_platform_services.Http.Retry.Loop.{run-Settles, run_no_attempts}
use email_platform_services.Http.Breaker.{
  Opossum, Adapter, Shared, fire, on_failure, relabel, mentions_open, message,
}
use email_platform_services.Http.Breaker.Laws.{fire_opened, fire_ok, fire_throws, admitted}
use email_platform_services.Http.Executor.{RequestInit, Response, Host, Endpoint, LogLine, execute}
use email_platform_services.Http.Executor.Laws.{measure-execute}
use email_platform_services.Http.Client.{retried, respond, request}

-- What is counted on a state grows by one with each fetch, and with nothing else that the client
-- does, so that its difference counts the fetches of a call which no other call overlaps.
pub record CountsFetches {B W : Type 0} (host : Host (Shared B W)) (fetches : W → ℕ) : Type 0 where
  pub fetch :
      (url : String) (init : RequestInit) (s : Shared B W)
      → fetches (host.fetch url init s).1.world ≡ fetches s.world + 1
  pub emit : (l : LogLine) (s : Shared B W) → fetches (host.emit l s).world ≡ fetches s.world

module _ (lib : Opossum) (show : ℕ → String) (cb : CbOptions) {W J : Type 0}
    (host : Host (Shared lib.Breaker W)) (endpoint : Endpoint) (doubles : Doubles) (random : ℕ → ℕ)
    (json : Response → Outcome J) (method : HttpMethod) (path : String) (init : RequestInit)
    (opts : HttpCallOpts) where
  abbrev action : Shared lib.Breaker W → Outcome Response × Shared lib.Breaker W
  action = retried lib show cb host endpoint doubles random json method path init opts

  -- On an open circuit a request changes nothing, so it fetches and logs nothing, and throws
  -- `CircuitOpenError`.
  pub request_opened :
      (s : Shared lib.Breaker W)
      → lib.is_opened s.adapter.breaker ≡ true
      → request lib show cb host endpoint doubles random json method path init opts s
        ≡ (throws (circuit_open_error endpoint.log_context), s)
  unfolding request
  request_opened s e =
      ap (respond lib show cb host endpoint doubles random json)
        (fire_opened lib show cb endpoint.log_context action s e)

  module _ (fetches : W → ℕ) (c : CountsFetches host fetches) where
    execute-fetches :
        (s : Shared lib.Breaker W)
        → fetches (execute host endpoint method path init opts s).1.world ≡ fetches s.world + 1
    execute-fetches s =
        measure-execute host endpoint method path init opts s (λ t. fetches t.world) c.emit
        ∙ c.fetch _ _ s

    state_after-fetches :
        (k : ℕ) (s : Shared lib.Breaker W)
        → fetches (state_after (execute host endpoint method path init opts) k s).world
          ≡ fetches s.world + k
    state_after-fetches zero s = omega arith
    state_after-fetches (suc k) s = omega (
      arith,
      execute-fetches s,
      state_after-fetches k (execute host endpoint method path init opts s).1,
    )

    run-fetches-le :
        (policy : RetryPolicy) (s : Shared lib.Breaker W)
        → fetches
            (run (execute host endpoint method path init opts) policy doubles random s).state.world
          ≤ fetches s.world + policy.max_attempts
    run-fetches-le policy s = elim (dec_lt 0 policy.max_attempts) [
      | no none_left ↦
          rw
            (run_no_attempts (execute host endpoint method path init opts) policy doubles random s
              (omega arith))
            (omega arith)
      | yes some_left ↦
          let r =
            run-Settles (execute host endpoint method path init opts) policy doubles random s
              some_left in
          rw r.state (omega (arith, r.within, state_after-fetches (suc r.count) s))
    ]

  pub respond-state :
      (p : Outcome Response × Shared lib.Breaker W)
      → (respond lib show cb host endpoint doubles random json p).1 ≡ p.1
  unfolding respond
  respond-state (throws err, s) = refl
  respond-state (ok res, s) = refl

  -- The world after a call through the breaker is that after its action, if it ran.
  fire-world :
      (s : Shared lib.Breaker W) (P : W → Type 0)
      → P s.world
      → ((b : lib.Breaker)
          → P (action (admitted lib show cb endpoint.log_context action s b)).1.world)
      → P (fire lib show cb endpoint.log_context action s).1.world
  unfolding fire
  fire-world s P kept ran = elim (Option-cases (lib.start s.adapter.breaker)) [
    | inl none_started ↦ rw (none_started, fire) kept
    | inr (b, started) ↦
        elim (Outcome-cases (action (admitted lib show cb endpoint.log_context action s b)).0) [
          | inl (r, e) ↦
              rw (fire_ok lib show cb endpoint.log_context action s b started r e) (ran b)
          | inr (err, e) ↦
              rw (fire_throws lib show cb endpoint.log_context action s b started err e) (ran b)
        ]
  ]

  module _ (fetches : W → ℕ) (c : CountsFetches host fetches) where
    -- A request fetches at most as often as its budget says: once, unless the method is GET or
    -- HEAD or the call says `idempotent: true`, and then `retries` times, three by default. (No
    -- other call overlaps it.)
    pub request-fetches-le :
        (s : Shared lib.Breaker W)
        → fetches
            (request lib show cb host endpoint doubles random json method path init opts s).1.world
          ≤ fetches s.world + (if is_idempotent method opts then get_or opts.retries 3 else 1)
    unfolding request retried resolve_retry_policy
    request-fetches-le s = rw (respond-state (fire lib show cb endpoint.log_context action s)) (
        fire-world s
          (λ w. fetches w ≤ fetches s.world + (resolve_retry_policy method opts).max_attempts)
          (omega arith)
          (λ b.
            run-fetches-le fetches c (resolve_retry_policy method opts)
              (admitted lib show cb endpoint.log_context action s b)))

  retried_zero :
      (s : Shared lib.Breaker W)
      → is_idempotent method opts ≡ true
      → opts.retries ≡ some 0
      → action s ≡ (throws undefined, s)
  unfolding retried resolve_retry_policy
  retried_zero s idem budget =
      let none_left : (resolve_retry_policy method opts).max_attempts ≡ 0 =
        ground (arith, idem, budget) in
      ap (λ r. (r.outcome, r.state))
        (run_no_attempts (execute host endpoint method path init opts)
          (resolve_retry_policy method opts) doubles random s none_left)

  counted_once :
      (a : Adapter lib.Breaker)
      → lib.is_half_open a.breaker ≡ false
      → suc a.consecutive_failures < cb.consecutive_threshold
      → on_failure lib cb a ≡ record a { consecutive_failures = suc a.consecutive_failures }
  unfolding on_failure
  counted_once a h below = ground (arith, h)

  relabel_undefined :
      (b : lib.Breaker)
      → lib.is_opened b ≡ false
      → relabel lib show endpoint.log_context b undefined ≡ undefined
  unfolding relabel mentions_open message
  relabel_undefined b h = ground (arith, h)

  -- On a closed circuit that one failure more does not bring to its threshold, a repeatable call with
  -- `retries: 0` makes no fetch and leaves the world alone, throws `undefined`, and counts as a
  -- failure of the circuit.
  pub request_zero_retries :
      (s : Shared lib.Breaker W)
      → is_idempotent method opts ≡ true
      → opts.retries ≡ some 0
      → lib.is_opened s.adapter.breaker ≡ false
      → lib.is_half_open s.adapter.breaker ≡ false
      → suc s.adapter.consecutive_failures < cb.consecutive_threshold
      → request lib show cb host endpoint doubles random json method path init opts s ≡ (
        throws undefined,
        record s {
          adapter = record (s.adapter) {
            consecutive_failures = suc s.adapter.consecutive_failures;
          };
        },
      )
  unfolding request respond
  request_zero_retries s idem budget not_open not_half below =
      let nothing = retried_zero s idem budget in
      let left =
        ap (λ p. on_failure lib cb p.1.adapter) nothing ∙ counted_once s.adapter not_half below in
      let call =
        fire_throws lib show cb endpoint.log_context action s s.adapter.breaker
          (lib.start_closed _ not_open not_half) undefined (ap (λ p. p.0) nothing) in
      rw
        (
          call,
          left,
          ap (λ p. p.1.world) nothing,
          lib.settle_closed _ not_half,
          relabel_undefined _ not_open,
        )
        refl
