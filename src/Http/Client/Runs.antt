-- ===== src/Http/Client/Runs.antt =====
-- Whole requests that overlap: what they do to the breaker that they share.
use email_platform_services.Common.{
  state_after, ℕ, zero, suc, ◌+◌, ◌<◌, ◌≤◌, ◌≡◌, refl, sym, subst, String, true, false, arith, none,
  some, ◌⊎◌, inl, inr, Outcome, ok, throws, Thrown, circuit_open_error, Outcome-cases, Option-cases,
}
use native.Mathlib.Decide.{dec_lt}
use email_platform_services.Http.Types.{HttpMethod, HttpCallOpts, CbOptions, RetryPolicy}
use email_platform_services.Http.Retry.{Doubles, run, resolve_retry_policy}
use email_platform_services.Http.Retry.Loop.{run-Settles, run_no_attempts}
use email_platform_services.Http.Breaker.{Opossum, Adapter, Shared, fire, relabel}
use email_platform_services.Http.Breaker.Laws.{admitted, on_failure-cases, fire_ok, fire_throws}
use email_platform_services.Http.Breaker.Runs.{Reach, here, Reach-append}
use email_platform_services.Http.Executor.{RequestInit, Response, Host, Endpoint, LogLine, execute}
use email_platform_services.Http.Executor.Laws.{measure-execute}
use email_platform_services.Http.Client.{retried, request, respond}
use email_platform_services.Http.Client.Laws.{respond-state}

-- While a fetch is in flight other calls may start and settle on the breaker, and its timer may
-- elapse; writing a log line leaves it alone.
pub record Overlaps (lib : Opossum) (cb : CbOptions) {W : Type 0}
    (host : Host (Shared lib.Breaker W)) : Type 0 where
  pub fetch :
      (url : String) (init : RequestInit) (s : Shared lib.Breaker W)
      → Reach lib cb s.adapter (host.fetch url init s).1.adapter
  pub emit : (l : LogLine) (s : Shared lib.Breaker W) → (host.emit l s).adapter ≡ s.adapter

-- What the adapter, and the caller, get when the action of a call has settled and left the adapter
-- as `a`: a success clears the count; a failure on a breaker that is not half open and that it does
-- not bring to the threshold adds one to it; any other failure opens the circuit with a fresh count
-- and is `CircuitOpenError` to the caller.
pub data Settled (lib : Opossum) (cb : CbOptions) (api : String) (a : Adapter lib.Breaker)
    : Outcome Response → Outcome Response → Adapter lib.Breaker → Type 0 where
  cleared :
      (res : Response)
      → Settled lib cb api a
          (ok res)
          (ok res)
          (record { breaker = lib.settle a.breaker; consecutive_failures = 0 })
  counted :
      (err shown : Thrown)
      → lib.is_half_open a.breaker ≡ false
      → a.consecutive_failures + 1 < cb.consecutive_threshold
      → Settled lib cb api a (throws err) (throws shown) (record {
        breaker = lib.settle a.breaker;
        consecutive_failures = a.consecutive_failures + 1;
      })
  tripped :
      (err : Thrown) (b : lib.Breaker)
      → (lib.is_half_open a.breaker ≡ true)
        ⊎ (cb.consecutive_threshold ≤ a.consecutive_failures + 1)
      → lib.is_opened b ≡ true
      → Settled lib cb api a
          (throws err)
          (throws (circuit_open_error api))
          (record { breaker = b; consecutive_failures = 0 })

relabel_opened :
    (lib : Opossum) (show : ℕ → String) (api : String) (b : lib.Breaker) (err : Thrown)
    → lib.is_opened b ≡ true
    → relabel lib show api b err ≡ circuit_open_error api
unfolding relabel
relabel_opened lib show api b err shut = rw (shut) refl

fire_rejected :
    (lib : Opossum) (show : ℕ → String) (cb : CbOptions) (api : String) {W : Type 0}
    (inner : Shared lib.Breaker W → Outcome Response × Shared lib.Breaker W)
    (s : Shared lib.Breaker W)
    → lib.start s.adapter.breaker ≡ none
    → fire lib show cb api inner s
      ≡ (throws (relabel lib show api s.adapter.breaker lib.rejection), s)
unfolding fire
fire_rejected lib show cb api inner s none_started = rw (none_started, fire) refl

module _ (lib : Opossum) (show : ℕ → String) (cb : CbOptions) (api : String) {W : Type 0}
    (inner : Shared lib.Breaker W → Outcome Response × Shared lib.Breaker W)
    (s : Shared lib.Breaker W) (b : lib.Breaker)
    (started : lib.start s.adapter.breaker ≡ some b) where
  abbrev left : Outcome Response × Shared lib.Breaker W
  left = inner (admitted lib show cb api inner s b)

  settled_counted :
      (err : Thrown)
      → left.0 ≡ throws err
      → Settled lib cb api
          (left.1.adapter)
          (throws err)
          (fire lib show cb api inner s).0
          (fire lib show cb api inner s).1.adapter
  settled_counted err e =
      let a = left.1.adapter in
      elim (on_failure-cases lib cb a) [
        | inl (same, reason) ↦
            rw
              (
                fire_throws lib show cb api inner s b started err e,
                same,
                lib.settle_opened _ (lib.trip_opened a.breaker),
                relabel_opened lib show api (lib.trip a.breaker) err (lib.trip_opened a.breaker),
              )
              (tripped err (lib.trip a.breaker) reason (lib.trip_opened a.breaker))
        | inr (same, not_half, below) ↦
            rw (fire_throws lib show cb api inner s b started err e, same)
              (counted err _ not_half below)
      ]

  fire-Settled :
      Settled lib cb api
        (left.1.adapter)
        left.0
        (fire lib show cb api inner s).0
        (fire lib show cb api inner s).1.adapter
  fire-Settled = elim (Outcome-cases left.0) [
    | inl (res, e) ↦ rw (fire_ok lib show cb api inner s b started res e, e) (cleared res)
    | inr (err, e) ↦
        subst
          (λ o.
            Settled lib cb api (left.1.adapter) o (fire lib show cb api inner s).0
              (fire lib show cb api inner s).1.adapter)
          (sym e) (settled_counted err e)
  ]

module _ (lib : Opossum) (show : ℕ → String) (cb : CbOptions) {W J : Type 0}
    (host : Host (Shared lib.Breaker W)) (endpoint : Endpoint) (doubles : Doubles) (random : ℕ → ℕ)
    (json : Response → Outcome J) (method : HttpMethod) (path : String) (init : RequestInit)
    (opts : HttpCallOpts) (overlaps : Overlaps lib cb host) where
  abbrev attempt : Shared lib.Breaker W → Outcome Response × Shared lib.Breaker W
  attempt = execute host endpoint method path init opts

  execute-Reach : (s : Shared lib.Breaker W) → Reach lib cb s.adapter (attempt s).1.adapter
  execute-Reach s =
      subst (Reach lib cb s.adapter)
        (sym (measure-execute host endpoint method path init opts s (λ t. t.adapter) overlaps.emit))
        (overlaps.fetch _ _ s)

  state_after-Reach :
      (k : ℕ) (s : Shared lib.Breaker W) → Reach lib cb s.adapter (state_after attempt k s).adapter
  state_after-Reach zero s = here s.adapter
  state_after-Reach (suc k) s =
      Reach-append lib cb s.adapter (attempt s).1.adapter _ (execute-Reach s)
        (state_after-Reach k (attempt s).1)

  run-Reach :
      (policy : RetryPolicy) (s : Shared lib.Breaker W)
      → Reach lib cb s.adapter (run attempt policy doubles random s).state.adapter
  run-Reach policy s = elim (dec_lt 0 policy.max_attempts) [
    | no none_left ↦
        rw (run_no_attempts attempt policy doubles random s (omega arith)) (here s.adapter)
    | yes some_left ↦
        let r = run-Settles attempt policy doubles random s some_left in
        rw r.state (state_after-Reach (suc r.count) s)
  ]

  respond-outcome :
      (p : Outcome Response × Shared lib.Breaker W)
      → (respond lib show cb host endpoint doubles random json p).0
        ≡ elim p.0 [ ok res ↦ json res | throws err ↦ throws err ]
  unfolding respond
  respond-outcome (ok res, s) = refl
  respond-outcome (throws err, s) = refl

  abbrev action : Shared lib.Breaker W → Outcome Response × Shared lib.Breaker W
  action = retried lib show cb host endpoint doubles random json method path init opts

  retried-Reach : (s : Shared lib.Breaker W) → Reach lib cb s.adapter (action s).1.adapter
  unfolding retried
  retried-Reach s = run-Reach (resolve_retry_policy method opts) s

  -- What a request does to the breaker's adapter, and with what outcome.
  abbrev pub Course : Shared lib.Breaker W → Type 0
  Course s =
      let after = request lib show cb host endpoint doubles random json method path init opts s in
      ((lib.start s.adapter.breaker ≡ none)
        × ((err : Thrown) × (after.0 ≡ throws err))
        × (after.1.adapter ≡ s.adapter))
      ⊎ ((b : lib.Breaker) × (shown : Outcome Response) × (lib.start s.adapter.breaker ≡ some b)
          × Reach lib cb (record (s.adapter) { breaker = b })
              (action (admitted lib show cb endpoint.log_context action s b)).1.adapter
          × Settled lib cb endpoint.log_context
              (action (admitted lib show cb endpoint.log_context action s b)).1.adapter
              (action (admitted lib show cb endpoint.log_context action s b)).0 shown
              after.1.adapter
          × (after.0 ≡ elim shown [ ok res ↦ json res | throws err ↦ throws err ]))

  -- When overlapping calls move the breaker's adapter by their own steps alone, and the log leaves it
  -- alone: a request that opossum does not let through throws and leaves the adapter alone. One that
  -- it lets through runs its attempts, and what they settle with then moves the adapter from where
  -- those steps left it: a success clears the count, also when the body of the response cannot be
  -- read; a failure on a breaker that is not half open adds one to the count when that stays below
  -- the threshold; any other failure opens the circuit with a fresh count, and the request throws
  -- `CircuitOpenError`.
  pub request-Settled : (s : Shared lib.Breaker W) → Course s
  unfolding request
  request-Settled s =
      let api = endpoint.log_context in
      elim (Option-cases (lib.start s.adapter.breaker)) [
        | inl none_started ↦ inl (
          none_started,
          (
            relabel lib show api s.adapter.breaker lib.rejection,
            rw (fire_rejected lib show cb api action s none_started, respond) refl,
          ),
          rw (fire_rejected lib show cb api action s none_started, respond) refl,
        )
        | inr (b, started) ↦ inr (
          b,
          (fire lib show cb api action s).0,
          started,
          retried-Reach (admitted lib show cb api action s b),
          subst
              (λ t.
                Settled lib cb api (action (admitted lib show cb api action s b)).1.adapter
                  (action (admitted lib show cb api action s b)).0 (fire lib show cb api action s).0
                  t.adapter)
              (sym (
                respond-state lib show cb host endpoint doubles random json method path init opts
                  (fire lib show cb api action s)))
              (fire-Settled lib show cb api action s b started),
          respond-outcome (fire lib show cb api action s),
        )
      ]
