-- ===== src/Http/Retry.antt =====
-- packages/foundation/src/external/http/retry: which calls may be repeated, the wait between two
-- attempts, and the loop of `DefaultRetryExecutor.run`.
pub mod Backoff
pub mod Policy
pub mod Loop
use email_platform_services.Common.{
  ◌≤◌, ◌<◌, ◌≡◌, ℕ, zero, suc, ◌+◌, ◌-◌, ◌*◌, ◌^◌, min, max, Bool, true, false, ◌||◌, Option, none,
  some, get_or, List, [], ◌∷◌, leb, if◌then◌else◌, Outcome, ok, throws, Thrown, http_error,
  network_error, timeout_error, undefined,
}
use email_platform_services.Http.Types.{
  HttpMethod, get, head, HttpCallOpts, RetryPolicy, retry_max_attempts, retry_backoff_min_ms,
  retry_backoff_max_ms, retry_jitter_ratio, retryable_status_min,
}

-- `IDEMPOTENT_METHODS.includes(method)`.
unfoldable pub is_idempotent_method : HttpMethod → Bool
is_idempotent_method get = true
is_idempotent_method head = true
is_idempotent_method _ = false

-- `is_idempotent_method(method) || opts.idempotent === true`.
unfoldable pub is_idempotent : HttpMethod → HttpCallOpts → Bool
unfolding is_idempotent_method
is_idempotent method opts = is_idempotent_method method || get_or opts.idempotent false

unfoldable pub resolve_retry_policy : HttpMethod → HttpCallOpts → RetryPolicy
unfolding is_idempotent
resolve_retry_policy method opts = record {
  max_attempts = if is_idempotent method opts then get_or opts.retries retry_max_attempts else 1;
  backoff_min_ms = retry_backoff_min_ms;
  backoff_max_ms = retry_backoff_max_ms;
  jitter_ratio = retry_jitter_ratio;
}

-- The `instanceof` chain below the guard on the attempt.
unfoldable pub is_retryable : Thrown → Bool
is_retryable (http_error status url) = leb retryable_status_min status
is_retryable (network_error url cause) = true
is_retryable (timeout_error url timeout_ms) = true
is_retryable _ = false

unfoldable pub should_retry : Thrown → ℕ → RetryPolicy → Bool
unfolding is_retryable
should_retry err attempt policy =
    if leb policy.max_attempts attempt then false else is_retryable err

-- The wait before the jitter, for a positive `backoffMinMs`: with 0 a power that overflows gives NaN.
unfoldable pub backoff_delay : ℕ → RetryPolicy → ℕ
backoff_delay attempt policy =
    let exp = policy.backoff_min_ms * 2 ^ (attempt - 1) in
    max policy.backoff_min_ms (min exp policy.backoff_max_ms)

-- The arithmetic of doubles on the waits, in parts of `1 / (2 * unit)` of a millisecond.
-- `Math.random()` is `r / unit` with `r < unit`. `round` is the rounding of a result, which keeps the
-- order, and keeps a whole number of half milliseconds below 2 ^ 53.
pub record Doubles : Type 0 where
  pub unit : ℕ
  pub round : ℕ → ℕ
  pub round_monotone : (m n : ℕ) → m ≤ n → round m ≤ round n
  pub round_halves : (halves : ℕ) → halves < 2 ^ 53 → round (halves * unit) ≡ halves * unit

-- `delay / 2 + Math.random() * (delay / 2)`.
unfoldable pub backoff_with_jitter : Doubles → ℕ → ℕ → RetryPolicy → ℕ
unfolding backoff_delay
backoff_with_jitter doubles r attempt policy =
    let delay = backoff_delay attempt policy in
    doubles.round (delay * doubles.unit + doubles.round (r * delay))

-- What a run leaves: the settled promise, the state, and the argument of each `sleep` in order.
pub record Run (A S : Type 0) : Type 0 where
  pub outcome : Outcome A
  pub state : S
  pub sleeps : List ℕ

-- An attempt reads and changes the state `S`; `random` gives the draw of each attempt.
module _ {A S : Type 0} (attempt : S → Outcome A × S) (policy : RetryPolicy) (doubles : Doubles)
    (random : ℕ → ℕ) where
  -- The rounds that are left, the loop's `i`, and `lastErr`.
  unfoldable pub run_from : ℕ → ℕ → Thrown → S → Run A S
  unfolding should_retry backoff_with_jitter
  run_from zero i last_err s = record { outcome = throws last_err; state = s; sleeps = [] }
  run_from (suc left) i last_err s =
      let (settled, s') = attempt s in
      elim settled [
        | ok res ↦ record { outcome = ok res; state = s'; sleeps = [] }
        | throws err ↦ elim (should_retry err i policy) [
          | false ↦ record { outcome = throws err; state = s'; sleeps = [] }
          | true ↦
              let rest = run_from left (i + 1) err s' in
              record rest { sleeps = backoff_with_jitter doubles (random i) i policy ∷ rest.sleeps }
        ]
      ]

  unfoldable pub run : S → Run A S
  unfolding run_from
  run s = run_from policy.max_attempts 1 undefined s
