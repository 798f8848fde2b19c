-- ===== src/Http/Retry/Policy.antt =====
-- Which calls get more than one attempt, and which errors are worth one.
use email_platform_services.Common.{ℕ, ◌≤◌, ◌<◌, ◌≡◌, ◌≢◌, ◌⊎◌, true, false, some, arith, Thrown}
use email_platform_services.Http.Types.{HttpMethod, get, head, HttpCallOpts, RetryPolicy}
use email_platform_services.Http.Retry.{
  is_idempotent, resolve_retry_policy, is_retryable, should_retry,
}

-- A method other than GET and HEAD whose call does not opt in gets one attempt.
pub resolve_retry_policy-single :
    (method : HttpMethod) (opts : HttpCallOpts)
    → method ≢ get
    → method ≢ head
    → opts.idempotent ≢ some true
    → (resolve_retry_policy method opts).max_attempts ≡ 1
unfolding resolve_retry_policy is_idempotent
resolve_retry_policy-single method opts g h i = ground arith

pub should_retry-lt :
    (err : Thrown) (n : ℕ) (policy : RetryPolicy)
    → should_retry err n policy ≡ true
    → (n < policy.max_attempts) × (is_retryable err ≡ true)
unfolding should_retry
should_retry-lt err n policy h = ground arith

pub not_should_retry :
    (err : Thrown) (n : ℕ) (policy : RetryPolicy)
    → should_retry err n policy ≡ false
    → (policy.max_attempts ≤ n) ⊎ (is_retryable err ≡ false)
unfolding should_retry
not_should_retry err n policy h = ground arith
