-- ===== src/Http/Types.antt =====
-- packages/foundation/src/external/http/client/types.ts and the constants of the retry and
-- circuit-breaker folders.
use email_platform_services.Common.{ℕ, String, Bool, Option, Dict}

pub data HttpMethod : Type 0 where
  get post put patch delete head : HttpMethod

pub record HttpCallOpts : Type 0 where
  pub timeout_ms : Option ℕ
  pub idempotent : Option Bool
  pub retries : Option ℕ
  pub headers : Option (Dict String)

-- The ratio is in hundredths.
pub record RetryPolicy : Type 0 where
  pub max_attempts : ℕ
  pub backoff_min_ms : ℕ
  pub backoff_max_ms : ℕ
  pub jitter_ratio : ℕ

pub record CbOptions : Type 0 where
  pub consecutive_threshold : ℕ
  pub half_open_after_ms : ℕ

pub data CbState : Type 0 where
  closed half_open opened : CbState

pub record CircuitState : Type 0 where
  pub cb : CbState
  pub consecutive_failures : ℕ

abbrev pub retry_max_attempts : ℕ
retry_max_attempts = 3

abbrev pub retry_backoff_min_ms : ℕ
retry_backoff_min_ms = 200

abbrev pub retry_backoff_max_ms : ℕ
retry_backoff_max_ms = 5000

abbrev pub retry_jitter_ratio : ℕ
retry_jitter_ratio = 50

abbrev pub retryable_status_min : ℕ
retryable_status_min = 500

abbrev pub cb_consecutive_threshold : ℕ
cb_consecutive_threshold = 5

abbrev pub cb_half_open_after_ms : ℕ
cb_half_open_after_ms = 30000
