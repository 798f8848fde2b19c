-- ===== src/Tests/Retry.antt =====
-- Examples for the error mappers and the retry loop.
use email_platform_services.Common.{
  ℕ, zero, suc, ◌*◌, ◌≤◌, ◌≡◌, ◌↔◌, ◌⊎◌, refl, true, arith, Outcome, ok, throws, http_error,
}
use email_platform_services.Http.Errors.{
  normalize, default_mappers, is_http_client_error, timeout_matches, network_matches,
}
use email_platform_services.Http.Errors.Laws.{is_retryable-normalize_iff}
use email_platform_services.Http.Retry.{is_retryable, backoff_delay, backoff_with_jitter, run}
use email_platform_services.Http.Retry.Backoff.{backoff_with_jitter_bounds}
use email_platform_services.Http.Retry.Loop.{Settles, run-Settles}
use email_platform_services.Tests.Platform.{doubles, refused, policy}

is_retryable-normalize_iff_example :
    (is_retryable (normalize default_mappers refused (record { url = "/"; timeout_ms = 1 })) ≡ true)
    ↔ ((timeout_matches refused ≡ true) ⊎ (network_matches refused ≡ true))
unfolding is_http_client_error
is_retryable-normalize_iff_example =
    is_retryable-normalize_iff refused (record { url = "/"; timeout_ms = 1 }) refl

backoff_with_jitter_bounds_example :
    (200 * 10 ≤ backoff_with_jitter doubles 7 6 policy)
    × (backoff_delay 6 policy * 10 ≤ backoff_with_jitter doubles 7 6 policy)
    × (backoff_with_jitter doubles 7 6 policy ≤ 2 * backoff_delay 6 policy * 10)
    × (backoff_with_jitter doubles 7 6 policy ≤ 2 * 5000 * 10)
backoff_with_jitter_bounds_example =
    backoff_with_jitter_bounds policy (omega arith) doubles 7 6 (omega arith) (omega arith)
      (omega arith)

-- The first two attempts meet a server that is starting.
abbrev starting : ℕ → Outcome ℕ × ℕ
starting zero = (throws (http_error 503 "/"), 1)
starting (suc zero) = (throws (http_error 502 "/"), 2)
starting (suc (suc n)) = (ok n, suc (suc n))

run-Settles_example : Settles starting 3 1 0 (run starting policy doubles (λ i. 4) 0)
run-Settles_example = run-Settles starting policy doubles (λ i. 4) 0 (omega arith)
