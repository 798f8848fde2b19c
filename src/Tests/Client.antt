-- ===== src/Tests/Client.antt =====
-- Examples for one attempt and for whole requests.
use email_platform_services.Common.{◌≤◌, ◌≡◌, refl, none, arith, ok, throws, undefined}
use email_platform_services.Http.Types.{get, closed}
use email_platform_services.Http.Retry.{is_idempotent}
use email_platform_services.Http.Executor.{Host}
use email_platform_services.Http.Client.{request}
use email_platform_services.Http.Client.Laws.{request-fetches-le, request_zero_retries}
use email_platform_services.Tests.Platform.{
  doubles, World, opossum, show, two_failures, start_in, counted, answering, unavailable, fine,
  endpoint, no_opts, no_retries, empty_init,
}

-- A host whose world counts the log lines.
abbrev logging : Host World
logging = record {
  now = λ s. s.world;
  fetch = λ url init s. (ok unavailable, s);
  emit = λ line s. counted s;
  correlation_id = λ s. none;
}

request-fetches-le_example :
    (request opossum show two_failures
      (answering (ok unavailable))
      endpoint
      doubles
      (λ i. 4)
      (λ res. ok res.status)
      get
      "/x"
      empty_init
      no_opts
      (start_in closed)).1.world
    ≤ 3
unfolding is_idempotent
request-fetches-le_example =
    request-fetches-le opossum show two_failures (answering (ok unavailable)) endpoint doubles
      (λ i. 4) (λ res. ok res.status) get "/x" empty_init no_opts (λ w. w)
      (record { fetch = λ url init s. refl; emit = λ line s. refl }) (start_in closed)

request_zero_retries_example :
    request opossum show two_failures
      (answering (ok fine))
      endpoint
      doubles
      (λ i. 4)
      (λ res. ok res.status)
      get
      "/x"
      empty_init
      no_retries
      (start_in closed)
    ≡ (
      throws undefined,
      record { adapter = record { breaker = closed; consecutive_failures = 1 }; world = 0 },
    )
unfolding is_idempotent
request_zero_retries_example =
    request_zero_retries opossum show two_failures (answering (ok fine)) endpoint doubles (λ i. 4)
      (λ res. ok res.status) get "/x" empty_init no_retries (start_in closed) refl refl refl refl
      (omega arith)
