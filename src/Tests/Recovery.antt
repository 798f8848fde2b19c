-- ===== src/Tests/Recovery.antt =====
-- A circuit that opens and closes again, and the provider of a client.
use email_platform_services.Common.{ℕ, ◌≡◌, refl, none, some, Outcome, ok, arith}
use email_platform_services.Http.Types.{CbState, get, closed, half_open, opened}
use email_platform_services.Http.Breaker.{Adapter, fire, state, on_failure}
use email_platform_services.Http.Breaker.Runs.{
  Reach, here, seen, Reach-IsCounting, opened_recovers, elapsed, fails, after,
}
use email_platform_services.Http.Breaker.Laws.{IsCounting}
use email_platform_services.Http.Executor.{Host}
use email_platform_services.Http.Client.Runs.{Overlaps, Course, request-Settled}
use email_platform_services.Http.Provider.{HttpClientProviderOpts}
use email_platform_services.Tests.Platform.{
  doubles, opossum, show, two_failures, start_in, World, counted, answering, unavailable, endpoint,
  empty_init, no_opts,
}

abbrev answers : World → Outcome ℕ × World
answers s = (ok 7, counted s)

-- Another call fails on the breaker while a fetch is in flight.
abbrev busy : Host World
busy = record (answering (ok unavailable)) {
  fetch = λ url init s. (
    ok unavailable,
    record s { adapter = seen opossum two_failures (on_failure opossum two_failures s.adapter) },
  );
}

busy-Overlaps : Overlaps opossum two_failures busy
busy-Overlaps = record {
  fetch = λ url init s. after s.adapter _ _ (fails s.adapter) (here _);
  emit = λ line s. refl;
}

request-Settled_example :
    Course opossum show two_failures busy endpoint doubles
      (λ i. 4)
      (λ res. ok res.status)
      get
      "/a"
      empty_init
      no_opts
      busy-Overlaps
      (start_in closed)
request-Settled_example =
    request-Settled opossum show two_failures busy endpoint doubles (λ i. 4) (λ res. ok res.status)
      get "/a" empty_init no_opts busy-Overlaps (start_in closed)

abbrev fresh : Adapter CbState
fresh = (start_in closed).adapter

abbrev once : Adapter CbState
once = record { breaker = closed; consecutive_failures = 1 }

abbrev failed_once : Reach opossum two_failures fresh once
unfolding on_failure
failed_once = after fresh once once (fails fresh) (here once)

Reach-IsCounting_example : IsCounting two_failures once
Reach-IsCounting_example =
    Reach-IsCounting opossum two_failures fresh once (omega arith) failed_once (omega arith)

opened_recovers_example :
    ((fire opossum show two_failures "api" answers
        (elapsed opossum show two_failures "api" answers (start_in opened))).0
      ≡ ok 7)
    × (state opossum
          (fire opossum show two_failures "api" answers
            (elapsed opossum show two_failures "api" answers (start_in opened))).1.adapter
        ≡ record { cb = closed; consecutive_failures = 0 })
opened_recovers_example =
    opened_recovers opossum show two_failures "api" answers (start_in opened) half_open 7 refl refl
      refl refl

abbrev from_env : HttpClientProviderOpts
from_env = record {
  token = "AppstorespyClient";
  log_context = "appstorespy";
  env_token = "Env";
  base_url_env_key = some "APPSTORESPY_BASE_URL";
  base_url_literal = none;
  timeout_ms = some 30000;
  cb = none;
}
