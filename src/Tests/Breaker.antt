-- ===== src/Tests/Breaker.antt =====
-- Examples for the circuit breaker.
use email_platform_services.Common.{
  ℕ, ◌≡◌, refl, arith, Outcome, ok, throws, http_error, circuit_open_error,
}
use email_platform_services.Http.Types.{closed, opened}
use email_platform_services.Http.Breaker.{fire, state, mentions_open, message}
use email_platform_services.Http.Breaker.Streak.{FailsAlone, after, streak_opens}
use email_platform_services.Tests.Platform.{World, counted, opossum, show, start_in, two_failures}

abbrev failing : World → Outcome ℕ × World
failing s = (throws (http_error 503 "/"), counted s)

abbrev succeeding : World → Outcome ℕ × World
succeeding s = (ok 7, counted s)

failing_alone : FailsAlone opossum show failing (λ s. http_error 503 "/")
unfolding mentions_open message
failing_alone = record { fails = λ s. refl; keeps = λ s. refl; unmarked = λ s. refl }

streak_opens_example :
    let s = after opossum show two_failures "api" failing 1 (start_in closed) in
    (state opossum (fire opossum show two_failures "api" failing s).1.adapter
      ≡ record { cb = opened; consecutive_failures = 0 })
    × ((fire opossum show two_failures "api" failing s).0 ≡ throws (circuit_open_error "api"))
streak_opens_example =
    streak_opens opossum show two_failures "api" failing (λ s. http_error 503 "/") failing_alone
      closed refl refl 1 (start_in closed) refl (omega arith)
