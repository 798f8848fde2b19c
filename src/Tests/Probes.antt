-- ===== src/Tests/Probes.antt =====
-- Examples for the health probes.
use email_platform_services.Common.{
  ℕ, suc, ◌≡◌, ◌↔◌, refl, ap, sym, ◌∙◌, String, Bool, true, false, ◌&&◌, both, both-first,
  both-second, some, List, [], ◌∷◌, All, map, spread, Outcome, ok, throws, plain_error,
}
use email_platform_services.Health.Indicators.{up, down, HealthStatus, IndicatorResult, up_result}
use email_platform_services.Health.Controllers.{
  HealthCheckResult, keyed, IsUp, results_of, all_settled, Terminus, gateway_readiness,
}
use email_platform_services.Health.Laws.{AnswersIn}
use email_platform_services.Health.Gateway.{
  AllServe, all_up, gateway_ready_iff, gateway_readiness-details,
}

abbrev said_up : HealthStatus → Bool
said_up up = true
said_up down = false

abbrev is_up : Outcome IndicatorResult → Bool
is_up (ok result) = said_up result.status
is_up (throws err) = false

abbrev all_are_up : List (Outcome IndicatorResult) → Bool
all_are_up [] = true
all_are_up (o ∷ os) = is_up o && all_are_up os

abbrev ok_of : List (Outcome IndicatorResult) → HealthCheckResult
ok_of os = record {
  status = "ok";
  info = some (spread [] (map keyed (results_of os)));
  error = some [];
  details = some (spread [] (map keyed (results_of os)));
}

abbrev answer_of : Bool → List (Outcome IndicatorResult) → Outcome HealthCheckResult
answer_of true os = ok (ok_of os)
answer_of false os = throws (plain_error "Service Unavailable")

said_up-eq : (status : HealthStatus) → said_up status ≡ true → status ≡ up
said_up-eq up e = refl
said_up-eq down e = cc

is_up-IsUp : (o : Outcome IndicatorResult) → is_up o ≡ true → IsUp o
is_up-IsUp (ok result) e = (result, refl, said_up-eq result.status e)
is_up-IsUp (throws err) e = cc

IsUp-is_up : (o : Outcome IndicatorResult) → IsUp o → is_up o ≡ true
IsUp-is_up o (result, same, says) = ap is_up same ∙ ap said_up says

all_are_up-All : (os : List (Outcome IndicatorResult)) → all_are_up os ≡ true → All IsUp os
all_are_up-All [] e = tt
all_are_up-All (o ∷ os) e = (
  is_up-IsUp o (both-first (is_up o) (all_are_up os) e),
  all_are_up-All os (both-second (is_up o) (all_are_up os) e),
)

All-all_are_up : (os : List (Outcome IndicatorResult)) → All IsUp os → all_are_up os ≡ true
All-all_are_up [] all = refl
All-all_are_up (o ∷ os) (first, rest) =
    both (is_up o) (all_are_up os) (IsUp-is_up o first) (All-all_are_up os rest)

answered :
    (b : Bool) (os : List (Outcome IndicatorResult)) (given : HealthCheckResult)
    → answer_of b os ≡ ok given
    → (b ≡ true) × (given.details ≡ some (spread [] (map keyed (results_of os))))
answered true os given e =
    let same : ok_of os ≡ given = cc in (refl, ap (λ g. g.details) (sym same))
answered false os given e = cc

-- It is never shutting down.
abbrev terminus : Terminus ℕ
terminus = record {
  check = λ is s. let (os, t) = all_settled is s in (answer_of (all_are_up os) os, t);
  is_shutting_down = λ s. false;
  check_ok = λ is s given e.
      let (os, t) = all_settled is s in
      let (ups, details) = answered (all_are_up os) os given e in
      (all_are_up-All os ups, refl, details, refl);
  check_up = λ is s ups alive.
      let (os, t) = all_settled is s in
      (ok_of os, ap (λ b. answer_of b os) (All-all_are_up os ups));
}

-- Dependencies that answer.
abbrev answering : ℕ → Outcome String × ℕ
answering s = (ok "PONG", suc s)

abbrev serving : ℕ → Outcome ℕ × ℕ
serving s = (ok 1, suc s)

abbrev upstreams : List (String × (ℕ → Outcome ℕ × ℕ))
upstreams = ("auth", serving) ∷ ("sender", serving) ∷ []

gateway_ready_iff_example :
    ((given : HealthCheckResult) × ((gateway_readiness terminus upstreams answering 0).0
        ≡ ok given))
    ↔ (AllServe upstreams 0 × (false ≡ false) × AnswersIn answering 2 × (false ≡ false))
gateway_ready_iff_example = gateway_ready_iff terminus upstreams answering 0

abbrev reply :
    (given : HealthCheckResult) × ((gateway_readiness terminus upstreams answering 0).0 ≡ ok given)
reply =
    (gateway_ready_iff terminus upstreams answering 0).1
      ((refl, (refl, tt)), refl, ("PONG", refl), refl)

gateway_readiness-details_example :
    reply.0.details
    ≡ some (spread (spread [] (all_up upstreams)) (("cache", up_result "cache") ∷ []))
gateway_readiness-details_example =
    gateway_readiness-details terminus upstreams answering 0 reply.0 reply.1
