-- ===== src/Health/Controllers.antt =====
-- The health controllers of apps/*/src/infrastructure/bootstrap/health/health.controller.ts.
-- `HealthCheckService.check` of terminus is `Terminus`.
use email_platform_services.Common.{
  ℕ, String, ◌≡◌, Option, some, get_or, List, [], ◌∷◌, map, All, Dict, spread, Outcome, ok, throws,
  Bool, false, answer, await,
}
use email_platform_services.Health.Indicators.{
  up, IndicatorResult, redis_is_healthy, postgres_is_healthy, s3_is_healthy, messaging_is_healthy,
  grpc_client_is_healthy,
}

-- `HealthIndicatorFunction`.
abbrev pub Indicator : Type 0 → Type 0
Indicator S = S → Outcome IndicatorResult × S

-- `info`, `error` and `details` hold results by their keys.
pub record HealthCheckResult : Type 0 where
  pub status : String
  pub info : Option (Dict IndicatorResult)
  pub error : Option (Dict IndicatorResult)
  pub details : Option (Dict IndicatorResult)

abbrev pub keyed : IndicatorResult → String × IndicatorResult
keyed result = (result.key, result)

-- `Promise.allSettled` of calls that are made in their order.
unfoldable pub all_settled :
    {S : Type 0} → List (Indicator S) → S → List (Outcome IndicatorResult) × S
all_settled [] s = ([], s)
all_settled (i ∷ is) s =
    let (result, t) = i s in let (results, u) = all_settled is t in (result ∷ results, u)

-- An indicator's outcome that says that it is up.
abbrev pub IsUp : Outcome IndicatorResult → Type 0
IsUp o = (result : IndicatorResult) × (o ≡ ok result) × (result.status ≡ up)

-- The results that were given.
abbrev pub results_of : List (Outcome IndicatorResult) → List IndicatorResult
results_of [] = []
results_of (ok result ∷ os) = result ∷ results_of os
results_of (throws err ∷ os) = results_of os

-- What the code relies on of `check`: it runs the indicators with `Promise.allSettled`, and gives a
-- result just when all are up and the application is not shutting down then; the details are the
-- indicators' results, and nothing else has happened. In any other case it throws.
pub record Terminus (S : Type 0) : Type 0 where
  pub check : List (Indicator S) → S → Outcome HealthCheckResult × S
  pub is_shutting_down : S → Bool
  pub check_ok :
      (indicators : List (Indicator S)) (s : S) (given : HealthCheckResult)
      → (check indicators s).0 ≡ ok given
      → All IsUp (all_settled indicators s).0
        × (is_shutting_down (all_settled indicators s).1 ≡ false)
        × (given.details ≡ some (spread [] (map keyed (results_of (all_settled indicators s).0))))
        × ((check indicators s).1 ≡ (all_settled indicators s).1)
  pub check_up :
      (indicators : List (Indicator S)) (s : S)
      → All IsUp (all_settled indicators s).0
      → is_shutting_down (all_settled indicators s).1 ≡ false
      → (given : HealthCheckResult) × ((check indicators s).0 ≡ ok given)

module _ {S : Type 0} (health : Terminus S) where
  unfoldable pub liveness : S → Outcome HealthCheckResult × S
  liveness s = health.check [] s

  -- apps/auth, apps/sender and apps/audience.
  unfoldable pub readiness :
      {A B : Type 0} → (S → Outcome A × S) → (S → Outcome B × S) → S → Outcome HealthCheckResult × S
  unfolding postgres_is_healthy redis_is_healthy
  readiness query ping s =
      health.check (postgres_is_healthy query "persistence" ∷ redis_is_healthy ping "cache" ∷ []) s

  unfoldable pub parser_readiness :
      {A B C : Type 0}
      → (S → Outcome A × S)
      → (S → Outcome B × S)
      → (S → Outcome C × S)
      → S
      → Outcome HealthCheckResult × S
  unfolding postgres_is_healthy s3_is_healthy redis_is_healthy
  parser_readiness query head_bucket ping s =
      health.check
        (postgres_is_healthy query "persistence"
          ∷ s3_is_healthy head_bucket "s3:parser"
          ∷ redis_is_healthy ping "cache"
          ∷ [])
        s

  unfoldable pub notifier_readiness :
      {B C : Type 0} → (S → Outcome B × S) → (S → Outcome C × S) → S → Outcome HealthCheckResult × S
  unfolding messaging_is_healthy s3_is_healthy redis_is_healthy
  notifier_readiness head_bucket ping s =
      health.check
        (messaging_is_healthy "messaging"
          ∷ s3_is_healthy head_bucket "s3:public"
          ∷ redis_is_healthy ping "cache"
          ∷ [])
        s

-- An indicator function that gives, or throws, what has settled.
abbrev pub replay : {S : Type 0} → Outcome IndicatorResult → Indicator S
replay settled s = (settled, s)

-- `upstreams`: the key of each service, and its `Check`.
abbrev pub Upstreams : Type 0 → Type 0
Upstreams S = List (String × (S → Outcome ℕ × S))

unfoldable pub upstream_indicator : {S : Type 0} → String × (S → Outcome ℕ × S) → Indicator S
unfolding grpc_client_is_healthy
upstream_indicator (key, check) s = grpc_client_is_healthy check key s

unfoldable pub upstreams_of :
    {S : Type 0} (auth sender parser audience notifier : S → Outcome ℕ × S) → Upstreams S
upstreams_of auth sender parser audience notifier =
    ("auth", auth)
    ∷ ("sender", sender)
    ∷ ("parser", parser)
    ∷ ("audience", audience)
    ∷ ("notifier", notifier)
    ∷ []

-- The reply of the gateway: the upstreams' result with the cache's merged into it.
unfoldable pub merge_results : HealthCheckResult → HealthCheckResult → HealthCheckResult
unfolding spread
merge_results upstreams cache = record upstreams {
  info = some (spread (get_or upstreams.info []) (get_or cache.info []));
  details = some (spread (get_or upstreams.details []) (get_or cache.details []));
}

unfoldable pub gateway_readiness :
    {S B : Type 0} (health : Terminus S)
    → Upstreams S
    → (S → Outcome B × S)
    → S
    → Outcome HealthCheckResult × S
unfolding all_settled upstream_indicator redis_is_healthy merge_results await
gateway_readiness health upstreams ping s =
    let (results, t) = all_settled (map upstream_indicator upstreams) s in
    await (health.check (map replay results) t) (λ upstreams_result u.
      answer (merge_results upstreams_result) (health.check (redis_is_healthy ping "cache" ∷ []) u))

-- The gateway's liveness: the check's result with the build information `build`.
unfoldable pub gateway_liveness :
    {S V : Type 0} → Terminus S → V → S → Outcome (HealthCheckResult × V) × S
gateway_liveness health build s = answer (λ result. (result, build)) (health.check [] s)
