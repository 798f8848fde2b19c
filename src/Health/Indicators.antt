-- ===== src/Health/Indicators.antt =====
-- The health indicators: external/cache/redis.health.ts, external/persistence/postgres.health.ts,
-- internal/storage/s3.health.ts, external/messaging/messaging.health.ts and
-- external/grpc/clients/grpc-client-health.indicator.ts of packages/foundation/src. What they ask
-- of a dependency is a function from states to an outcome and a state.
use email_platform_services.Common.{
  ℕ, ◌==◌, String, Option, none, some, Outcome, ok, throws, if◌then◌else◌,
}

pub data HealthStatus : Type 0 where
  up down : HealthStatus

-- `HealthIndicatorResult`: the result under its key.
pub record IndicatorResult : Type 0 where
  pub key : String
  pub status : HealthStatus
  pub message : Option String

-- `indicator.up()`, `indicator.down({ message })` of `HealthIndicatorService.check(key)`.
abbrev pub up_result : String → IndicatorResult
up_result key = record { key = key; status = up; message = none }

abbrev pub down_result : String → String → IndicatorResult
down_result key message = record { key = key; status = down; message = some message }

-- `try { await ...; return indicator.up(); } catch { return indicator.down({ message }); }`.
unfoldable pub up_or_down : {A : Type 0} → String → String → Outcome A → Outcome IndicatorResult
up_or_down key message (ok answer) = ok (up_result key)
up_or_down key message (throws err) = ok (down_result key message)

module _ {S A : Type 0} where
  -- `PING`.
  unfoldable pub redis_is_healthy : (S → Outcome A × S) → String → S → Outcome IndicatorResult × S
  unfolding up_or_down
  redis_is_healthy ping key s =
      let (pinged, t) = ping s in (up_or_down key "Redis connection failed" pinged, t)

  -- `SELECT 1`.
  unfoldable pub postgres_is_healthy :
      (S → Outcome A × S) → String → S → Outcome IndicatorResult × S
  unfolding up_or_down
  postgres_is_healthy query key s =
      let (queried, t) = query s in (up_or_down key "PostgreSQL connection failed" queried, t)

  -- `HeadBucketCommand`.
  unfoldable pub s3_is_healthy : (S → Outcome A × S) → String → S → Outcome IndicatorResult × S
  unfolding up_or_down
  s3_is_healthy head_bucket key s =
      let (sent, t) = head_bucket s in (up_or_down key "S3 storage connection failed" sent, t)

-- The status 1 is `SERVING`.
unfoldable pub serving : String → Outcome ℕ → Outcome IndicatorResult
serving key (ok status) =
    ok (if status == 1 then up_result key else down_result key "grpc health unreachable")
serving key (throws err) = ok (down_result key "grpc health unreachable")

module _ {S : Type 0} where
  unfoldable pub messaging_is_healthy : String → S → Outcome IndicatorResult × S
  messaging_is_healthy key s =
      (ok (record { key = key; status = up; message = some "stub — no connection configured" }), s)

  -- `check` is `Check({ service: '' })`.
  unfoldable pub grpc_client_is_healthy :
      (S → Outcome ℕ × S) → String → S → Outcome IndicatorResult × S
  unfolding serving
  grpc_client_is_healthy check key s = let (response, t) = check s in (serving key response, t)
