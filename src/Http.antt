-- ===== src/Http.antt =====
-- packages/foundation/src/external/http: the outbound HTTP client, a stack of
-- circuit breaker, retry loop and single-attempt executor.
pub mod Types
pub mod Errors
pub mod Retry
pub mod Breaker
pub mod Executor
pub mod Client
pub mod Provider
