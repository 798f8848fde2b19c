-- ===== src/Health.antt =====
-- The health probes: the indicators of packages/foundation/src and the health controllers of
-- apps/*/src/infrastructure/bootstrap/health.
pub mod Indicators
pub mod Controllers
pub mod Build
pub mod Laws
pub mod Gateway
