-- ===== src/Logging.antt =====
-- packages/foundation/src/external/logging: the ids of requests, the modules of the logger, and the
-- interceptors that log how calls ended.
pub mod Ids
pub mod Module
pub mod Interceptors
pub mod Laws
