-- ===== src/Config.antt =====
-- packages/config/src and packages/foundation/src/external/config: what each app reads from the
-- environment, and the modules that hand it on.
pub mod Shapes
pub mod Schemas
pub mod Services
pub mod Load
pub mod Apps
pub mod Laws
pub mod Cache
