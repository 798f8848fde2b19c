-- ===== src/Auth.antt =====
-- apps/auth: the gRPC service for users and tokens.
pub mod Messages
pub mod Controller
pub mod Application
pub mod Laws
