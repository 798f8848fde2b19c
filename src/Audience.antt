-- ===== src/Audience.antt =====
-- apps/audience: the gRPC service for groups of recipients.
pub mod Messages
pub mod Controller
pub mod Application
pub mod Laws
