-- ===== src/Sender.antt =====
-- apps/sender: the gRPC service for campaigns, runners, messages and macros.
pub mod Messages
pub mod Controller
pub mod Application
pub mod Laws
