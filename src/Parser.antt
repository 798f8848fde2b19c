-- ===== src/Parser.antt =====
-- apps/parser: the gRPC service for parser tasks and settings.
pub mod Messages
pub mod Controller
pub mod Application
pub mod Laws
