-- ===== src/Tests.antt =====
-- The theorems applied to small concrete parts of the program and its surroundings.
mod Platform
mod Retry
mod Breaker
mod Client
mod Rpc
mod Startup
mod Stores
mod Apps
mod Rows
mod Zod
mod Config
mod Grpc
mod Probes
mod Recovery
mod Services
mod Wire
mod Wiring
mod Contracts
