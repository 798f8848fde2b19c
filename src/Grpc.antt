-- ===== src/Grpc.antt =====
-- packages/foundation/src/external/grpc and external/resilience/grpc-deadline.interceptor.ts: the
-- clients and servers of gRPC, up to the transport, which is a parameter.
pub mod Protos
pub mod Calls
pub mod Clients
pub mod Laws
