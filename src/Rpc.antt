-- ===== src/Rpc.antt =====
-- packages/foundation/src/external/errors: the gRPC exceptions that services throw, the filter
-- that answers a gRPC call with them, and the gateway's filter that turns them into HTTP replies.
pub mod Message
pub mod Exceptions
pub mod Filters
pub mod Laws
