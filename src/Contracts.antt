-- ===== src/Contracts.antt =====
-- The messages of packages/contracts/src/generated/parser.ts on the wire. Wire is the reader and
-- the writer of @bufbuild/protobuf, Codec the loop that every generated `decode` is, Messages the
-- messages, Service the methods of the service.
pub mod Wire
pub mod Codec
pub mod Messages
pub mod Service
