-- ===== src/Dispatcher.antt =====
-- The dispatcher package (server/internal/dispatcher): the choice of a topic in `Router`, the write
-- to the outbox and the gRPC method in `Dispatch`.
pub mod Router
pub mod Dispatch
mod Examples
