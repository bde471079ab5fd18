-- ===== src/Session.antt =====
-- The session package (proto-core/session): its state machine in `Machine`, what a history of
-- events can reach in `Histories`, its two stores in `Stores`, and its methods in `Manager`; the gRPC
-- methods over them (server/internal/sessiongrpc) in `Service`.
pub mod Machine
pub mod Stores
pub mod Manager
pub mod Service
pub mod Histories
mod Examples
mod Calls
