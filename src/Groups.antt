-- ===== src/Groups.antt =====
-- Groups: the tables and statements of server/internal/groups in `Store`, the handler of commands
-- (server/internal/commands) in `Commands`, its claims and loop in `Service`, what the commands keep in
-- `Laws` and `Keeping`, and what the service does with records that come again in `Replays`.
pub mod Store
pub mod Commands
pub mod Laws
pub mod Service
pub mod Keeping
pub mod Replays
mod Examples
