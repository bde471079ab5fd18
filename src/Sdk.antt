-- ===== src/Sdk.antt =====
-- The Go SDK (sdk/go): dial in `Dialing`, Connect, Send, Receive and Close in `Client`, reconnecting in
-- `Reconnect`.
pub mod Client
pub mod Reconnect
pub mod Dialing
mod Examples
