-- ===== src/Apps.antt =====
-- The example servers (examples/ and starters/go): what they keep, and their answers to the messages of
-- a connection.
pub mod Frames
pub mod IotTelemetry
pub mod GameRealtime
pub mod FinanceOrders
pub mod Starter
pub mod Interop
mod Examples
pub mod Notifications
