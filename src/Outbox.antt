-- ===== src/Outbox.antt =====
-- The outbox package (server/internal/outbox): the table in `Store`, the relay that publishes its
-- pending rows in `Relay`, what reaches Kafka in `Delivery`, `Progress` and
-- `Drain`, and the loop of the relay in `Running`.
pub mod Store
pub mod Relay
pub mod Delivery
pub mod Progress
pub mod Drain
pub mod Running
mod Examples
