-- ===== src/Kafka.antt =====
-- The kafka package (server/internal/kafka): topic names and their creation in `Topics`, the producer in
-- `Producer`, the carriers of the trace context in `Headers`, the consumer in `Consumer`, how its
-- claims end in `Claims`, and what it hands to its handler again in `Redelivery`.
pub mod Topics
pub mod Producer
pub mod Headers
pub mod Consumer
pub mod Claims
pub mod Redelivery
mod Examples
