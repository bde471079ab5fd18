-- ===== src/SenderKeys.antt =====
-- Sender keys for groups (server/internal/senderkeys): the ratchet and the keys in `Keys`, Encrypt and
-- Decrypt in `Messages`, streams of messages in `Streams`, and the cache of keys in `Cache`.
pub mod Keys
pub mod Messages
pub mod Streams
pub mod Cache
mod Examples
