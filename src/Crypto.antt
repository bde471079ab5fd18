-- ===== src/Crypto.antt =====
-- The crypto package (proto-core/crypto) and its gRPC service (server/internal/cryptogrpc): packet
-- encryption in `Aead`, key rotation in `Rekey`, the service's stateless calls in `Service`.
pub mod Aead
pub mod Rekey
pub mod Service
pub mod Handshakes
mod Examples
