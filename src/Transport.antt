-- ===== src/Transport.antt =====
-- The transport package (proto-core/transport): the connection pool in `Pool`, with its laws in
-- `Pool.Laws`; the length-prefixed framing of QUIC streams, here and in sdk/go, in `Framing`; the
-- channels of gRPC streams in `Streams`; dialling and closing in `Dialing`.
pub mod Pool
pub mod Dialing
pub mod Framing
pub mod Streams
mod Examples
