-- ===== src/Transport.antt =====
-- quic_transport/sdk/impl: the QUIC transport API's client and server.
pub mod Stream
pub mod ServerSession
pub mod ClientSession
pub mod Server
pub mod Client
pub mod Dispatcher
pub mod Verifier
