-- ===== src/Raw.antt =====
-- quic_io/src: the raw QUIC client and server, and the wrapper that the users of quic_io call.
pub mod Server
pub mod Dispatcher
pub mod ServerImpl
pub mod Sessions
pub mod ServerSession
pub mod ClientImpl
pub mod ClientSession
pub mod Stream
pub mod Received
