-- ===== src/Http3Client.antt =====
-- web_transport/sdk/impl/web_transport_http3_client.h and .cc: the client of one WebTransport
-- session over HTTP/3.
pub mod State
pub mod Connect
pub mod Loop
pub mod Verifier
pub mod Events
pub mod Bounds
pub mod Invariant
pub mod Rounds
pub mod Runs
pub mod Preserving
pub mod Telling
pub mod Errors
pub mod Versions
pub mod Attempt
pub mod Outcome
