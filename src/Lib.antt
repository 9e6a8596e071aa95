-- ===== src/Lib.antt =====
-- Models and theorems for the OWT QUIC SDK: the WebTransport API (web_transport/sdk/impl), the QUIC
-- transport API (quic_transport/sdk/impl) and the older quic_io library (quic_io/src).
--
-- How the parts interact. A WebTransportOwtClientImpl posts the user's calls to the IO thread, where a
-- WebTransportHttp3Client makes the connection, and posts what that tells it to the event thread. A
-- WebTransportOwtServerImpl reads packets on its IO thread for quiche's dispatcher; an
-- Http3ServerStream answers a CONNECT and hands its session to the WebTransportServerBackend, which
-- keeps a WebTransportServerSession with its WebTransportStreamImpl streams. The QUIC transport API
-- and quic_io have a client, a server, a dispatcher, sessions and streams each, without HTTP/3.
--
-- Which file models which code:
--   Net                  the codes that all parts compare, and web_transport/sdk/impl/utilities.cc
--   Fingerprints         what the clients use of quiche's verifier of certificates
--   Streams, Sequencer   what the sources use of quiche's streams, and waiting for another thread
--   Http3Client          web_transport/sdk/impl/web_transport_http3_client.cc: State has the members
--                        and TransitionToState, Connect the Do... steps, Loop DoLoop, Events the
--                        calls, callbacks and tasks, Verifier CreateProofVerifier
--   Stream               web_transport/sdk/impl/web_transport_stream_impl.cc
--   ServerSession        web_transport/sdk/impl/web_transport_server_session.cc
--   Backend              web_transport/sdk/impl/web_transport_server_backend.cc
--   ServerStream         web_transport/sdk/impl/http3_server_stream.cc
--   WebServer            web_transport/sdk/impl/web_transport_owt_server_impl.cc
--   WebClient            web_transport/sdk/impl/web_transport_owt_client_impl.cc, and in Connection the
--                        same object with the HTTP/3 client that it makes
--   ProofSource          web_transport/sdk/impl/proof_source_owt.cc, of which
--                        quic_transport/sdk/impl/proof_source_owt.cc is a copy
--   WebFactory           web_transport/sdk/impl/web_transport_factory_impl.cc
--   Http3Server          web_transport/sdk/impl/http3_server_session.cc and
--                        web_transport_owt_server_dispatcher.cc, with ServerStream and Backend
--   Raw.Server           quic_io/src/quic_raw_server.cc
--   Raw.Dispatcher       quic_io/src/quic_raw_dispatcher.cc
--   Raw.Stream           quic_io/src/quic_raw_stream.cc
--   Raw.ServerSession    quic_io/src/quic_raw_server_session.cc
--   Raw.ClientSession    quic_io/src/quic_raw_client_session.cc, and CreateClientStream of
--                        quic_io/src/quic_raw_client_base.cc
--   Raw.ClientImpl       RawClientImpl of quic_io/src/wrapper/quic_raw_lib.cc
--   Raw.ServerImpl       RawServerImpl of quic_io/src/wrapper/quic_raw_lib.cc, and in Thread its thread
--   Raw.Sessions         the dispatcher with RawServerImpl as its visitor, from what Listen leaves
--   Raw.Received         a stream with RawServerImpl as its visitor, up to the user's listener
--   Transport.Stream     quic_transport/sdk/impl/quic_transport_owt_stream_impl.cc
--   Transport.ServerSession, Transport.ClientSession
--                        quic_transport/sdk/impl/quic_transport_owt_server_session.cc and
--                        quic_transport_owt_client_session.cc
--   Transport.Server     quic_transport/sdk/impl/quic_transport_owt_server_impl.cc
--   Transport.Client     quic_transport/sdk/impl/quic_transport_owt_client_impl.cc
--   Transport.Verifier   CreateProofVerifier of quic_transport/sdk/impl/quic_transport_owt_client_impl.cc
--   Transport.Dispatcher quic_transport/sdk/impl/quic_transport_owt_dispatcher.cc
--   FlowControl          Initialize of quic_io/src/quic_raw_server.cc and of
--                        quic_transport/sdk/impl/quic_transport_owt_server_impl.cc
--   Factory              quic_transport/sdk/impl/quic_transport_factory_impl.cc
--   Prelude              what all files share: tests on numbers, lists, association lists
--   Examples             runs on concrete inputs
--
-- How the code is modelled. The state of a class is a record of the members that its methods read or
-- write, followed by logs of what it does outside: the calls of its visitor, the tasks it posts, the
-- data it sends. Each method has one function, named after it in lower case. What net/ and quiche
-- return is an argument: a record of answers, a list of results, or an interface over a state of
-- theirs. A task that is posted is an item of a list, and an interleaving of threads is a list of
-- events, each of which runs a task, calls a method or delivers a callback. A call that posts a task
-- and waits for its signal gives an `Outcome`, which says when it waits for ever. A DCHECK is counted
-- and passed, as in a release build, but where its condition has an effect.
--
-- Fuel. DoLoop runs on fuel for 11 rounds, one more than there are states to go through. The
-- loops over a sequencer run on fuel that is as large as the number of bytes to read, or larger,
-- since each round takes one byte at least. All other loops follow a list or a count.
--
-- Not modelled: logging and version strings, the objects of Chromium that a constructor only passes
-- on, the fake proof source and verifier of quic_io, the ticket crypter, and the tests and
-- example programs.
pub mod Prelude
pub mod Net
pub mod Http3Client
pub mod Stream
pub mod ServerSession
pub mod Backend
pub mod ServerStream
pub mod WebServer
pub mod WebClient
pub mod Sequencer
pub mod Streams
pub mod Raw
pub mod Transport
pub mod Factory
mod Examples
pub mod ProofSource
pub mod WebFactory
pub mod Http3Server
pub mod Fingerprints
pub mod FlowControl
