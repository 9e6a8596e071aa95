-- ===== src/Http3Server.antt =====
-- The HTTP/3 side of the WebTransport server: web_transport/sdk/impl/http3_server_session.cc and
-- web_transport_owt_server_dispatcher.cc, with the request streams of ServerStream and the Backend that
-- they share.
pub mod Requests
pub mod Streams
use owt_sdk_quic.Prelude.{
  ℕ, zero, suc, Bool, true, false, not, Option, none, some, List, [], ◌∷◌, ◌++◌, if◌then◌else◌,
}
use owt_sdk_quic.Prelude.Maps.{insert}
use owt_sdk_quic.Streams.{
  ActiveStream, StreamType, incoming_stream, outgoing_stream, bidirectional, write_unidirectional,
}
use owt_sdk_quic.Backend as Backend
use owt_sdk_quic.ServerStream as ServerStream
use owt_sdk_quic.ServerStream.{Request, Response}

-- An Http3ServerSession: whether it was initialized, its active streams, newest first, and how many
-- of each kind it has opened itself.
pub record Session : Type 0 where
  pub initialized : Bool
  pub streams : List ActiveStream
  pub bidirectional_count : ℕ
  pub unidirectional_count : ℕ

-- Http3ServerSession::Http3ServerSession
unfoldable pub new_session : Session
new_session = record {
  initialized = false;
  streams = [];
  bidirectional_count = 0;
  unidirectional_count = 0;
}

-- QuicSession::Initialize
abbrev pub initialized_session : Session → Session
initialized_session s = record s { initialized = true }

-- CreateIncomingStream for an ID, where ShouldCreateIncomingStream says whether it may.
unfoldable pub create_incoming_stream : Bool → ℕ → Session → Option ActiveStream × Session
create_incoming_stream allowed id s =
    let stream = incoming_stream bidirectional id in
    if not allowed then (none, s) else (some stream, record s { streams = stream ∷ s.streams })

-- CreateIncomingStream for a pending stream, which knows its ID and kind.
unfoldable pub create_incoming_stream_pending :
    StreamType → ℕ → Session → Option ActiveStream × Session
create_incoming_stream_pending kind id s =
    let stream = incoming_stream kind id in (some stream, record s { streams = stream ∷ s.streams })

-- The IDs that GetNextOutgoingBidirectionalStreamId and GetNextOutgoingUnidirectionalStreamId give out.
module _ (nth_bidirectional_id nth_unidirectional_id : ℕ → ℕ) where
  -- CreateOutgoingBidirectionalStream, with WillNegotiateWebTransport and
  -- ShouldCreateOutgoingBidirectionalStream.
  unfoldable pub create_outgoing_bidirectional_stream :
      Bool → Bool → Session → Option ActiveStream × Session
  create_outgoing_bidirectional_stream will_negotiate allowed s =
      let stream = outgoing_stream bidirectional (nth_bidirectional_id s.bidirectional_count) in
      if not will_negotiate then (none, s) else if not allowed then (none, s) else (
        some stream,
        record s { streams = stream ∷ s.streams; bidirectional_count = suc s.bidirectional_count },
      )

  -- CreateOutgoingUnidirectionalStream, with ShouldCreateOutgoingUnidirectionalStream.
  unfoldable pub create_outgoing_unidirectional_stream :
      Bool → Session → Option ActiveStream × Session
  create_outgoing_unidirectional_stream allowed s =
      let stream =
        outgoing_stream write_unidirectional (nth_unidirectional_id s.unidirectional_count) in
      if not allowed then (none, s) else (
        some stream,
        record s {
          streams = stream ∷ s.streams;
          unidirectional_count = suc s.unidirectional_count;
        },
      )

-- The dispatcher with the sessions it made, by connection, its visitor, and the backend. A request's
-- answers are collected in `responses`, newest first.
pub record Dispatcher : Type 0 where
  pub sessions : List (ℕ × Session)
  pub has_visitor : Bool
  pub backend : Backend.Backend
  pub responses : List Response

unfoldable pub new_dispatcher : Bool → Dispatcher
new_dispatcher backend_visitor = record {
  sessions = [];
  has_visitor = false;
  backend = Backend.set_visitor backend_visitor Backend.new_backend;
  responses = [];
}

unfoldable pub set_visitor : Bool → Dispatcher → Dispatcher
set_visitor given d = record d { has_visitor = given }

-- CreateQuicSession
unfoldable pub create_quic_session : ℕ → Dispatcher → Dispatcher
unfolding new_session
create_quic_session connection d = record d {
  sessions = insert connection (initialized_session new_session) d.sessions;
}

-- OnInitialHeadersComplete of a request stream of this connection's session, and through SendResponse
-- the backend's OnSessionReady, which makes `made` where the stream has a WebTransport session.
unfoldable pub on_request : ℕ → Request → ℕ → Dispatcher → Dispatcher
on_request connection request made d =
    let answered = ServerStream.on_initial_headers_complete request ServerStream.new_stream in
    record d {
      responses = answered.responses ++ d.responses;
      backend = elim answered.sessions_ready [
        | zero ↦ d.backend
        | suc n ↦ Backend.on_session_ready connection made d.backend
      ];
    }
