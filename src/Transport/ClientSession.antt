-- ===== src/Transport/ClientSession.antt =====
-- quic_transport/sdk/impl/quic_transport_owt_client_session.h and .cc: which streams a client's
-- session makes, and what it tells its visitor.
pub mod Guards
use owt_sdk_quic.Prelude.{
  ℕ, suc, Bool, true, false, not, ◌&&◌, Option, none, some, List, [], ◌∷◌, if◌then◌else◌,
}
use owt_sdk_quic.Streams.{ActiveStream, incoming_stream, outgoing_stream, bidirectional}

-- What the guards read, how many outgoing streams were made, the active streams and the visitor's
-- OnIncomingNewStream and OnStreamClosed calls, newest first, and the number of its
-- OnConnectionClosed calls.
pub record Session : Type 0 where
  pub connected : Bool
  pub encryption_established : Bool
  pub goaway_received : Bool
  pub respect_goaway : Bool
  pub has_visitor : Bool
  pub outgoing_count : ℕ
  pub streams : List ActiveStream
  pub incoming_calls : List ℕ
  pub stream_closed_calls : List ℕ
  pub connection_closed_calls : ℕ

-- The constructor, which leaves `visitor_` as it finds it: whether that is null or not.
unfoldable pub new_session : Bool → Session
new_session left_visitor = record {
  connected = true;
  encryption_established = false;
  goaway_received = false;
  respect_goaway = false;
  has_visitor = left_visitor;
  outgoing_count = 0;
  streams = [];
  incoming_calls = [];
  stream_closed_calls = [];
  connection_closed_calls = 0;
}

unfoldable pub set_visitor : Bool → Session → Session
set_visitor given s = record s { has_visitor = given }

unfoldable pub set_respect_goaway : Bool → Session → Session
set_respect_goaway respect s = record s { respect_goaway = respect }

unfoldable pub should_create_outgoing_bidirectional_stream : Session → Bool
should_create_outgoing_bidirectional_stream s = if not s.encryption_established then false else true

unfoldable pub should_create_incoming_stream : Session → Bool
should_create_incoming_stream s =
    if not s.connected then false else if s.goaway_received && s.respect_goaway then false else true

-- A stream of the peer's is activated and shown to the visitor.
unfoldable pub activate_incoming : ℕ → Session → Session
activate_incoming id s = record s {
  streams = incoming_stream bidirectional id ∷ s.streams;
  incoming_calls = if s.has_visitor then id ∷ s.incoming_calls else s.incoming_calls;
}

-- CreateIncomingStream of an ID.
unfoldable pub create_incoming_stream : ℕ → Session → Option ActiveStream × Session
unfolding should_create_incoming_stream activate_incoming
create_incoming_stream id s =
    if not (should_create_incoming_stream s)
    then (none, s)
    else (some (incoming_stream bidirectional id), activate_incoming id s)

-- CreateIncomingStream of a pending stream.
unfoldable pub create_incoming_stream_pending : ℕ → Session → Option ActiveStream × Session
create_incoming_stream_pending id s =
    (some (incoming_stream bidirectional id), activate_incoming id s)

unfoldable pub create_outgoing_unidirectional_stream : Session → Option ActiveStream × Session
create_outgoing_unidirectional_stream s = (none, s)

unfoldable pub on_stream_closed : ℕ → Session → Session
on_stream_closed id s =
    if s.has_visitor then record s { stream_closed_calls = id ∷ s.stream_closed_calls } else s

-- OnConnectionClosed, which quiche calls when it has disconnected the connection. It does not call
-- the base class's.
unfoldable pub on_connection_closed : Session → Session
on_connection_closed s = record s {
  connected = false;
  connection_closed_calls =
      if s.has_visitor then suc s.connection_closed_calls else s.connection_closed_calls;
}

-- The ID of the n-th outgoing stream, GetNextOutgoingBidirectionalStreamId.
module _ (nth_outgoing_id : ℕ → ℕ) where
  unfoldable pub create_outgoing_bidirectional_stream : Session → Option ActiveStream × Session
  unfolding should_create_outgoing_bidirectional_stream
  create_outgoing_bidirectional_stream s =
      let stream = outgoing_stream bidirectional (nth_outgoing_id s.outgoing_count) in
      if not (should_create_outgoing_bidirectional_stream s) then (none, s) else (
        some stream,
        record s { streams = stream ∷ s.streams; outgoing_count = suc s.outgoing_count },
      )
