-- ===== src/Raw/ClientSession.antt =====
-- quic_io/src/quic_raw_client_session.h and .cc, and CreateClientStream of quic_raw_client_base.cc:
-- which streams a raw client's session makes.
pub mod Guards
use owt_sdk_quic.Prelude.{
  ℕ, suc, Bool, true, false, not, ◌&&◌, Option, none, some, List, [], ◌∷◌, if◌then◌else◌,
}
use owt_sdk_quic.Streams.{
  ActiveStream, incoming_stream, outgoing_stream, bidirectional, read_unidirectional,
}

-- What the guards read, how many outgoing streams were made, the active streams, newest first, and
-- the IDs of the streams that were given the client's visitor.
pub record Session : Type 0 where
  pub connected : Bool
  pub encryption_established : Bool
  pub goaway_received : Bool
  pub respect_goaway : Bool
  pub outgoing_count : ℕ
  pub streams : List ActiveStream
  pub visited : List ℕ

unfoldable pub new_session : Session
new_session = record {
  connected = true;
  encryption_established = false;
  goaway_received = false;
  respect_goaway = false;
  outgoing_count = 0;
  streams = [];
  visited = [];
}

unfoldable pub set_respect_goaway : Bool → Session → Session
set_respect_goaway respect s = record s { respect_goaway = respect }

unfoldable pub should_create_outgoing_bidirectional_stream : Session → Bool
should_create_outgoing_bidirectional_stream s = if not s.encryption_established then false else true

unfoldable pub should_create_incoming_stream : Session → Bool
should_create_incoming_stream s =
    if not s.connected then false else if s.goaway_received && s.respect_goaway then false else true

unfoldable pub create_incoming_stream : ℕ → Session → Option ActiveStream × Session
unfolding should_create_incoming_stream
create_incoming_stream id s =
    let stream = incoming_stream read_unidirectional id in
    if not (should_create_incoming_stream s)
    then (none, s)
    else (some stream, record s { streams = stream ∷ s.streams })

unfoldable pub create_outgoing_unidirectional_stream : Session → Option ActiveStream × Session
create_outgoing_unidirectional_stream s = (none, s)

-- The ID of the n-th outgoing stream, GetNextOutgoingStreamId.
module _ (nth_outgoing_id : ℕ → ℕ) where
  unfoldable pub create_outgoing_bidirectional_stream : Session → Option ActiveStream × Session
  unfolding should_create_outgoing_bidirectional_stream
  create_outgoing_bidirectional_stream s =
      let stream = outgoing_stream bidirectional (nth_outgoing_id s.outgoing_count) in
      if not (should_create_outgoing_bidirectional_stream s) then (none, s) else (
        some stream,
        record s { streams = stream ∷ s.streams; outgoing_count = suc s.outgoing_count },
      )

  abbrev give_visitor : Option ActiveStream × Session → Option ActiveStream × Session
  give_visitor (none, s) = (none, s)
  give_visitor (some t, s) = (some t, record s { visited = t.id ∷ s.visited })

  -- QuicRawClientBase::CreateClientStream
  unfoldable pub create_client_stream : Session → Option ActiveStream × Session
  create_client_stream s =
      if not s.connected then (none, s) else give_visitor (create_outgoing_bidirectional_stream s)
