-- ===== src/Raw/ServerSession.antt =====
-- quic_io/src/quic_raw_server_session.h and .cc: which streams a raw server's session makes.
pub mod Guards
use owt_sdk_quic.Prelude.{
  ℕ, suc, Bool, true, false, not, Option, none, some, List, [], ◌∷◌, if◌then◌else◌,
}
use owt_sdk_quic.Streams.{
  ActiveStream, incoming_stream, outgoing_stream, bidirectional, write_unidirectional,
}

-- What the guards read, how many outgoing streams were made, the active streams and the visitor's
-- OnIncomingStream calls, newest first, and how often the session closed the connection for a
-- stream ID, which disconnects it. `asserted` counts DCHECKs that fail.
pub record Session : Type 0 where
  pub connected : Bool
  pub encryption_established : Bool
  pub has_visitor : Bool
  pub outgoing_count : ℕ
  pub streams : List ActiveStream
  pub incoming_calls : List ℕ
  pub invalid_id_closes : ℕ
  pub asserted : ℕ

unfoldable pub new_session : Bool → Session
new_session has_visitor = record {
  connected = true;
  encryption_established = false;
  has_visitor = has_visitor;
  outgoing_count = 0;
  streams = [];
  incoming_calls = [];
  invalid_id_closes = 0;
  asserted = 0;
}

unfoldable pub set_visitor : Bool → Session → Session
set_visitor given s = record s { has_visitor = given }

-- OnConnectionClosed
unfoldable pub on_connection_closed : Session → Session
on_connection_closed s = record s { connected = false }

-- The crypto stream has done its part of the handshake.
unfoldable pub on_encryption_established : Session → Session
on_encryption_established s = record s { encryption_established = true }

-- QuicUtils::IsServerInitiatedStreamId for the connection's version, and the ID of the n-th outgoing
-- stream, GetNextOutgoingStreamId.
module _ (is_server_initiated : ℕ → Bool) (nth_outgoing_id : ℕ → ℕ) where
  unfoldable pub should_create_incoming_stream : ℕ → Session → Bool × Session
  should_create_incoming_stream id s =
      if not s.connected
      then (false, s)
      else if is_server_initiated id
      then (false, record s { connected = false; invalid_id_closes = suc s.invalid_id_closes })
      else (true, s)

  unfoldable pub should_create_outgoing_bidirectional_stream : Session → Bool
  should_create_outgoing_bidirectional_stream s =
      if not s.connected then false else if not s.encryption_established then false else true

  unfoldable pub should_create_outgoing_unidirectional_stream : Session → Bool
  should_create_outgoing_unidirectional_stream s =
      if not s.connected then false else if not s.encryption_established then false else true

  -- The stream that is made, if any.
  unfoldable pub create_incoming_stream : ℕ → Session → Option ActiveStream × Session
  unfolding should_create_incoming_stream
  create_incoming_stream id s =
      let (allowed, s') = should_create_incoming_stream id s in
      let stream = incoming_stream bidirectional id in
      if not allowed then (none, s') else (
        some stream,
        record s' {
          streams = stream ∷ s'.streams;
          incoming_calls = if s'.has_visitor then id ∷ s'.incoming_calls else s'.incoming_calls;
        },
      )

  unfoldable pub create_outgoing_bidirectional_stream : Session → Option ActiveStream × Session
  create_outgoing_bidirectional_stream s = (none, record s { asserted = suc s.asserted })

  unfoldable pub create_outgoing_unidirectional_stream : Session → Option ActiveStream × Session
  create_outgoing_unidirectional_stream s =
      let stream = outgoing_stream write_unidirectional (nth_outgoing_id s.outgoing_count) in
      if not (should_create_outgoing_unidirectional_stream s) then (none, s) else (
        some stream,
        record s { streams = stream ∷ s.streams; outgoing_count = suc s.outgoing_count },
      )
