-- ===== src/Transport/ClientSession/Guards.antt =====
-- Which streams of the peer's a client's session takes.
use owt_sdk_quic.Prelude.{ℕ, ◌≡◌, refl, Bool, true, false, List, [], ◌∷◌, arith}
use owt_sdk_quic.Streams.{incoming_ids}
use owt_sdk_quic.Transport.ClientSession.{
  Session, new_session, should_create_outgoing_bidirectional_stream, should_create_incoming_stream,
  activate_incoming, create_incoming_stream, create_incoming_stream_pending,
  create_outgoing_unidirectional_stream, create_outgoing_bidirectional_stream, on_stream_closed,
  on_connection_closed,
}

-- What a session is asked, and what happens to it, but for set_respect_goaway, which no code calls.
pub data Event : Type 0 where
  stream_arrives pending_arrives stream_ends : ℕ → Event
  bidirectional_wanted unidirectional_wanted handshake_done goaway_arrives connection_lost : Event

module _ (nth_outgoing_id : ℕ → ℕ) where
  unfoldable pub step : Event → Session → Session
  step (stream_arrives id) s = (create_incoming_stream id s).1
  step (pending_arrives id) s = (create_incoming_stream_pending id s).1
  step (stream_ends id) s = on_stream_closed id s
  step bidirectional_wanted s = (create_outgoing_bidirectional_stream nth_outgoing_id s).1
  step unidirectional_wanted s = (create_outgoing_unidirectional_stream s).1
  step handshake_done s = record s { encryption_established = true }
  step goaway_arrives s = record s { goaway_received = true }
  step connection_lost s = on_connection_closed s

  unfoldable pub run : List Event → Session → Session
  run [] s = s
  run (e ∷ es) s = run es (step e s)

  -- The streams of the peer's that come in, by the events alone, onto a list: each that arrives while
  -- the connection is there, and each that was pending.
  abbrev pub taken : Bool → List Event → List ℕ → List ℕ
  taken connected [] ids = ids
  taken true (stream_arrives id ∷ es) ids = taken true es (id ∷ ids)
  taken false (stream_arrives id ∷ es) ids = taken false es ids
  taken connected (pending_arrives id ∷ es) ids = taken connected es (id ∷ ids)
  taken connected (connection_lost ∷ es) ids = taken false es ids
  taken connected (e ∷ es) ids = taken connected es ids

  run-taken :
      (es : List Event) (s : Session)
      → s.respect_goaway ≡ false
      → incoming_ids (run es s).streams ≡ taken s.connected es (incoming_ids s.streams)
  unfolding run step create_incoming_stream should_create_incoming_stream activate_incoming
      create_incoming_stream_pending create_outgoing_bidirectional_stream on_stream_closed
      should_create_outgoing_bidirectional_stream create_outgoing_unidirectional_stream
      on_connection_closed
  run-taken [] s r = refl
  run-taken (stream_arrives id ∷ es) s r =
      ground (arith, r, run-taken es (step (stream_arrives id) s))
  run-taken (pending_arrives id ∷ es) s r =
      ground (arith, r, run-taken es (step (pending_arrives id) s))
  run-taken (stream_ends id ∷ es) s r = ground (arith, r, run-taken es (step (stream_ends id) s))
  run-taken (bidirectional_wanted ∷ es) s r =
      ground (arith, r, run-taken es (step bidirectional_wanted s))
  run-taken (unidirectional_wanted ∷ es) s r =
      ground (arith, r, run-taken es (step unidirectional_wanted s))
  run-taken (handshake_done ∷ es) s r = ground (arith, r, run-taken es (step handshake_done s))
  run-taken (goaway_arrives ∷ es) s r = ground (arith, r, run-taken es (step goaway_arrives s))
  run-taken (connection_lost ∷ es) s r = ground (arith, r, run-taken es (step connection_lost s))

  -- A new session, on which nobody calls set_respect_goaway, takes from the peer each stream that
  -- arrives until its connection is lost, whether a GOAWAY came before or not, and each stream that
  -- was pending, even after the connection is lost, in order and no other one.
  pub goaway_stops_nothing :
      (left_visitor : Bool) (es : List Event)
      → incoming_ids (run es (new_session left_visitor)).streams ≡ taken true es []
  unfolding new_session
  goaway_stops_nothing left_visitor es = run-taken es (new_session left_visitor) refl
