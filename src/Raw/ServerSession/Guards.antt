-- ===== src/Raw/ServerSession/Guards.antt =====
-- Which streams a raw server's session comes to have.
use owt_sdk_quic.Prelude.{
  ℕ, suc, ◌≡◌, Bool, true, false, not, ◌&&◌, List, [], ◌∷◌, if◌then◌else◌, arith, ◌∙◌,
}
use owt_sdk_quic.Streams.{
  ActiveStream, all_of, incoming_ids, is_bidirectional, is_write_unidirectional,
}
use owt_sdk_quic.Raw.ServerSession.{
  Session, new_session, on_connection_closed, on_encryption_established,
  should_create_incoming_stream, should_create_outgoing_unidirectional_stream,
  create_incoming_stream, create_outgoing_bidirectional_stream,
  create_outgoing_unidirectional_stream,
}

-- What a session is asked, and what happens to it.
pub data Event : Type 0 where
  stream_arrives : ℕ → Event
  bidirectional_wanted unidirectional_wanted handshake_done connection_lost : Event

module _ (is_server_initiated : ℕ → Bool) (nth_outgoing_id : ℕ → ℕ) where
  unfoldable pub step : Event → Session → Session
  step (stream_arrives id) s = (create_incoming_stream is_server_initiated nth_outgoing_id id s).1
  step bidirectional_wanted s =
      (create_outgoing_bidirectional_stream is_server_initiated nth_outgoing_id s).1
  step unidirectional_wanted s =
      (create_outgoing_unidirectional_stream is_server_initiated nth_outgoing_id s).1
  step handshake_done s = on_encryption_established s
  step connection_lost s = on_connection_closed s

  unfoldable pub run : List Event → Session → Session
  run [] s = s
  run (e ∷ es) s = run es (step e s)

  -- A stream of the peer's has two directions and an ID of the client's side; one of the session's
  -- own is for writing only and has an ID of the server's side.
  abbrev pub is_proper : ActiveStream → Bool
  is_proper t =
      if t.incoming
      then is_bidirectional t.kind && not (is_server_initiated t.id)
      else is_write_unidirectional t.kind && is_server_initiated t.id

  -- The streams are proper, and the visitor was told of exactly those that the peer opened.
  record Inv (visitor : Bool) (s : Session) : Type 0 where
    proper : all_of is_proper s.streams ≡ true
    same_visitor : s.has_visitor ≡ visitor
    told : s.incoming_calls ≡ (if visitor then incoming_ids s.streams else [])

  step-Inv :
      ((n : ℕ) → is_server_initiated (nth_outgoing_id n) ≡ true)
      → (visitor : Bool) (e : Event) (s : Session) → Inv visitor s
      → Inv visitor (step e s)
  unfolding step create_incoming_stream should_create_incoming_stream
      create_outgoing_bidirectional_stream create_outgoing_unidirectional_stream
      should_create_outgoing_unidirectional_stream on_encryption_established on_connection_closed
  step-Inv own visitor (stream_arrives id) s v = ground (arith, v.proper, v.same_visitor, v.told)
  step-Inv own visitor bidirectional_wanted s v = ground (arith, v.proper, v.same_visitor, v.told)
  step-Inv own visitor unidirectional_wanted s v =
      ground (arith, v.proper, v.same_visitor, v.told, own s.outgoing_count)
  step-Inv own visitor handshake_done s v = ground (arith, v.proper, v.same_visitor, v.told)
  step-Inv own visitor connection_lost s v = ground (arith, v.proper, v.same_visitor, v.told)

  run-Inv :
      ((n : ℕ) → is_server_initiated (nth_outgoing_id n) ≡ true)
      → (visitor : Bool) (es : List Event) (s : Session) → Inv visitor s
      → Inv visitor (run es s)
  unfolding run
  run-Inv own visitor [] s v = v
  run-Inv own visitor (e ∷ es) s v = run-Inv own visitor es (step e s) (step-Inv own visitor e s v)

  -- Where the session's own IDs are of the server's side: whatever a new session goes through, each
  -- stream of the peer's has two directions and an ID of the client's side, each of its own is for
  -- writing only, and a visitor that it has was told of each stream of the peer's, once and in order.
  pub raw_streams_are_proper :
      ((n : ℕ) → is_server_initiated (nth_outgoing_id n) ≡ true)
      → (visitor : Bool) (es : List Event)
      → let s = run es (new_session visitor) in
        (all_of is_proper s.streams ≡ true)
        × (s.incoming_calls ≡ (if visitor then incoming_ids s.streams else []))
  unfolding new_session
  raw_streams_are_proper own visitor es =
      let v = run-Inv own visitor es (new_session visitor) (ground arith) in (v.proper, v.told)

  -- The session is disconnected, with what the other one has.
  record Ended (s s' : Session) : Type 0 where
    disconnected : s'.connected ≡ false
    same_streams : s'.streams ≡ s.streams
    same_calls : s'.incoming_calls ≡ s.incoming_calls
    same_closes : s'.invalid_id_closes ≡ s.invalid_id_closes

  step-Ended : (e : Event) (s : Session) → s.connected ≡ false → Ended s (step e s)
  unfolding step create_incoming_stream should_create_incoming_stream
      create_outgoing_bidirectional_stream create_outgoing_unidirectional_stream
      should_create_outgoing_unidirectional_stream on_encryption_established on_connection_closed
  step-Ended (stream_arrives id) s d = ground (arith, d)
  step-Ended bidirectional_wanted s d = ground (arith, d)
  step-Ended unidirectional_wanted s d = ground (arith, d)
  step-Ended handshake_done s d = ground (arith, d)
  step-Ended connection_lost s d = ground (arith, d)

  run-Ended : (es : List Event) (s : Session) → s.connected ≡ false → Ended s (run es s)
  unfolding run
  run-Ended [] s d = ground (arith, d)
  run-Ended (e ∷ es) s d =
      let h = step-Ended e s d in
      let later = run-Ended es (step e s) h.disconnected in
      record {
        disconnected = later.disconnected;
        same_streams = later.same_streams ∙ h.same_streams;
        same_calls = later.same_calls ∙ h.same_calls;
        same_closes = later.same_closes ∙ h.same_closes;
      }

  refused :
      (id : ℕ) (s : Session)
      → s.connected ≡ true
      → is_server_initiated id ≡ true
      → let s' = step (stream_arrives id) s in
        (s'.connected ≡ false)
        × (s'.streams ≡ s.streams)
        × (s'.incoming_calls ≡ s.incoming_calls)
        × (s'.invalid_id_closes ≡ suc s.invalid_id_closes)
  unfolding step create_incoming_stream should_create_incoming_stream
  refused id s c bad = ground (arith, c, bad)

  -- When the peer opens a stream with an ID of the server's side on a connected session, the
  -- connection is closed once for it, and from then on, whatever comes, no stream is made, no
  -- visitor told and the connection not closed again.
  pub wrong_id_ends_raw_session :
      (id : ℕ) (es : List Event) (s : Session)
      → s.connected ≡ true
      → is_server_initiated id ≡ true
      → let s' = run (stream_arrives id ∷ es) s in
        (s'.connected ≡ false)
        × (s'.streams ≡ s.streams)
        × (s'.incoming_calls ≡ s.incoming_calls)
        × (s'.invalid_id_closes ≡ suc s.invalid_id_closes)
  unfolding run
  wrong_id_ends_raw_session id es s c bad =
      let (lost, streams, calls, closes) = refused id s c bad in
      let later = run-Ended es (step (stream_arrives id) s) lost in
      (
        later.disconnected,
        later.same_streams ∙ streams,
        later.same_calls ∙ calls,
        later.same_closes ∙ closes,
      )
