-- ===== src/Http3Server/Streams.antt =====
-- Which streams an Http3ServerSession comes to have.
use owt_sdk_quic.Prelude.{ℕ, suc, ◌≡◌, Bool, not, ◌&&◌, List, [], ◌∷◌, if◌then◌else◌, arith}
use owt_sdk_quic.Streams.{
  ActiveStream, StreamType, is_bidirectional, is_write_unidirectional, incoming_ids, opened_ids,
}
use owt_sdk_quic.Http3Server.{
  Session, new_session, create_incoming_stream, create_incoming_stream_pending,
  create_outgoing_bidirectional_stream, create_outgoing_unidirectional_stream,
}

-- What the session is asked for, with the answers of quiche's guards.
pub data Event : Type 0 where
  stream_arrives : Bool → ℕ → Event
  pending_arrives : StreamType → ℕ → Event
  bidirectional_wanted : Bool → Bool → Event
  unidirectional_wanted : Bool → Event

-- The IDs of the session's own streams of a kind, newest first.
abbrev pub own_ids : (StreamType → Bool) → List ActiveStream → List ℕ
own_ids of_kind [] = []
own_ids of_kind (t ∷ ts) =
    let rest = own_ids of_kind ts in if not t.incoming && of_kind t.kind then t.id ∷ rest else rest

-- The IDs of the streams that come in and may be made, behind those of before, newest first.
abbrev pub arrived : List Event → List ℕ → List ℕ
arrived [] before = before
arrived (stream_arrives allowed id ∷ es) before =
    arrived es (if allowed then id ∷ before else before)
arrived (pending_arrives kind id ∷ es) before = arrived es (id ∷ before)
arrived (bidirectional_wanted will allowed ∷ es) before = arrived es before
arrived (unidirectional_wanted allowed ∷ es) before = arrived es before

abbrev pub bidirectional_granted : List Event → ℕ → ℕ
bidirectional_granted [] before = before
bidirectional_granted (bidirectional_wanted will allowed ∷ es) before =
    bidirectional_granted es (if will && allowed then suc before else before)
bidirectional_granted (stream_arrives allowed id ∷ es) before = bidirectional_granted es before
bidirectional_granted (pending_arrives kind id ∷ es) before = bidirectional_granted es before
bidirectional_granted (unidirectional_wanted allowed ∷ es) before = bidirectional_granted es before

abbrev pub unidirectional_granted : List Event → ℕ → ℕ
unidirectional_granted [] before = before
unidirectional_granted (unidirectional_wanted allowed ∷ es) before =
    unidirectional_granted es (if allowed then suc before else before)
unidirectional_granted (stream_arrives allowed id ∷ es) before = unidirectional_granted es before
unidirectional_granted (pending_arrives kind id ∷ es) before = unidirectional_granted es before
unidirectional_granted (bidirectional_wanted will allowed ∷ es) before =
    unidirectional_granted es before

module _ (nth_bidirectional_id nth_unidirectional_id : ℕ → ℕ) where
  unfoldable pub step : Event → Session → Session
  step (stream_arrives allowed id) s = (create_incoming_stream allowed id s).1
  step (pending_arrives kind id) s = (create_incoming_stream_pending kind id s).1
  step (bidirectional_wanted will allowed) s =
      (create_outgoing_bidirectional_stream nth_bidirectional_id nth_unidirectional_id will allowed
        s).1
  step (unidirectional_wanted allowed) s =
      (create_outgoing_unidirectional_stream nth_bidirectional_id nth_unidirectional_id allowed s).1

  unfoldable pub run : List Event → Session → Session
  run [] s = s
  run (e ∷ es) s = run es (step e s)

  -- The streams of the session, by what it was asked for.
  record Has (s : Session) (from_peer : List ℕ) (bidirectional_made unidirectional_made : ℕ)
      : Type 0 where
    from_peer_ids : incoming_ids s.streams ≡ from_peer
    bidirectional_ids :
        own_ids is_bidirectional s.streams ≡ opened_ids nth_bidirectional_id bidirectional_made
    unidirectional_ids :
        own_ids is_write_unidirectional s.streams
        ≡ opened_ids nth_unidirectional_id unidirectional_made
    bidirectional_counted : s.bidirectional_count ≡ bidirectional_made
    unidirectional_counted : s.unidirectional_count ≡ unidirectional_made

  step-Has :
      (e : Event) (s : Session) (ids : List ℕ) (m n : ℕ)
      → Has s ids m n
      → Has
          (step e s)
          (arrived (e ∷ []) ids)
          (bidirectional_granted (e ∷ []) m)
          (unidirectional_granted (e ∷ []) n)
  unfolding step create_incoming_stream create_incoming_stream_pending
      create_outgoing_bidirectional_stream create_outgoing_unidirectional_stream
  step-Has (stream_arrives allowed id) s ids m n h = ground (
    arith, h.from_peer_ids, h.bidirectional_ids, h.unidirectional_ids, h.bidirectional_counted,
    h.unidirectional_counted,
  )
  step-Has (pending_arrives kind id) s ids m n h = ground (
    arith, h.from_peer_ids, h.bidirectional_ids, h.unidirectional_ids, h.bidirectional_counted,
    h.unidirectional_counted,
  )
  step-Has (bidirectional_wanted will allowed) s ids m n h = ground (
    arith, h.from_peer_ids, h.bidirectional_ids, h.unidirectional_ids, h.bidirectional_counted,
    h.unidirectional_counted,
  )
  step-Has (unidirectional_wanted allowed) s ids m n h = ground (
    arith, h.from_peer_ids, h.bidirectional_ids, h.unidirectional_ids, h.bidirectional_counted,
    h.unidirectional_counted,
  )

  run-Has :
      (es : List Event) (s : Session) (ids : List ℕ) (m n : ℕ)
      → Has s ids m n
      → Has (run es s) (arrived es ids) (bidirectional_granted es m) (unidirectional_granted es n)
  unfolding run
  run-Has [] s ids m n h = h
  run-Has (stream_arrives allowed id ∷ es) s ids m n h =
      run-Has es _ _ _ _ (step-Has (stream_arrives allowed id) s ids m n h)
  run-Has (pending_arrives kind id ∷ es) s ids m n h =
      run-Has es _ _ _ _ (step-Has (pending_arrives kind id) s ids m n h)
  run-Has (bidirectional_wanted will allowed ∷ es) s ids m n h =
      run-Has es _ _ _ _ (step-Has (bidirectional_wanted will allowed) s ids m n h)
  run-Has (unidirectional_wanted allowed ∷ es) s ids m n h =
      run-Has es _ _ _ _ (step-Has (unidirectional_wanted allowed) s ids m n h)

  -- Whatever a new session is asked for: the streams of the peer's are those that arrived and may be
  -- made, each once and in order, and its own streams of each kind are as many as it was granted, those
  -- with two directions only where WebTransport is negotiated, with the IDs that quiche gives out for
  -- the kind, in order and with none left out.
  pub http3_streams_account :
      (es : List Event)
      → let s = run es new_session in
        (incoming_ids s.streams ≡ arrived es [])
        × (own_ids is_bidirectional s.streams
            ≡ opened_ids nth_bidirectional_id (bidirectional_granted es 0))
        × (own_ids is_write_unidirectional s.streams
            ≡ opened_ids nth_unidirectional_id (unidirectional_granted es 0))
  unfolding new_session
  http3_streams_account es =
      let h = run-Has es new_session [] 0 0 (ground arith) in
      (h.from_peer_ids, h.bidirectional_ids, h.unidirectional_ids)
