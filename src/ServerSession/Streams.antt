-- ===== src/ServerSession/Streams.antt =====
-- The streams of a session.
use owt_sdk_quic.Prelude.{
  ◌≡◌, some, [], ◌∷◌, ◌++◌, if◌then◌else◌, get_elem?, arith, get_elem?-append_length,
}
use owt_sdk_quic.Stream.{new_stream}
use owt_sdk_quic.ServerSession.{
  Session, create_bidirectional_stream, accept_incoming_stream, on_incoming_stream,
}

module _ {S : Type 0} where
  -- A stream that the session opens or accepts is kept under the place that the caller or the
  -- visitor gets, with no visitor of its own and its write side open, and the older streams keep
  -- their places; only an accepted one is announced, to a visitor that is set.
  pub new_streams :
      (opened : S) (s : Session S)
      → let created = create_bidirectional_stream opened s in
        let accepted = accept_incoming_stream opened s in
        (get_elem? created.1.streams created.0 ≡ some (new_stream opened))
        × (created.1.streams ≡ s.streams ++ new_stream opened ∷ [])
        × (created.1.visitor_calls ≡ s.visitor_calls)
        × (accepted.streams ≡ created.1.streams)
        × (accepted.visitor_calls ≡ (
            if s.has_visitor
            then on_incoming_stream created.0 ∷ s.visitor_calls
            else s.visitor_calls))
  unfolding create_bidirectional_stream accept_incoming_stream
  new_streams opened s = ground (arith, get_elem?-append_length s.streams (new_stream opened))
