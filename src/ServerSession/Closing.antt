-- ===== src/ServerSession/Closing.antt =====
-- How a session is closed, by the server and by the peer.
use owt_sdk_quic.Prelude.{
  ℕ, ◌≡◌, ◌≤◌, refl, true, some, List, [], ◌∷◌, if◌then◌else◌, length, map, arith, All, length-map,
}
use owt_sdk_quic.Stream.{StreamImpl}
use owt_sdk_quic.Stream
use owt_sdk_quic.ServerSession.{
  Session, max_reason_size, close, on_session_closed, on_connection_closed,
}

module _ {S : Type 0} where
  -- A reason is passed to the peer as it was given, however long it is: where
  -- TruncateUTF8ToByteSize leaves a text alone that fits the size, Close never shortens one.
  pub close_passes_reason :
      (truncate : List ℕ → ℕ → List ℕ)
      → ((text : List ℕ) (size : ℕ) → length text ≤ size → truncate text size ≡ text)
      → (code : ℕ) (reason : List ℕ) (s : Session S)
      → (close truncate code (some reason) s).session_closes
        ≡ record { code = code; reason = some reason } ∷ s.session_closes
  unfolding close
  close_passes_reason truncate keeps code reason s = ground (arith, keeps reason max_reason_size)

  closed_streams :
      (xs : List (StreamImpl S))
      → All (λ x. x.write_side_closed ≡ true) (map Stream.on_session_closed xs)
  unfolding Stream.on_session_closed
  closed_streams [] = tt
  closed_streams (x ∷ xs) = (refl, closed_streams xs)

  -- When quiche reports the session closed, the write side of every stream that the session has
  -- made is closed, no stream is lost, and a visitor is told OnConnectionClosed, once.
  pub on_session_closed_lem :
      (s : Session S)
      → All (λ x. x.write_side_closed ≡ true) (on_session_closed s).streams
        × (length (on_session_closed s).streams ≡ length s.streams)
        × ((on_session_closed s).visitor_calls
            ≡ (if s.has_visitor then on_connection_closed ∷ s.visitor_calls else s.visitor_calls))
  unfolding on_session_closed
  on_session_closed_lem s =
      ground (arith, closed_streams s.streams, length-map s.streams Stream.on_session_closed)
