-- ===== src/Transport/Dispatcher.antt =====
-- quic_transport/sdk/impl/quic_transport_owt_dispatcher.h and .cc: the sessions that the server's
-- dispatcher makes, over quiche's QuicDispatcher, which is the record `Base`.
pub mod Closed
use owt_sdk_quic.Prelude.{
  ℕ, ◌≡◌, Bool, false, not, ◌&&◌, is_some, Option, none, some, List, [], ◌∷◌, ◌++◌, ◌==◌,
  if◌then◌else◌,
}

-- QuicDispatcher's map of sessions: inserting the session that CreateQuicSession returned for a
-- connection, which leaves the session of a connection that has one; its OnConnectionClosed, which
-- takes the connection's session away; and the session that it hands a connection's packets to.
pub record Base (State : Type 0) : Type 0 where
  pub keep : ℕ → ℕ → State → State
  pub on_connection_closed : ℕ → State → State
  pub session_of : ℕ → State → Option ℕ
  pub session_of-keep :
      (connection made session : ℕ) (b : State)
      → session_of connection (keep made session b) ≡ (
          if made == connection && not (is_some (session_of connection b))
          then some session
          else session_of connection b)
  pub session_of-on_connection_closed :
      (connection lost : ℕ) (b : State)
      → session_of connection (on_connection_closed lost b)
        ≡ (if lost == connection then none else session_of connection b)

-- A call of the visitor's OnSessionCreated, with a session, or OnSessionClosed, with a connection ID.
pub data VisitorCall : Type 0 where
  created closed : ℕ → VisitorCall

-- The visitor's calls are oldest first.
pub record Dispatcher (State : Type 0) : Type 0 where
  pub base : State
  pub has_visitor : Bool
  pub calls : List VisitorCall

unfoldable pub new_dispatcher : {State : Type 0} → State → Dispatcher State
new_dispatcher base = record { base = base; has_visitor = false; calls = [] }

unfoldable pub set_visitor : {State : Type 0} → Bool → Dispatcher State → Dispatcher State
set_visitor given d = record d { has_visitor = given }

module _ {State : Type 0} (quiche : Base State) where
  -- CreateQuicSession, which makes `session`, and what QuicDispatcher does with it.
  unfoldable pub create_quic_session : ℕ → ℕ → Dispatcher State → Dispatcher State
  create_quic_session connection session d = record d {
    base = quiche.keep connection session d.base;
    calls = if d.has_visitor then d.calls ++ created session ∷ [] else d.calls;
  }

  -- OnConnectionClosed, which does not call the one of QuicDispatcher.
  unfoldable pub on_connection_closed : ℕ → Dispatcher State → Dispatcher State
  on_connection_closed connection d =
      if d.has_visitor then record d { calls = d.calls ++ closed connection ∷ [] } else d
