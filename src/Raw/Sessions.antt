-- ===== src/Raw/Sessions.antt =====
-- The raw server's sessions from its connections to the numbers that its user has for them:
-- quic_io/src/quic_raw_dispatcher.cc with the RawServerImpl of quic_io/src/wrapper/quic_raw_lib.cc as
-- its visitor from the time when InitAndRun sets it.
pub mod Numbers
pub mod Registered
use owt_sdk_quic.Prelude.{
  ℕ, ◌+◌, ◌^◌, ◌≡◌, Bool, true, false, not, ◌&&◌, ◌||◌, ◌==◌, Option, none, some, ltb, is_some,
  List, [], ◌∷◌,
}
use owt_sdk_quic.Prelude.Maps.{lookup, erase}
use owt_sdk_quic.Raw.Dispatcher as Dispatcher
use owt_sdk_quic.Raw.Dispatcher.{Dispatcher, new_dispatcher}
use owt_sdk_quic.Raw.ServerImpl as Impl
use owt_sdk_quic.Raw.ServerImpl.{Stream, ServerImpl}
use owt_sdk_quic.Raw.ServerImpl.Registry as Registry

-- Whether a connection has the session.
abbrev pub has_session : ℕ → List (ℕ × ℕ) → Bool
has_session session [] = false
has_session session ((connection, other) ∷ rest) = (other == session) || has_session session rest

-- A session is made for a connection that has none, at an address that no connected session has.
abbrev pub is_new : ℕ → ℕ → Dispatcher → Bool
is_new connection session d =
    not (is_some (lookup connection d.sessions)) && not (has_session session d.sessions)

-- The dispatcher of a call of Listen, which reads packets before it returns, and before the
-- dispatcher has a visitor.
pub data Listened : Dispatcher → Type 0 where
  listens : Listened new_dispatcher
  makes :
      (connection session : ℕ) (d : Dispatcher)
      → Listened d
      → is_new connection session d ≡ true
      → Listened (Dispatcher.create_quic_session connection session d)
  loses :
      (connection : ℕ) (d : Dispatcher)
      → Listened d
      → Listened (Dispatcher.on_connection_closed connection d)
  counts :
      (code : ℕ) (d : Dispatcher) → Listened d → Listened (Dispatcher.on_rst_stream_received code d)

pub record Server : Type 0 where
  pub dispatcher : Dispatcher
  pub impl : ServerImpl

-- InitAndRun after Listen: the dispatcher gets the wrapper as its visitor.
unfoldable pub start : Dispatcher → ServerImpl → Server
start listened impl = record { dispatcher = Dispatcher.set_visitor true listened; impl = impl }

-- CreateQuicSession for a new connection, and OnSessionCreated.
unfoldable pub connect : ℕ → ℕ → Server → Server
connect connection session s = record {
  dispatcher = Dispatcher.create_quic_session connection session s.dispatcher;
  impl = Impl.on_session_created session s.impl;
}

abbrev pub tell_closed : Option ℕ → ServerImpl → ServerImpl
tell_closed none s = s
tell_closed (some session) s = Impl.on_session_closed session s

-- OnConnectionClosed, and OnSessionClosed where the connection has a session.
unfoldable pub disconnect : ℕ → Server → Server
disconnect connection s = record {
  dispatcher = Dispatcher.on_connection_closed connection s.dispatcher;
  impl = tell_closed (lookup connection s.dispatcher.sessions) s.impl;
}

-- The states that the server comes to after Listen, from the maps that it may have from earlier loops:
-- `first` is the first number that it then gives, and `early` holds the sessions that were made during
-- Listen and are connected still. Fewer sessions are made than a uint32_t counts.
pub data Reachable (first : ℕ) : List (ℕ × ℕ) → Server → Type 0 where
  starts :
      (clean : Bool) (d : Dispatcher) (impl : ServerImpl)
      → Listened d
      → Registry.Reachable clean impl
      → impl.next_session_id ≡ first
      → Reachable first d.sessions (start d impl)
  connects :
      (connection session : ℕ) (early : List (ℕ × ℕ)) (s : Server)
      → Reachable first early s
      → is_new connection session s.dispatcher ≡ true
      → ltb (s.impl.next_session_id + 1) (2 ^ 32) ≡ true
      → Reachable first early (connect connection session s)
  disconnects :
      (connection : ℕ) (early : List (ℕ × ℕ)) (s : Server)
      → Reachable first early s
      → Reachable first (erase connection early) (disconnect connection s)
  resets :
      (code : ℕ) (early : List (ℕ × ℕ)) (s : Server)
      → Reachable first early s
      → Reachable first early
          (record s { dispatcher = Dispatcher.on_rst_stream_received code s.dispatcher })
  opens :
      (session : ℕ) (t : Stream) (early : List (ℕ × ℕ)) (s : Server)
      → Reachable first early s
      → Reachable first early (record s { impl = Impl.on_incoming_stream session t s.impl })
  closes :
      (t : Stream) (early : List (ℕ × ℕ)) (s : Server)
      → Reachable first early s
      → Reachable first early (record s { impl = Impl.on_close t s.impl })
  receives :
      (t : Stream) (content : List ℕ) (early : List (ℕ × ℕ)) (s : Server)
      → Reachable first early s
      → Reachable first early (record s { impl = Impl.on_data t content s.impl })
