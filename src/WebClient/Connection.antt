-- ===== src/WebClient/Connection.antt =====
-- web_transport/sdk/impl/web_transport_owt_client_impl.cc together with the
-- web_transport_http3_client.cc that it makes: Connect, and what the HTTP/3 client's visitor calls
-- become for the API's user.
pub mod Connected
pub mod Closing
use owt_sdk_quic.Prelude.{ℕ, Bool, true, false, Option, none, some, List, [], ◌∷◌}
use owt_sdk_quic.Streams.{Outcome, post_and_wait}
use owt_sdk_quic.Http3Client.State as State
use owt_sdk_quic.Http3Client.State.{Config, new_client}
use owt_sdk_quic.Http3Client.Connect.{Answers}
use owt_sdk_quic.Http3Client.Events.{Event, handle, connect_client}
use owt_sdk_quic.Http3Client.Telling.{told_since}
use owt_sdk_quic.WebClient as User

-- The object's own members, and `client_`, if Connect has made one.
pub record Connection : Type 0 where
  pub user : User.Client
  pub client : Option State.Client

unfoldable pub new_connection : Bool → Connection
new_connection is_debug = record { user = User.new_client is_debug; client = none }

-- A call of the visitor of the HTTP/3 client, which is the object itself.
unfoldable pub relay : State.VisitorCall → User.Client → User.Client
relay State.on_connected u = User.on_connected u
relay (State.on_connection_failed e) u = User.on_connection_failed u
relay (State.on_error e) u = User.on_error u
relay (State.on_closed none) u = User.on_closed none u
relay (State.on_closed (some info)) u =
    User.on_closed (some (record { code = info.code; reason = info.reason })) u
relay State.on_incoming_bidirectional_stream u = User.on_incoming_available true u
relay State.on_incoming_unidirectional_stream u = User.on_incoming_available false u
relay (State.on_datagram_processed status) u = User.on_datagram_processed status u
-- These have empty bodies.
relay (State.on_datagram_received datagram) u = u
relay State.on_can_create_bidirectional u = u
relay State.on_can_create_unidirectional u = u

-- Calls that are listed newest first.
unfoldable pub relay_all : List State.VisitorCall → User.Client → User.Client
relay_all [] u = u
relay_all (v ∷ vs) u = relay v (relay_all vs u)

-- ConnectOnCurrentThread: the client that was there is destroyed, with its tasks.
unfoldable pub connect_on_current_thread : Config → Answers → Connection → Connection
unfolding relay_all
connect_on_current_thread k a s =
    let fresh = new_client k in
    let started = connect_client a fresh in
    record { user = relay_all (told_since fresh started) s.user; client = some started }

-- Connect, called on the IO thread or on another one.
unfoldable pub connect : Bool → Config → Answers → Connection → Outcome Connection
unfolding post_and_wait connect_on_current_thread
connect on_io_thread k a s = post_and_wait on_io_thread (some (connect_on_current_thread k a s))

-- The destructor's task, which destroys the client with its tasks. The event thread runs its own tasks
-- until the destructor has ended.
unfoldable pub destroy_on_current_thread : Connection → Connection
destroy_on_current_thread s = record s { client = none }

-- The destructor, run on the IO thread or on another one.
unfoldable pub destroy : Bool → Connection → Outcome Connection
unfolding post_and_wait destroy_on_current_thread
destroy on_io_thread s = post_and_wait on_io_thread (some (destroy_on_current_thread s))

-- What the HTTP/3 client is told, or a task of its own.
unfoldable pub transport_event : Event → Answers → Connection → Connection
unfolding relay_all
transport_event e a s = elim s.client [
  | none ↦ s
  | some c ↦ record {
    user = relay_all (told_since c (handle e a c)) s.user;
    client = some (handle e a c);
  }
]

-- A task of the event thread; the session of the client has this stream, or none. Without a client its
-- session is looked for through a null pointer.
unfoldable pub run_task : Option ℕ → Connection → Connection
run_task stream s = record s { user = User.run_task stream s.user.tasks s.user }

-- CreateOutgoingStreamOnCurrentThread, which follows `client_` without a test.
unfoldable pub create_outgoing_stream : Bool → ℕ → Connection → Connection
create_outgoing_stream can_open stream s = elim s.client [
  | none ↦ record s { user = record s.user { crashed = true } }
  | some c ↦ record s {
    user = (User.create_outgoing_stream_on_current_thread can_open stream s.user).1;
  }
]
