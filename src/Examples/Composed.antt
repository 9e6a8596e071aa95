-- ===== src/Examples/Composed.antt =====
-- Parts that work together on concrete inputs: the WebTransport client with its HTTP/3 client, the
-- HTTP/3 server with its backend, and the dispatcher of the QUIC transport API over quiche's.
use owt_sdk_quic.Prelude.{
  ℕ, ◌+◌, ◌≡◌, ◌≤◌, refl, true, false, not, ◌||◌, ◌&&◌, ◌==◌, leb, none, some, List, [], ◌∷◌, ◌++◌,
  length, is_some, Option-cases, inl, inr, arith, if◌then◌else◌,
}
use owt_sdk_quic.Prelude.Maps.{lookup, insert, erase, lookup-insert, lookup-erase}
use owt_sdk_quic.Net.{no_error}
use owt_sdk_quic.Streams.{
  incoming_ids, opened_ids, read_unidirectional, is_bidirectional, is_write_unidirectional,
}
use owt_sdk_quic.Http3Client.State as State
use owt_sdk_quic.Http3Client.State.{new_client}
use owt_sdk_quic.Http3Client.Events as Events
use owt_sdk_quic.Http3Client.Invariant.{connected_calls}
use owt_sdk_quic.WebClient as User
use owt_sdk_quic.WebClient.Connection.{Connection, connect_on_current_thread}
use owt_sdk_quic.WebClient.Connection.Connected.{
  Event, transport, task_due, run, step, visited, connected_heard, connected_waiting, failed_heard,
  failed_waiting, failed_calls, user_hears_connection,
}
use owt_sdk_quic.WebClient.Connection.Closing.{closed_before_connected, clean_close_crashes}
use owt_sdk_quic.ServerStream.{Request}
use owt_sdk_quic.Http3Server.{new_session, new_dispatcher}
use owt_sdk_quic.Http3Server.Requests as Requests
use owt_sdk_quic.Http3Server.Requests.{connection_made, request_read, successes, requests_account}
use owt_sdk_quic.Http3Server.Streams as Streams
use owt_sdk_quic.Http3Server.Streams.{
  stream_arrives, pending_arrives, bidirectional_wanted, unidirectional_wanted, own_ids, arrived,
  bidirectional_granted, unidirectional_granted, http3_streams_account,
}
use owt_sdk_quic.Transport.Dispatcher.{Base}
use owt_sdk_quic.Transport.Dispatcher as Dispatcher
use owt_sdk_quic.Transport.Dispatcher.Closed as Closed
use owt_sdk_quic.Transport.Dispatcher.Closed.{
  session_wanted, connection_lost, first_made, told_of, closed_connections_stay,
}
use owt_sdk_quic.Examples.Http3.{page, reachable}

-- The connection is made, and the event thread tells of it.
abbrev life : List Event
life =
    transport Events.settings_received reachable
    ∷ transport Events.task_due reachable
    ∷ transport Events.task_due reachable
    ∷ transport Events.session_became_ready reachable
    ∷ transport Events.headers_complete reachable
    ∷ task_due none
    ∷ transport (Events.session_was_closed 7 []) reachable
    ∷ transport Events.task_due reachable
    ∷ []

user_hears_connection_example :
    let s = run life (connect_on_current_thread page reachable (visited true)) in
    (c : State.Client) × (s.client ≡ some c)
    × (connected_heard s.user + connected_waiting s.user ≡ connected_calls c)
    × (failed_heard s.user + failed_waiting s.user ≡ failed_calls c)
    × (connected_calls c ≤ 1)
    × ((not (c.violations == 0) || leb (connected_calls c + failed_calls c) 1) ≡ true)
user_hears_connection_example = user_hears_connection true page reachable life

-- A client that is connected, with a close info or without one.
abbrev closing_client : State.Client
closing_client = record (new_client page) {
  state = State.connected;
  close_info = some (record { code = 7; reason = 98 ∷ [] });
  tasks = State.close_task ∷ [];
}

abbrev closing : Connection
closing = record {
  user = record (User.new_client true) { has_visitor = true; tasks = User.fire_on_connected ∷ [] };
  client = some closing_client;
}

closed_before_connected_example :
    (run (transport Events.task_due reachable ∷ task_due none ∷ []) closing).user.calls
    ≡ closing.user.calls ++ User.closed_call 7 none ∷ User.connected_call ∷ []
unfolding new_client User.new_client
closed_before_connected_example =
    closed_before_connected closing (record { code = 7; reason = 98 ∷ [] }) [] reachable []
      (record {
        client = closing_client;
        is_there = refl;
        is_connected = refl;
        has_info = refl;
        has_tasks = refl;
      })
      refl refl

abbrev open_client : State.Client
open_client = record (new_client page) { state = State.connected }

abbrev open_connection : Connection
open_connection = record {
  user = record (User.new_client true) { has_visitor = true };
  client = some open_client;
}

clean_close_crashes_example :
    let closes = Events.connection_was_closed no_error (State.message []) no_error [] in
    let u = (step (transport closes reachable) open_connection).user in
    (u.crashed ≡ true) × (u.calls ≡ open_connection.user.calls)
unfolding new_client User.new_client
clean_close_crashes_example =
    clean_close_crashes open_connection [] reachable (State.message []) no_error []
      (record {
        client = open_client;
        is_there = refl;
        is_connected = refl;
        has_info = refl;
        has_tasks = refl;
      })
      refl refl

abbrev session_request : Request
session_request = record {
  is_valid = true;
  headers = (":method", "CONNECT") ∷ [];
  has_web_transport = true;
}

-- The second request of the first connection replaces its session.
abbrev requests : List Requests.Event
requests =
    connection_made 1
    ∷ connection_made 2
    ∷ request_read 1 session_request 10
    ∷ request_read 3 session_request 11
    ∷ request_read 1 session_request 12
    ∷ []

requests_account_example :
    let d = Requests.run requests (new_dispatcher true) in
    (length d.backend.sessions + length d.backend.destroyed ≡ successes d)
    × (length d.backend.announced ≡ (if true then successes d else 0))
    × ((not (is_some (lookup 1 d.backend.sessions)) || is_some (lookup 1 d.sessions)) ≡ true)
requests_account_example = requests_account true requests 1

abbrev nth_bidirectional : ℕ → ℕ
nth_bidirectional n = n + n + n + n + 1

abbrev nth_unidirectional : ℕ → ℕ
nth_unidirectional n = n + n + n + n + 3

abbrev wanted : List Streams.Event
wanted =
    stream_arrives true 0
    ∷ stream_arrives false 4
    ∷ bidirectional_wanted true true
    ∷ bidirectional_wanted false true
    ∷ pending_arrives read_unidirectional 2
    ∷ unidirectional_wanted true
    ∷ unidirectional_wanted true
    ∷ []

http3_streams_account_example :
    let s = Streams.run nth_bidirectional nth_unidirectional wanted new_session in
    (incoming_ids s.streams ≡ arrived wanted [])
    × (own_ids is_bidirectional s.streams
        ≡ opened_ids nth_bidirectional (bidirectional_granted wanted 0))
    × (own_ids is_write_unidirectional s.streams
        ≡ opened_ids nth_unidirectional (unidirectional_granted wanted 0))
http3_streams_account_example = http3_streams_account nth_bidirectional nth_unidirectional wanted

-- quiche's dispatcher as a map, which keeps a session that is there.
abbrev keep_first : ℕ → ℕ → List (ℕ × ℕ) → List (ℕ × ℕ)
keep_first connection session sessions = elim (lookup connection sessions) [
  | none ↦ insert connection session sessions
  | some old ↦ sessions
]

lookup-keep_first :
    (connection made session : ℕ) (b : List (ℕ × ℕ))
    → lookup connection (keep_first made session b) ≡ (
        if made == connection && not (is_some (lookup connection b))
        then some session
        else lookup connection b)
lookup-keep_first connection made session b = elim (Option-cases (lookup made b)) [
  | inl e ↦ ground (arith, e, lookup-insert made connection session b)
  | inr (old, e) ↦ ground (arith, e)
]

abbrev session_map : Base (List (ℕ × ℕ))
session_map = record {
  keep = keep_first;
  on_connection_closed = erase;
  session_of = lookup;
  session_of-keep = lookup-keep_first;
  session_of-on_connection_closed = λ connection lost b. lookup-erase lost connection b;
}

abbrev changes : List Closed.Event
changes = session_wanted 1 10 ∷ session_wanted 2 20 ∷ connection_lost 1 ∷ session_wanted 1 30 ∷ []

closed_connections_stay_example :
    let d =
      Closed.run session_map changes (Dispatcher.set_visitor true (Dispatcher.new_dispatcher [])) in
    let closed_one = Dispatcher.on_connection_closed session_map 1 d in
    (d.calls ≡ told_of changes)
    × (lookup 1 d.base ≡ first_made 1 changes none)
    × (lookup 1 closed_one.base ≡ first_made 1 changes none)
    × (lookup 1 (erase 1 d.base) ≡ none)
unfolding lookup
closed_connections_stay_example = closed_connections_stay session_map [] changes 1 refl
