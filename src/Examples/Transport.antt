-- ===== src/Examples/Transport.antt =====
-- The QUIC transport API's client and server on concrete inputs.
use owt_sdk_quic.Prelude.{
  ℕ, ◌+◌, ◌≡◌, refl, Bool, true, false, none, List, [], ◌∷◌, ◌++◌, replicate, if◌then◌else◌, arith,
}
use owt_sdk_quic.Net.{ok, failed, bytes, peer_going_away}
use owt_sdk_quic.Sequencer.{Sequencer}
use owt_sdk_quic.Streams.{finished, incoming_ids, opened_ids}
use owt_sdk_quic.Transport.Stream
use owt_sdk_quic.Transport.Stream.{
  new_stream, calls, run_tasks, calls_send_data, calls_close, data_arrives,
}
use owt_sdk_quic.Transport.Stream.Tasks.{outgoing, calls_are_written}
use owt_sdk_quic.Transport.ServerSession
use owt_sdk_quic.Transport.ServerSession.Guards as SessionGuards
use owt_sdk_quic.Transport.ServerSession.Guards.{
  own_ids, transport_streams_account, stopped_session_opens_nothing,
}
use owt_sdk_quic.Transport.ClientSession
use owt_sdk_quic.Transport.ClientSession.Guards
use owt_sdk_quic.Transport.ClientSession.Guards.{taken, goaway_stops_nothing}
use owt_sdk_quic.Transport.Server
use owt_sdk_quic.Transport.Server.{
  ListenAnswers, start, new_server, start_reading, stop, session_created,
}
use owt_sdk_quic.Transport.Server.Running.{
  Round, handle, run, socket_result, task_due, event_task_due, session_changed, server_stays_up,
  ReadsOn,
}
use owt_sdk_quic.Transport.Server.Sessions.{sessions_of, sessions_are_told}
use owt_sdk_quic.Transport.Server.Stopping.{stop_in_burst_crashes}
use owt_sdk_quic.Transport.Client as Client
use owt_sdk_quic.Transport.Client.Visits as Visits

abbrev no_bytes : Sequencer ℕ
no_bytes = record {
  has_bytes_to_read = λ s. false;
  readable_region = λ s. none;
  mark_consumed = λ n s. s;
  is_closed = λ s. false;
}

abbrev stream_calls : List Stream.Call
stream_calls =
    calls_send_data (7 ∷ 8 ∷ []) 1 ∷ data_arrives ∷ calls_close ∷ calls_send_data (9 ∷ []) 1 ∷ []

abbrev quiet_stream : Stream.Stream ℕ
quiet_stream = new_stream 0

calls_are_written_example :
    let called = calls stream_calls quiet_stream in
    (run_tasks no_bytes 1 called.tasks called).written
    ≡ quiet_stream.written ++ outgoing quiet_stream.write_side_closed stream_calls
unfolding new_stream
calls_are_written_example = calls_are_written no_bytes 1 stream_calls quiet_stream refl

abbrev never : ℕ → Bool
never id = false

abbrev even_id : ℕ → ℕ
even_id n = n + n

abbrev odd_id : ℕ → ℕ
odd_id n = n + n + 1

abbrev session_events : List SessionGuards.Event
session_events =
    SessionGuards.handshake_done
    ∷ SessionGuards.stream_arrives 4
    ∷ SessionGuards.bidirectional_wanted true
    ∷ SessionGuards.unidirectional_wanted true
    ∷ []

abbrev early_events : List SessionGuards.Event
early_events = SessionGuards.stream_arrives 8 ∷ []

transport_streams_account_example :
    let s = SessionGuards.run never even_id odd_id early_events ServerSession.new_session in
    let t =
      SessionGuards.run never even_id odd_id session_events (ServerSession.set_visitor true s) in
    ((taken : List ℕ) × (incoming_ids t.streams ≡ taken ++ incoming_ids s.streams)
      × (t.incoming_calls ≡ (if true then taken else []) ++ s.incoming_calls))
    × (own_ids true t.streams ≡ opened_ids even_id t.bidirectional_count)
    × (own_ids false t.streams ≡ opened_ids odd_id t.unidirectional_count)
transport_streams_account_example =
    transport_streams_account never even_id odd_id early_events session_events true refl

abbrev new_transport_session : ServerSession.Session
new_transport_session = ServerSession.new_session

stopped_session_opens_nothing_example :
    let asked = ServerSession.stop false new_transport_session in
    let stopped = if false then asked else ServerSession.run_task ServerSession.stop_task asked in
    let later = SessionGuards.run never even_id odd_id session_events stopped in
    (stopped.closes ≡ peer_going_away ∷ new_transport_session.closes)
    × (later.bidirectional_count ≡ new_transport_session.bidirectional_count)
    × (later.unidirectional_count ≡ new_transport_session.unidirectional_count)
    × (ServerSession.create_bidirectional_stream never even_id odd_id true true later
        ≡ finished (none, later))
stopped_session_opens_nothing_example =
    stopped_session_opens_nothing never even_id odd_id false true true session_events
      new_transport_session

-- A stream after a GOAWAY, and two after the connection is lost.
abbrev late_events : List Guards.Event
late_events =
    Guards.goaway_arrives
    ∷ Guards.stream_arrives 3
    ∷ Guards.connection_lost
    ∷ Guards.stream_arrives 5
    ∷ Guards.pending_arrives 7
    ∷ []

goaway_stops_nothing_example :
    incoming_ids (Guards.run even_id late_events (ClientSession.new_session false)).streams
    ≡ taken even_id true late_events []
goaway_stops_nothing_example = goaway_stops_nothing even_id false late_events

abbrev busy_port : ListenAnswers
busy_port = record {
  listen = failed;
  set_receive_buffer_size = ok;
  set_send_buffer_size = ok;
  get_local_address = ok;
}

abbrev server_rounds : List Round
server_rounds =
    record { event = session_changed (session_created 7); stock = []; has_chlos = false }
    ∷ record { event = socket_result (bytes 9); stock = bytes 40 ∷ []; has_chlos = true }
    ∷ record { event = event_task_due; stock = []; has_chlos = false }
    ∷ record { event = task_due; stock = []; has_chlos = false }
    ∷ []

server_stays_up_example : ReadsOn (
    run busy_port server_rounds
      (handle busy_port task_due (bytes 9 ∷ []) true (start (new_server true)).1))
server_stays_up_example = server_stays_up busy_port true true (bytes 9 ∷ []) server_rounds refl refl

sessions_are_told_example :
    let s = run busy_port server_rounds (start (new_server true)).1 in
    s.calls ++ s.event_tasks ≡ sessions_of server_rounds
sessions_are_told_example = sessions_are_told busy_port server_rounds

abbrev reading_server : Server.Server
reading_server = record (new_server false) { has_socket = true; has_dispatcher = true }

stop_in_burst_crashes_example :
    let burst = (start_reading false (replicate 33 (bytes 9)) (stop reading_server)).1 in
    (handle busy_port task_due [] false (handle busy_port task_due [] false burst)).crashed ≡ true
unfolding new_server
stop_in_burst_crashes_example =
    stop_in_burst_crashes busy_port false false (replicate 33 (bytes 9)) [] reading_server refl
      (omega arith) refl (refl, refl) refl refl

abbrev client_events : List Visits.Event
client_events =
    Visits.arrives false 3 ∷ Visits.event_task_due ∷ Visits.closes 3 ∷ Visits.arrives true 7 ∷ []
