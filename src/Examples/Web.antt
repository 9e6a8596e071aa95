-- ===== src/Examples/Web.antt =====
-- The WebTransport API's streams, sessions, server and client on concrete inputs.
use owt_sdk_quic.Prelude.{
  ℕ, suc, ◌≡◌, ◌≤◌, refl, true, ◌==◌, some, List, [], ◌∷◌, ◌++◌, length, take, get_elem?, arith,
  if◌then◌else◌,
}
use owt_sdk_quic.Net.{bytes}
use owt_sdk_quic.Stream.{
  QuicheStream, StreamImpl, new_stream, io_thread, other_thread, write, run, on_session_closed,
  on_reset_stream_received, writes, reads, closes,
}
use owt_sdk_quic.Stream.Writes.{closed_stream_refuses}
use owt_sdk_quic.Stream.Delivery.{WriteLaws, delivered, taken_is_delivered}
use owt_sdk_quic.ServerSession
use owt_sdk_quic.ServerSession.{
  Session, new_session, create_bidirectional_stream, accept_incoming_stream,
}
use owt_sdk_quic.ServerSession.Life as Life
use owt_sdk_quic.ServerSession.Life.{closed_session_writes_nothing}
use owt_sdk_quic.WebServer
use owt_sdk_quic.WebServer.{max_reads_per_event, schedule_read_packets, read_packets}
use owt_sdk_quic.WebServer.Reading.{ready_prefix, process_all, read_packets_lem}
use owt_sdk_quic.WebClient.{new_client}
use owt_sdk_quic.WebClient.Visits.{
  Counts, opened, opens, incoming, task_due, sets_visitor, streams_are_kept,
}
use owt_sdk_quic.WebClient.Visits

-- A stream whose state is the bytes written to it.
abbrev pipe : QuicheStream (List ℕ)
pipe = record {
  stream_id = λ s. 4;
  write = λ s more. (true, s ++ more);
  read = λ s size. (take size s, s);
  readable_bytes = λ s. length s;
  send_fin = λ s. (true, s);
  buffered_data_bytes = λ s. length s;
  can_write = λ s. true;
}

abbrev empty_stream : StreamImpl (List ℕ)
empty_stream = new_stream []

abbrev two_bytes : List ℕ
two_bytes = 1 ∷ 2 ∷ []

abbrev pipe_laws : WriteLaws pipe
pipe_laws = record {
  taken = λ s. s;
  takes_all = λ s more. refl;
  read_keeps = λ s size. refl;
  fin_keeps = λ s. refl;
}

taken_is_delivered_example :
    let os =
      writes io_thread two_bytes ∷ reads io_thread 1 ∷ writes (other_thread true) two_bytes ∷ [] in
    (run pipe os empty_stream).inner
    ≡ empty_stream.inner ++ delivered pipe pipe_laws os empty_stream
taken_is_delivered_example =
    taken_is_delivered pipe pipe_laws
      (writes io_thread two_bytes ∷ reads io_thread 1 ∷ writes (other_thread true) two_bytes ∷ [])
      empty_stream

closed_stream_refuses_example :
    let os = writes io_thread (7 ∷ []) ∷ closes (other_thread true) ∷ [] in
    (write pipe io_thread (9 ∷ []) (run pipe os (on_session_closed empty_stream))
      ≡ (0, run pipe os (on_session_closed empty_stream)))
    × (write pipe io_thread (9 ∷ []) (run pipe os (on_reset_stream_received empty_stream))
        ≡ (0, run pipe os (on_reset_stream_received empty_stream)))
closed_stream_refuses_example =
    closed_stream_refuses pipe (writes io_thread (7 ∷ []) ∷ closes (other_thread true) ∷ [])
      io_thread (9 ∷ []) empty_stream

abbrev first_bytes : List ℕ → ℕ → List ℕ
first_bytes text size = take size text

abbrev quiet_session : Session (List ℕ)
quiet_session = new_session

abbrev session_of_two : Session (List ℕ)
session_of_two = (create_bidirectional_stream (5 ∷ []) (accept_incoming_stream [] quiet_session)).1

closed_session_writes_nothing_example :
    let es = Life.accepts [] ∷ Life.on_stream 1 (writes io_thread (7 ∷ [])) ∷ [] in
    (x : StreamImpl (List ℕ)) × (get_elem?
        (Life.run pipe first_bytes es (ServerSession.on_session_closed session_of_two)).streams
        1
      ≡ some x)
    × (write pipe (other_thread true) (9 ∷ []) x ≡ (0, x))
unfolding create_bidirectional_stream accept_incoming_stream new_session
closed_session_writes_nothing_example =
    closed_session_writes_nothing pipe first_bytes session_of_two
      (Life.accepts [] ∷ Life.on_stream 1 (writes io_thread (7 ∷ [])) ∷ []) 1 (other_thread true)
      (9 ∷ []) (omega arith)

read_packets_lem_example :
    let rs = bytes 1200 ∷ bytes 40 ∷ [] in
    let ready = ready_prefix max_reads_per_event rs in
    let done =
      process_all ready
        (record WebServer.new_server { chlo_rounds = suc WebServer.new_server.chlo_rounds }) in
    ((read_packets rs WebServer.new_server).1
      ≡ (if length ready == max_reads_per_event then schedule_read_packets done else done))
    × (length ready ≤ max_reads_per_event)
read_packets_lem_example = read_packets_lem (bytes 1200 ∷ bytes 40 ∷ []) WebServer.new_server

streams_are_kept_example :
    Counts true
      (Visits.run
        (sets_visitor true ∷ incoming true ∷ task_due (some 4) ∷ opens true 8 ∷ [])
        (new_client true))
      (opened (sets_visitor true ∷ incoming true ∷ task_due (some 4) ∷ opens true 8 ∷ []))
streams_are_kept_example =
    streams_are_kept true
      (sets_visitor true ∷ incoming true ∷ task_due (some 4) ∷ opens true 8 ∷ [])
