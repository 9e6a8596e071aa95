-- ===== src/Http3Client/Events.antt =====
-- The public calls and the callbacks of WebTransportHttp3Client, its ConnectStream and its
-- session, from web_transport/sdk/impl/web_transport_http3_client.cc.
use Prim.Native.Nat.{min}
use owt_sdk_quic.Prelude.{
  ℕ, ◌*◌, Bool, true, false, not, ◌&&◌, ◌||◌, Option, none, some, List, [], ◌∷◌, ◌==◌, ltb,
  if◌then◌else◌, is_some, keep_if, contains,
}
use owt_sdk_quic.Net.{
  NetError, ok, failed, timed_out, method_not_supported, quic_protocol_error, QuicErrorCode,
  packet_read_error, is_no_error, is_invalid_version, QuicMessageStatus,
}
use owt_sdk_quic.Http3Client.State.{
  Client, WebTransportState, new, connecting, closed, state_eq, init, connect_complete,
  confirm_connection, connect_code, CloseInfo, Details, on_incoming_bidirectional_stream,
  on_incoming_unidirectional_stream, on_datagram_received, on_can_create_bidirectional,
  on_can_create_unidirectional, on_datagram_processed, Task, do_loop_task, close_task,
  create_connection_task, dcheck, emit, post, close_connection, set_error_with,
  set_error_if_necessary, transition_to_state,
}
use owt_sdk_quic.Http3Client.Connect.{Answers, create_connection, is_empty}
use owt_sdk_quic.Http3Client.Loop.{do_loop}

-- Connect
unfoldable pub connect_client : Answers → Client → Client
connect_client a c =
    let c' = record (transition_to_state connecting c) { next_connect_state = init } in
    let started = do_loop a ok c' in
    if not (state_eq c.state new) || not (connect_code c.next_connect_state == 0)
    then dcheck false c
    else started

-- kMaxCloseTimeout, in microseconds.
abbrev pub max_close_timeout : ℕ
max_close_timeout = 2000000

abbrev pub close_info_or_default : Option CloseInfo → CloseInfo
close_info_or_default none = record { code = 0; reason = [] }
close_info_or_default (some i) = i

-- Close, where the connection's probe timeout is `pto` microseconds. Without a connection or a
-- session it follows a null pointer.
unfoldable pub close_client : Option CloseInfo → ℕ → Client → Client
close_client info pto c =
    dcheck (ltb 0 c.connections && is_some c.web_transport_session) (record c {
      close_timeout = some (min (3 * pto) max_close_timeout);
      session_closes = close_info_or_default info ∷ c.session_closes;
    })

-- OnSettingsReceived
unfoldable pub on_settings_received : Client → Client
on_settings_received c =
    post do_loop_task
      (dcheck (connect_code c.next_connect_state == connect_code connect_complete) c)

-- OnHeadersComplete
unfoldable pub on_headers_complete : Answers → Client → Client
on_headers_complete a c =
    do_loop a ok (dcheck (connect_code c.next_connect_state == connect_code confirm_connection) c)

-- OnConnectStreamAborted
unfoldable pub on_connect_stream_aborted : Client → Client
on_connect_stream_aborted c =
    transition_to_state WebTransportState.failed
      (set_error_if_necessary (if c.session_ready then failed else method_not_supported) c)

-- ConnectStream::OnClose, where the last test is of QUIC_STREAM_CONNECTION_ERROR.
unfoldable pub on_connect_stream_close : Bool → Bool → Bool → Client → Client
unfolding on_connect_stream_aborted
on_connect_stream_close fin_received fin_sent connection_error c =
    if fin_received && fin_sent
    then c
    else if connection_error
    then c
    else on_connect_stream_aborted c

-- OnConnectStreamWriteSideInDataRecvdState
abbrev pub on_connect_stream_write_side_in_data_recvd_state : Client → Client
on_connect_stream_write_side_in_data_recvd_state c = post close_task c

-- OnCloseTimeout
unfoldable pub on_close_timeout : Client → Client
on_close_timeout c =
    transition_to_state WebTransportState.failed (set_error_if_necessary timed_out c)

-- OnSessionReady
unfoldable pub on_session_ready : Client → Client
on_session_ready c = record c { session_ready = true; has_http_response_info = true }

-- OnSessionClosed
unfoldable pub on_session_closed : ℕ → List ℕ → Client → Client
on_session_closed code reason c =
    post close_task (record c { close_info = some (record { code = code; reason = reason }) })

-- OnReadError
unfoldable pub on_read_error : NetError → Client → Client
on_read_error result c = close_connection packet_read_error (set_error_if_necessary result c)

-- OnWriteError; the connection is told too.
abbrev pub on_write_error : NetError → Client → Client
on_write_error error_code c = set_error_if_necessary error_code c

-- OnConnectionClosed after the test of the version.
unfoldable pub end_connection : QuicErrorCode → Details → Answers → Client → Client
end_connection e details a c =
    let c' = set_error_with quic_protocol_error e details c in
    let looped = do_loop a ok c' in
    if is_no_error e
    then (if not (state_eq c.state closed) then transition_to_state closed c else c)
    else if state_eq c'.state connecting
    then looped
    else transition_to_state WebTransportState.failed c'

-- The end of the retry's block: a new connection if a version is left.
unfoldable pub retry_or_end : QuicErrorCode → Details → Answers → Client → Client
retry_or_end e details a c =
    if not (is_empty c.supported_versions)
    then post create_connection_task c
    else end_connection e details a c

-- The start of the retry's block: EraseIf keeps the versions that the server has.
abbrev pub drop_versions : List ℕ → Client → Client
drop_versions server_versions c = record c {
  retried_with_new_version = true;
  supported_versions = keep_if (contains server_versions) c.supported_versions;
}

-- OnConnectionClosed(error, error_details), where `session_->error()` is `session_error` and the
-- server's versions are `server_versions`.
unfoldable pub on_connection_closed :
    QuicErrorCode → Details → QuicErrorCode → List ℕ → Answers → Client → Client
unfolding end_connection retry_or_end
on_connection_closed e details session_error server_versions a c =
    if not c.retried_with_new_version && is_invalid_version session_error
    then retry_or_end e details a (drop_versions server_versions c)
    else end_connection e details a c

-- The oldest task of the queue, off it.
unfoldable pub run_task : List Task → Answers → Client → Client
run_task [] a c = c
run_task (do_loop_task ∷ rest) a c = do_loop a ok (record c { tasks = rest })
run_task (close_task ∷ rest) a c = transition_to_state closed (record c { tasks = rest })
run_task (create_connection_task ∷ rest) a c = create_connection (record c { tasks = rest })

-- What reaches the client on its thread.
pub data Event : Type 0 where
  connect_called settings_received headers_complete session_became_ready : Event
  close_called : Option CloseInfo → ℕ → Event
  proxy_resolved host_resolved read_failed write_failed : NetError → Event
  write_side_done close_timed_out task_due incoming_bidirectional : Event
  incoming_unidirectional can_create_bidirectional can_create_unidirectional : Event
  connect_stream_closed : Bool → Bool → Bool → Event
  session_was_closed : ℕ → List ℕ → Event
  datagram_received : List ℕ → Event
  datagram_processed : Option QuicMessageStatus → Event
  connection_was_closed : QuicErrorCode → Details → QuicErrorCode → List ℕ → Event

unfoldable pub handle : Event → Answers → Client → Client
handle connect_called a c = connect_client a c
handle (close_called info pto) a c = close_client info pto c
-- ResolveProxy and the host resolver call DoLoop with their result.
handle (proxy_resolved rv) a c = do_loop a rv c
handle (host_resolved rv) a c = do_loop a rv c
handle settings_received a c = on_settings_received c
handle headers_complete a c = on_headers_complete a c
handle write_side_done a c = on_connect_stream_write_side_in_data_recvd_state c
handle (connect_stream_closed fin_received fin_sent e) a c =
    on_connect_stream_close fin_received fin_sent e c
handle close_timed_out a c = on_close_timeout c
handle session_became_ready a c = on_session_ready c
handle (session_was_closed code reason) a c = on_session_closed code reason c
handle incoming_bidirectional a c = emit on_incoming_bidirectional_stream c
handle incoming_unidirectional a c = emit on_incoming_unidirectional_stream c
handle can_create_bidirectional a c = emit on_can_create_bidirectional c
handle can_create_unidirectional a c = emit on_can_create_unidirectional c
handle (datagram_received d) a c = emit (on_datagram_received d) c
handle (datagram_processed s) a c = emit (on_datagram_processed s) c
handle (read_failed rv) a c = on_read_error rv c
handle (write_failed rv) a c = on_write_error rv c
handle (connection_was_closed e details session_error versions) a c =
    on_connection_closed e details session_error versions a c
handle task_due a c = run_task c.tasks a c

unfoldable pub run : List (Event × Answers) → Client → Client
run [] c = c
run ((e, a) ∷ es) c = run es (handle e a c)
