-- ===== src/Http3Client/Runs.antt =====
-- What holds of WebTransportHttp3Client after any calls and callbacks, in any order.
use owt_sdk_quic.Prelude.{
  ℕ, ◌≤◌, ◌≡◌, true, false, List, [], ◌∷◌, ◌==◌, ◌&&◌, ◌||◌, not, is_some, arith, Bool-cases,
  if_elim, inl, inr,
}
use owt_sdk_quic.Net.{ok, quic_protocol_error, QuicErrorCode, is_no_error, no_error}
use owt_sdk_quic.Http3Client.State.{
  Client, new, connecting, failed, state_eq, Details, init, connect_code, Task, do_loop_task,
  close_task, create_connection_task, transition_to_state, error_to_string, set_error_if_necessary,
  new_client, Config,
}
use owt_sdk_quic.Http3Client.Connect.{Answers, create_connection}
use owt_sdk_quic.Http3Client.Invariant.{
  Inv, connected_calls, dcheck-Inv, set_error_with-Inv, transition_closed-Inv,
  transition_failed-Inv, is_legal, life,
}
use owt_sdk_quic.Http3Client.Rounds.{fail-Inv, set_error_with-is_some, do_loop-Inv}
use owt_sdk_quic.Http3Client.Events.{
  Event, connect_called, close_called, proxy_resolved, host_resolved, settings_received,
  headers_complete, write_side_done, connect_stream_closed, close_timed_out, session_became_ready,
  session_was_closed, read_failed, write_failed, connection_was_closed, task_due, handle, run,
  connect_client, close_client, on_settings_received, on_headers_complete,
  on_connect_stream_aborted, on_connect_stream_close, on_close_timeout, on_session_ready,
  on_session_closed, on_read_error, end_connection, retry_or_end, on_connection_closed,
  drop_versions, run_task,
}

pub new_client-Inv : (k : Config) → Inv (new_client k)
unfolding new_client
new_client-Inv k = ground arith

connect_started-Inv :
    (c : Client)
    → c.state ≡ new
    → Inv c
    → Inv (record (transition_to_state connecting c) { next_connect_state = init })
unfolding transition_to_state
connect_started-Inv c e v = ground arith

pub connect_client-Inv : (a : Answers) (c : Client) → Inv c → Inv (connect_client a c)
unfolding connect_client
connect_client-Inv a c v =
    elim (Bool-cases (not (state_eq c.state new) || not (connect_code c.next_connect_state == 0))) [
      | inl refused ↦ rw refused (dcheck-Inv false c v)
      | inr fits ↦ rw fits (do_loop-Inv a ok _ (connect_started-Inv c (ground arith) v))
    ]

end_connection-Inv :
    (e : QuicErrorCode) (details : Details) (a : Answers) (c : Client)
    → Inv c
    → Inv (end_connection e details a c)
unfolding end_connection
end_connection-Inv e details a c v =
    let v' = set_error_with-Inv quic_protocol_error e details c v in
    let some_error = set_error_with-is_some quic_protocol_error e details c in
    if_elim Inv (is_no_error e) (λ _. if_elim Inv _ (λ _. transition_closed-Inv c v) (λ _. v))
      (λ _. if_elim Inv _ (λ _. do_loop-Inv a ok _ v') (λ _. transition_failed-Inv _ v' some_error))

retry_or_end-Inv :
    (e : QuicErrorCode) (details : Details) (a : Answers) (c : Client)
    → Inv c
    → Inv (retry_or_end e details a c)
unfolding retry_or_end
retry_or_end-Inv e details a c v = ground (arith, end_connection-Inv e details a c)

on_connection_closed-Inv :
    (e : QuicErrorCode) (details : Details) (s : QuicErrorCode) (vs : List ℕ) (a : Answers)
    (c : Client)
    → Inv c
    → Inv (on_connection_closed e details s vs a c)
unfolding on_connection_closed
on_connection_closed-Inv e details s vs a c v =
    if_elim Inv _ (λ _. retry_or_end-Inv e details a (drop_versions vs c) (ground arith))
      (λ _. end_connection-Inv e details a c v)

run_task-Inv : (ts : List Task) (a : Answers) (c : Client) → Inv c → Inv (run_task ts a c)
unfolding run_task create_connection
run_task-Inv [] a c v = v
run_task-Inv (do_loop_task ∷ rest) a c v =
    do_loop-Inv a ok (record c { tasks = rest }) (ground arith)
run_task-Inv (close_task ∷ rest) a c v =
    transition_closed-Inv (record c { tasks = rest }) (ground arith)
run_task-Inv (create_connection_task ∷ rest) a c v = ground arith

-- Every call and every callback keeps the invariant.
pub handle-Inv : (e : Event) (a : Answers) (c : Client) → Inv c → Inv (handle e a c)
unfolding handle on_settings_received on_headers_complete on_connect_stream_close
    on_connect_stream_aborted on_close_timeout on_session_ready on_session_closed on_read_error
    close_client set_error_if_necessary
handle-Inv connect_called a c v = connect_client-Inv a c v
handle-Inv (close_called i pto) a c v = ground arith
handle-Inv (proxy_resolved rv) a c v = do_loop-Inv a rv c v
handle-Inv (host_resolved rv) a c v = do_loop-Inv a rv c v
handle-Inv settings_received a c v = ground arith
handle-Inv headers_complete a c v = do_loop-Inv a ok _ (dcheck-Inv _ c v)
handle-Inv write_side_done a c v = ground arith
handle-Inv (connect_stream_closed f g h) a c v =
    if_elim Inv (f && g) (λ _. v) (λ _. if_elim Inv h (λ _. v) (λ _. fail-Inv _ c v))
handle-Inv close_timed_out a c v = fail-Inv _ c v
handle-Inv session_became_ready a c v = ground arith
handle-Inv (session_was_closed code reason) a c v = ground arith
handle-Inv (read_failed rv) a c v =
    let v' = set_error_with-Inv rv no_error (error_to_string rv) c v in ground arith
handle-Inv (write_failed rv) a c v = set_error_with-Inv rv no_error (error_to_string rv) c v
handle-Inv (connection_was_closed e d s vs) a c v = on_connection_closed-Inv e d s vs a c v
handle-Inv task_due a c v = run_task-Inv c.tasks a c v
handle-Inv _ a c v = ground arith

run-Inv : (es : List (Event × Answers)) (c : Client) → Inv c → Inv (run es c)
unfolding run
run-Inv [] c v = v
run-Inv ((e, a) ∷ es) c v = run-Inv es (handle e a c) (handle-Inv e a c v)

failed_has_error : (c : Client) → Inv c → (not (state_eq c.state failed) || is_some c.error) ≡ true
failed_has_error c v = ground (arith, v.failed_error)

told_is_legal :
    (c : Client)
    → Inv c
    → (not (c.violations == 0) || is_legal c.state (life c.visitor_calls)) ≡ true
told_is_legal c v = ground (arith, v.legal)

-- Whatever calls and callbacks a new client gets, in whatever order and with whatever results: it
-- tells its visitor OnConnected at most once; when it is FAILED it holds an error; and as long as
-- no DCHECK has failed, what it has told the visitor of its life is what its state allows: nothing
-- before CONNECTED, OnConnected alone in CONNECTED, then OnClosed or OnError, or
-- OnConnectionFailed alone.
pub client_life :
    (k : Config) (es : List (Event × Answers))
    → let c = run es (new_client k) in
      (connected_calls c ≤ 1)
      × ((not (state_eq c.state failed) || is_some c.error) ≡ true)
      × ((not (c.violations == 0) || is_legal c.state (life c.visitor_calls)) ≡ true)
client_life k es =
    let v = run-Inv es (new_client k) (new_client-Inv k) in
    (v.once, failed_has_error (run es (new_client k)) v, told_is_legal (run es (new_client k)) v)
