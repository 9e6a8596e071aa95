-- ===== src/Http3Client/Preserving.antt =====
-- What every call and callback of WebTransportHttp3Client keeps: a property that depends on the error
-- and the visitor's calls only, and that transitions, setting the error and telling the visitor keep.
use owt_sdk_quic.Prelude.{
  refl, ℕ, ◌≡◌, ◌==◌, Bool, false, List, [], ◌∷◌, ◌&&◌, ◌||◌, not, arith, if_elim, inl, inr,
}
use owt_sdk_quic.Net.{
  NetError, ok, QuicErrorCode, quic_protocol_error, is_no_error, is_ok, is_io_pending,
}
use owt_sdk_quic.Http3Client.State.{
  Client, VisitorCall, emit, post, WebTransportState, Details, ConnectState, Task, do_loop_task,
  close_task, create_connection_task, transition_to_state, set_error_with, set_error_if_necessary,
  confirm_connection, no_state, init, dcheck, connecting, new, state_eq, connect_code,
}
use owt_sdk_quic.Http3Client.Connect.{Answers, is_empty, create_connection, do_confirm_connection}
use owt_sdk_quic.Http3Client.Loop.{do_loop, do_round, do_state, after_loop}
use owt_sdk_quic.Http3Client.Bounds.{do_loop_inv}
use owt_sdk_quic.Http3Client.Rounds.{do_state-IsQuiet}
use owt_sdk_quic.Http3Client.Events.{
  Event, connect_called, incoming_bidirectional, incoming_unidirectional, can_create_bidirectional,
  can_create_unidirectional, datagram_received, datagram_processed, proxy_resolved, host_resolved,
  headers_complete, connect_stream_closed, close_timed_out, read_failed, write_failed,
  connection_was_closed, task_due, handle, connect_client, close_client, on_settings_received,
  on_headers_complete, on_connect_stream_aborted, on_connect_stream_close, on_close_timeout,
  on_session_ready, on_session_closed, on_read_error, end_connection, retry_or_end,
  on_connection_closed, drop_versions, run_task,
}

module _ (Holds : Client → Type 0)
    (same : (c d : Client)
      → d.error ≡ c.error
      → d.visitor_calls ≡ c.visitor_calls
      → Holds c
      → Holds d)
    (transition-Holds : (s : WebTransportState) (c : Client)
      → Holds c
      → Holds (transition_to_state s c))
    (set_error_with-Holds : (e : NetError) (q : QuicErrorCode) (d : Details) (c : Client)
      → Holds c
      → Holds (set_error_with e q d c))
    (emit-Holds : (v : VisitorCall) (c : Client) → Holds c → Holds (emit v c)) where
  dcheck-Holds : (b : Bool) (c : Client) → Holds c → Holds (dcheck b c)
  dcheck-Holds b c h = same c _ refl refl h

  set_error-Holds : (e : NetError) (c : Client) → Holds c → Holds (set_error_if_necessary e c)
  unfolding set_error_if_necessary
  set_error-Holds e c h = set_error_with-Holds e _ _ c h

  do_state-Holds :
      (s : ConnectState) (a : Answers) (rv : NetError) (c : Client)
      → Holds c
      → Holds (do_state s a rv c).1
  unfolding do_state do_confirm_connection
  do_state-Holds confirm_connection a rv c h =
      if_elim (λ (r : NetError × Client). Holds r.1) (not c.session_ready)
        (λ _. dcheck-Holds (is_ok rv) c h)
        (λ _. transition-Holds WebTransportState.connected _ (dcheck-Holds (is_ok rv) c h))
  do_state-Holds s a rv c h = elim (do_state-IsQuiet s a rv c) [
    | inl e ↦ absurd (ground arith)
    | inr q ↦ same c _ q.error q.calls h
  ]

  do_round-Holds : (a : Answers) (rv : NetError) (c : Client) → Holds c → Holds (do_round a rv c).1
  unfolding do_round
  do_round-Holds a rv c h =
      do_state-Holds c.next_connect_state a rv (record c { next_connect_state = no_state })
        (same c _ refl refl h)

  after_loop-Holds : (rv : NetError) (c : Client) → Holds c → Holds (after_loop (rv, c))
  unfolding after_loop
  after_loop-Holds rv c h =
      if_elim Holds (is_ok rv || is_io_pending rv) (λ _. h)
        (λ _. transition-Holds WebTransportState.failed _ (set_error-Holds rv c h))

  do_loop-Holds : (a : Answers) (rv : NetError) (c : Client) → Holds c → Holds (do_loop a rv c)
  do_loop-Holds a = do_loop_inv Holds a (do_round-Holds a) after_loop-Holds

  end_connection-Holds :
      (e : QuicErrorCode) (details : Details) (a : Answers) (c : Client)
      → Holds c
      → Holds (end_connection e details a c)
  unfolding end_connection
  end_connection-Holds e details a c h =
      let h' = set_error_with-Holds quic_protocol_error e details c h in
      if_elim Holds (is_no_error e)
        (λ _. if_elim Holds _ (λ _. transition-Holds WebTransportState.closed c h) (λ _. h))
        (λ _.
          if_elim Holds _ (λ _. do_loop-Holds a ok _ h')
            (λ _. transition-Holds WebTransportState.failed _ h'))

  retry_or_end-Holds :
      (e : QuicErrorCode) (d : Details) (a : Answers) (c : Client)
      → Holds c
      → Holds (retry_or_end e d a c)
  unfolding retry_or_end
  retry_or_end-Holds e d a c h =
      if_elim Holds (not (is_empty c.supported_versions))
        (λ _. same c (post create_connection_task c) refl refl h)
        (λ _. end_connection-Holds e d a c h)

  on_connection_closed-Holds :
      (e : QuicErrorCode) (d : Details) (s : QuicErrorCode) (vs : List ℕ) (a : Answers) (c : Client)
      → Holds c
      → Holds (on_connection_closed e d s vs a c)
  unfolding on_connection_closed
  on_connection_closed-Holds e d s vs a c h =
      if_elim Holds _ (λ _. retry_or_end-Holds e d a (drop_versions vs c) (same c _ refl refl h))
        (λ _. end_connection-Holds e d a c h)

  run_task-Holds : (ts : List Task) (a : Answers) (c : Client) → Holds c → Holds (run_task ts a c)
  unfolding run_task create_connection
  run_task-Holds [] a c h = h
  run_task-Holds (do_loop_task ∷ rest) a c h =
      do_loop-Holds a ok (record c { tasks = rest }) (same c _ refl refl h)
  run_task-Holds (close_task ∷ rest) a c h =
      transition-Holds WebTransportState.closed (record c { tasks = rest }) (same c _ refl refl h)
  run_task-Holds (create_connection_task ∷ rest) a c h = same c _ refl refl h

  connect_client-Holds : (a : Answers) (c : Client) → Holds c → Holds (connect_client a c)
  unfolding connect_client
  connect_client-Holds a c h =
      let begun = transition-Holds connecting c h in
      let looped =
        do_loop-Holds a ok (record (transition_to_state connecting c) { next_connect_state = init })
          (same _ _ refl refl begun) in
      if_elim Holds (not (state_eq c.state new) || not (connect_code c.next_connect_state == 0))
        (λ _. dcheck-Holds false c h) (λ _. looped)

  -- Every call and every callback keeps it.
  pub handle-Holds : (e : Event) (a : Answers) (c : Client) → Holds c → Holds (handle e a c)
  unfolding handle on_settings_received on_headers_complete on_connect_stream_close
      on_connect_stream_aborted on_close_timeout on_session_ready on_session_closed on_read_error
      close_client
  handle-Holds connect_called a c h = connect_client-Holds a c h
  handle-Holds (proxy_resolved rv) a c h = do_loop-Holds a rv c h
  handle-Holds (host_resolved rv) a c h = do_loop-Holds a rv c h
  handle-Holds headers_complete a c h = do_loop-Holds a ok _ (dcheck-Holds _ c h)
  handle-Holds (connect_stream_closed f g i) a c h =
      if_elim Holds (f && g) (λ _. h)
        (λ _.
          if_elim Holds i (λ _. h)
            (λ _. transition-Holds WebTransportState.failed _ (set_error-Holds _ c h)))
  handle-Holds (close_timed_out) a c h =
      transition-Holds WebTransportState.failed _ (set_error-Holds _ c h)
  handle-Holds (read_failed rv) a c h = same _ _ refl refl (set_error-Holds rv c h)
  handle-Holds (write_failed rv) a c h = set_error-Holds rv c h
  handle-Holds (connection_was_closed e d s vs) a c h = on_connection_closed-Holds e d s vs a c h
  handle-Holds task_due a c h = run_task-Holds c.tasks a c h
  handle-Holds incoming_bidirectional a c h = emit-Holds _ c h
  handle-Holds incoming_unidirectional a c h = emit-Holds _ c h
  handle-Holds can_create_bidirectional a c h = emit-Holds _ c h
  handle-Holds can_create_unidirectional a c h = emit-Holds _ c h
  handle-Holds (datagram_received d) a c h = emit-Holds _ c h
  handle-Holds (datagram_processed s) a c h = emit-Holds _ c h
  handle-Holds _ a c h = same c _ refl refl h
