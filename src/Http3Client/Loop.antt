-- ===== src/Http3Client/Loop.antt =====
-- DoLoop of web_transport/sdk/impl/web_transport_http3_client.cc.
use owt_sdk_quic.Prelude.{
  ℕ, zero, suc, Bool, false, not, ◌&&◌, ◌||◌, Option, none, some, ◌==◌, if◌then◌else◌,
}
use owt_sdk_quic.Net.{NetError, failed, is_ok, is_io_pending}
use owt_sdk_quic.Http3Client.State.{
  Client, WebTransportState, ConnectState, no_state, init, check_proxy, check_proxy_complete,
  resolve_host, resolve_host_complete, connect, connect_complete, send_request, confirm_connection,
  num_states, connect_code, dcheck, set_error_if_necessary, transition_to_state,
}
use owt_sdk_quic.Http3Client.Connect.{
  Answers, do_init, do_check_proxy, do_check_proxy_complete, do_resolve_host,
  do_resolve_host_complete, do_connect, do_connect_complete, do_send_request, do_confirm_connection,
}

-- The `switch` of DoLoop. CONNECT_STATE_NONE and CONNECT_STATE_NUM_STATES take its default.
unfoldable pub do_state : ConnectState → Answers → NetError → Client → NetError × Client
do_state init a rv c = do_init (dcheck (is_ok rv) c)
do_state check_proxy a rv c = do_check_proxy a (dcheck (is_ok rv) c)
do_state check_proxy_complete a rv c = do_check_proxy_complete a rv c
do_state resolve_host a rv c = do_resolve_host a (dcheck (is_ok rv) c)
do_state resolve_host_complete a rv c = do_resolve_host_complete rv c
do_state connect a rv c = do_connect a (dcheck (is_ok rv) c)
do_state connect_complete a rv c = do_connect_complete a (dcheck (is_ok rv) c)
do_state send_request a rv c = do_send_request a (dcheck (is_ok rv) c)
do_state confirm_connection a rv c = do_confirm_connection (dcheck (is_ok rv) c)
do_state no_state a rv c = (failed, dcheck false c)
do_state num_states a rv c = (failed, dcheck false c)

-- One round: the pending state is taken and its step is made.
unfoldable pub do_round : Answers → NetError → Client → NetError × Client
do_round a rv c = do_state c.next_connect_state a rv (record c { next_connect_state = no_state })

abbrev pub goes_on : NetError × Client → Bool
goes_on r = is_ok r.0 && not (connect_code r.1.next_connect_state == 0)

-- What follows the loop.
unfoldable pub after_loop : NetError × Client → Client
after_loop (rv, c) =
    if is_ok rv || is_io_pending rv
    then c
    else transition_to_state WebTransportState.failed (set_error_if_necessary rv c)

-- The `do ... while` on fuel; `none` means that the fuel ran out.
unfoldable pub loop_rounds : ℕ → Answers → NetError → Client → Option Client
loop_rounds zero a rv c = none
loop_rounds (suc fuel) a rv c =
    let r = do_round a rv c in
    let rest = loop_rounds fuel a r.0 r.1 in if goes_on r then rest else some (after_loop r)

abbrev pub loop_fuel : ℕ
loop_fuel = 11

abbrev pub or_same : Client → Option Client → Client
or_same c none = c
or_same c (some c') = c'

-- DoLoop; where the fuel ran out the client would be left as it was.
unfoldable pub do_loop : Answers → NetError → Client → Client
do_loop a rv c = or_same c (loop_rounds loop_fuel a rv c)
