-- ===== src/Http3Client/Attempt.antt =====
-- What a connection attempt comes to, from the check of the proxy on.
use text.Mathlib.Text.{◌==◌ as str_eq}
use owt_sdk_quic.Prelude.{◌≡◌, Bool, false, List, [], ◌∷◌, if◌then◌else◌, none, some, arith}
use owt_sdk_quic.Net.{
  NetError, ok, io_pending, invalid_url, disallowed_url_scheme, unsafe_port,
  tunnel_connection_failed, is_ok, is_io_pending, no_error,
}
use owt_sdk_quic.Http3Client.State.{
  Client, Config, set_error_if_necessary, transition_to_state, connect, no_state, ConnectState,
  check_proxy, check_proxy_complete, resolve_host, resolve_host_complete, connecting, failed,
  on_connection_failed, error_to_string, WebTransportError,
}
use owt_sdk_quic.Http3Client.Connect.{
  Answers, do_connect, do_resolve_host_complete, do_resolve_host, do_check_proxy_complete,
  do_check_proxy, tolerate_not_implemented,
}
use owt_sdk_quic.Http3Client.Loop.{do_state, do_round, after_loop, do_loop}
use owt_sdk_quic.Http3Client.Bounds.{do_loop_more, do_loop_done}

-- The first result of a list of steps that is not OK. Where all are OK the connection is being
-- made, and the client waits.
abbrev pub first_not_ok : List NetError → NetError
first_not_ok [] = io_pending
first_not_ok (e ∷ es) = let rest = first_not_ok es in if is_ok e then rest else e

abbrev pub check : Bool → NetError → NetError
check b e = if b then ok else e

-- What can go wrong before a connection is made, in order.
abbrev pub connect_steps : Config → Answers → List NetError
connect_steps k a =
    check k.url_is_valid invalid_url
    ∷ check (str_eq k.url_scheme "https") disallowed_url_scheme
    ∷ check (k.is_port_allowed_for_scheme k.url_effective_int_port k.url_scheme) unsafe_port
    ∷ a.resolve_proxy
    ∷ check a.proxy_is_direct tunnel_connection_failed
    ∷ a.resolve_host_start
    ∷ a.socket_connect
    ∷ a.set_receive_buffer_size
    ∷ tolerate_not_implemented a.set_do_not_fragment
    ∷ a.set_send_buffer_size
    ∷ []

abbrev pub error_of : NetError → WebTransportError
error_of e = record {
  net_error = e;
  quic_error = no_error;
  details = error_to_string e;
  safe_to_report_details = false;
}

-- Nothing has been told yet, and the attempt is under way.
pub record IsUnderWay (c : Client) : Type 0 where
  pub state : c.state ≡ connecting
  pub error : c.error ≡ none
  pub calls : c.visitor_calls ≡ []
  pub unsafe : c.safe_to_report_error_details ≡ false

-- The attempt waits, or it has failed with `e`, and told the visitor so once.
pub record Outcome (e : NetError) (c : Client) : Type 0 where
  pub state : c.state ≡ (if is_io_pending e then connecting else failed)
  pub error : c.error ≡ (if is_io_pending e then none else some (error_of e))
  pub calls :
      c.visitor_calls ≡ (if is_io_pending e then [] else on_connection_failed (error_of e) ∷ [])

pub after_loop-Outcome :
    (e : NetError) (c : Client) → is_ok e ≡ false → IsUnderWay c → Outcome e (after_loop (e, c))
unfolding after_loop set_error_if_necessary transition_to_state
after_loop-Outcome e c h u = ground arith

do_connect-Outcome :
    (a : Answers) (c : Client)
    → IsUnderWay c
    → Outcome
        (first_not_ok (
          a.socket_connect
          ∷ a.set_receive_buffer_size
          ∷ tolerate_not_implemented a.set_do_not_fragment
          ∷ a.set_send_buffer_size
          ∷ []))
        (do_loop a ok (record c { next_connect_state = connect }))
unfolding do_round do_state do_connect
do_connect-Outcome a c u = ground (
  arith,
  do_loop_done a ok (record c { next_connect_state = connect }),
  after_loop-Outcome (do_connect a (record c { next_connect_state = no_state })).0
      (do_connect a (record c { next_connect_state = no_state })).1,
)

abbrev pub connect_tail : Answers → List NetError
connect_tail a =
    a.socket_connect
    ∷ a.set_receive_buffer_size
    ∷ tolerate_not_implemented a.set_do_not_fragment
    ∷ a.set_send_buffer_size
    ∷ []

abbrev pub at : ConnectState → Client → Client
at s c = record c { next_connect_state = s }

host_complete-Outcome :
    (a : Answers) (rv : NetError) (c : Client)
    → IsUnderWay c
    → Outcome (first_not_ok (rv ∷ connect_tail a)) (do_loop a rv (at resolve_host_complete c))
unfolding do_round do_state do_resolve_host_complete
host_complete-Outcome a rv c u = ground (
  arith,
  do_loop_done a rv (at resolve_host_complete c),
  do_loop_more a rv (at resolve_host_complete c),
  after_loop-Outcome rv (at no_state c),
  do_connect-Outcome a c u,
)

resolve_host-Outcome :
    (a : Answers) (c : Client)
    → IsUnderWay c
    → Outcome
        (first_not_ok (a.resolve_host_start ∷ connect_tail a))
        (do_loop a ok (at resolve_host c))
unfolding do_round do_state do_resolve_host
resolve_host-Outcome a c u = ground (
  arith,
  do_loop_done a ok (at resolve_host c),
  do_loop_more a ok (at resolve_host c),
  after_loop-Outcome a.resolve_host_start (at resolve_host_complete c),
  host_complete-Outcome a ok c u,
)

proxy_complete-Outcome :
    (a : Answers) (rv : NetError) (c : Client)
    → IsUnderWay c
    → Outcome
        (first_not_ok (
          rv
          ∷ check a.proxy_is_direct tunnel_connection_failed
          ∷ a.resolve_host_start
          ∷ connect_tail a))
        (do_loop a rv (at check_proxy_complete c))
unfolding do_round do_state do_check_proxy_complete
proxy_complete-Outcome a rv c u = ground (
  arith,
  do_loop_done a rv (at check_proxy_complete c),
  do_loop_more a rv (at check_proxy_complete c),
  after_loop-Outcome rv (at no_state c),
  after_loop-Outcome tunnel_connection_failed (at no_state c),
  resolve_host-Outcome a c u,
)

pub check_proxy-Outcome :
    (a : Answers) (c : Client)
    → IsUnderWay c
    → Outcome
        (first_not_ok (
          a.resolve_proxy
          ∷ check a.proxy_is_direct tunnel_connection_failed
          ∷ a.resolve_host_start
          ∷ connect_tail a))
        (do_loop a ok (at check_proxy c))
unfolding do_round do_state do_check_proxy
check_proxy-Outcome a c u = ground (
  arith,
  do_loop_done a ok (at check_proxy c),
  do_loop_more a ok (at check_proxy c),
  after_loop-Outcome a.resolve_proxy (at check_proxy_complete c),
  proxy_complete-Outcome a ok c u,
)
