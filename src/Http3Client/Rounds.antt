-- ===== src/Http3Client/Rounds.antt =====
-- Each round of DoLoop keeps the invariant of the client.
use owt_sdk_quic.Prelude.{
  sym, ◌∙◌, ◌||◌, Bool-cases, inl, inr, ◌⊎◌, ◌≤◌, ◌<◌, ◌≡◌, refl, Bool, true, false, is_some, arith,
}
use owt_sdk_quic.Net.{NetError, no_error, is_ok, is_io_pending, QuicErrorCode}
use owt_sdk_quic.Http3Client.State.{
  Client, failed, state_code, ConnectState, dcheck, error_to_string, Details, no_state,
  confirm_connection, init, check_proxy, check_proxy_complete, resolve_host, resolve_host_complete,
  connect, connect_complete, send_request, num_states, connect_code, transition_to_state,
  set_error_with, set_error_if_necessary,
}
use owt_sdk_quic.Http3Client.Connect.{
  Answers, do_init, do_check_proxy, do_check_proxy_complete, do_resolve_host,
  do_resolve_host_complete, do_connect, do_connect_complete, do_send_request, do_confirm_connection,
}
use owt_sdk_quic.Http3Client.Loop.{do_state, do_round, after_loop, do_loop}
use owt_sdk_quic.Http3Client.Bounds.{do_loop_inv}
use owt_sdk_quic.Http3Client.Invariant.{
  Inv, connected_calls, dcheck-Inv, set_error_with-Inv, transition_failed-Inv,
}

-- A step that tells the visitor nothing and leaves the state alone.
pub record IsQuiet (c d : Client) : Type 0 where
  pub calls : d.visitor_calls ≡ c.visitor_calls
  state : d.state ≡ c.state
  pub error : d.error ≡ c.error
  ready : d.session_ready ≡ c.session_ready
  response : d.has_http_response_info ≡ c.has_http_response_info
  violations : c.violations ≤ d.violations

IsQuiet-Inv :
    (c d : Client) → IsQuiet c d → connected_calls c ≡ 0 → 0 < state_code c.state → Inv c → Inv d
IsQuiet-Inv c d q z s v = record {
  once = rw q.calls v.once;
  fresh = λ _. rw q.calls z;
  started = λ _. rw q.state s;
  told = λ _. rw q.state s;
  failed_error = λ e. rw q.error (v.failed_error (sym q.state ∙ e));
  ready_response = λ e. rw q.response (v.ready_response (sym q.ready ∙ e));
  legal = λ e. rw (q.calls, q.state) (v.legal (omega (arith, q.violations)));
}

do_init-IsQuiet : (c : Client) → IsQuiet c (do_init c).1
unfolding do_init
do_init-IsQuiet c = ground arith

do_connect-IsQuiet : (a : Answers) (c : Client) → IsQuiet c (do_connect a c).1
unfolding do_connect
do_connect-IsQuiet a c = ground arith

do_send_request-IsQuiet : (a : Answers) (c : Client) → IsQuiet c (do_send_request a c).1
unfolding do_send_request
do_send_request-IsQuiet a c = ground arith

dcheck-IsQuiet : (b : Bool) (c d : Client) → IsQuiet (dcheck b c) d → IsQuiet c d
dcheck-IsQuiet b c d q = ground arith

do_confirm_connection-Inv :
    (c : Client)
    → Inv c
    → c.next_connect_state ≡ no_state
    → connected_calls c ≡ 0
    → Inv (do_confirm_connection c).1
unfolding do_confirm_connection transition_to_state
do_confirm_connection-Inv c v e z = ground arith

-- Every other step of the connection attempt is quiet.
pub do_state-IsQuiet :
    (s : ConnectState) (a : Answers) (rv : NetError) (c : Client)
    → (s ≡ confirm_connection) ⊎ IsQuiet c (do_state s a rv c).1
unfolding do_state do_check_proxy do_check_proxy_complete do_resolve_host do_resolve_host_complete
    do_connect_complete
do_state-IsQuiet no_state a rv c = inr (ground arith)
do_state-IsQuiet num_states a rv c = inr (ground arith)
do_state-IsQuiet init a rv c = inr (dcheck-IsQuiet _ c _ (do_init-IsQuiet _))
do_state-IsQuiet check_proxy a rv c = inr (ground arith)
do_state-IsQuiet check_proxy_complete a rv c = inr (ground arith)
do_state-IsQuiet resolve_host a rv c = inr (ground arith)
do_state-IsQuiet resolve_host_complete a rv c = inr (ground arith)
do_state-IsQuiet connect a rv c = inr (dcheck-IsQuiet _ c _ (do_connect-IsQuiet a _))
do_state-IsQuiet connect_complete a rv c = inr (ground arith)
do_state-IsQuiet send_request a rv c = inr (dcheck-IsQuiet _ c _ (do_send_request-IsQuiet a _))
do_state-IsQuiet confirm_connection a rv c = inl refl

do_state-Inv :
    (s : ConnectState) (a : Answers) (rv : NetError) (c : Client)
    → c.next_connect_state ≡ no_state
    → (0 < connect_code s → connected_calls c ≡ 0)
    → (0 < connect_code s → 0 < state_code c.state)
    → Inv c
    → Inv (do_state s a rv c).1
unfolding do_state
do_state-Inv no_state a rv c e f g v = dcheck-Inv false c v
do_state-Inv confirm_connection a rv c e f g v =
    do_confirm_connection-Inv (dcheck (is_ok rv) c) (dcheck-Inv (is_ok rv) c v) e (f (omega arith))
do_state-Inv s a rv c e f g v = elim (do_state-IsQuiet s a rv c) [
  | inl same ↦ absurd (ground arith)
  | inr q ↦ IsQuiet-Inv c _ q (f (omega arith)) (g (omega arith)) v
]

pub do_round-Inv : (a : Answers) (rv : NetError) (c : Client) → Inv c → Inv (do_round a rv c).1
unfolding do_round
do_round-Inv a rv c v =
    do_state-Inv c.next_connect_state a rv (record c { next_connect_state = no_state }) refl v.fresh
      v.started (ground arith)

pub set_error_with-is_some :
    (e : NetError) (q : QuicErrorCode) (d : Details) (c : Client)
    → is_some (set_error_with e q d c).error ≡ true
unfolding set_error_with
set_error_with-is_some e q d c = ground arith

set_error-is_some : (e : NetError) (c : Client) → is_some (set_error_if_necessary e c).error ≡ true
unfolding set_error_if_necessary
set_error-is_some e c = ground arith

pub fail-Inv :
    (e : NetError) (c : Client)
    → Inv c
    → Inv (transition_to_state failed (set_error_if_necessary e c))
unfolding set_error_if_necessary
fail-Inv e c v =
    transition_failed-Inv _ (set_error_with-Inv e no_error (error_to_string e) c v)
      (set_error-is_some e c)

after_loop-Inv : (rv : NetError) (c : Client) → Inv c → Inv (after_loop (rv, c))
unfolding after_loop
after_loop-Inv rv c v = elim (Bool-cases (is_ok rv || is_io_pending rv)) [
  | inl e ↦ rw e v
  | inr e ↦ rw e (fail-Inv rv c v)
]

pub do_loop-Inv : (a : Answers) (rv : NetError) (c : Client) → Inv c → Inv (do_loop a rv c)
do_loop-Inv a rv c = do_loop_inv Inv a (do_round-Inv a) after_loop-Inv rv c
