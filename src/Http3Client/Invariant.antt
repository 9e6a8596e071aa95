-- ===== src/Http3Client/Invariant.antt =====
-- What holds of WebTransportHttp3Client after any events.
use owt_sdk_quic.Prelude.{
  ℕ, ◌≤◌, ◌<◌, ◌≡◌, Bool, true, false, List, [], ◌∷◌, count_if, is_some, arith,
}
use owt_sdk_quic.Net.{NetError, QuicErrorCode}
use owt_sdk_quic.Http3Client.State.{
  Client, WebTransportState, new, connecting, connected, closed, failed, state_code, dcheck,
  connect_code, VisitorCall, on_connected, on_connection_failed, on_error, on_closed,
  transition_to_state, set_error_with, Details,
}

abbrev pub is_on_connected : VisitorCall → Bool
is_on_connected on_connected = true
is_on_connected _ = false

abbrev pub connected_calls : Client → ℕ
connected_calls c = count_if is_on_connected c.visitor_calls

-- The calls that tell the visitor of a change of state, newest first.
pub data Life : Type 0 where
  told_connected told_failed told_closed told_error : Life

abbrev pub life : List VisitorCall → List Life
life [] = []
life (on_connected ∷ vs) = told_connected ∷ life vs
life (on_connection_failed e ∷ vs) = told_failed ∷ life vs
life (on_closed i ∷ vs) = told_closed ∷ life vs
life (on_error e ∷ vs) = told_error ∷ life vs
life (_ ∷ vs) = life vs

-- What the visitor has been told in each state.
abbrev pub is_legal : WebTransportState → List Life → Bool
is_legal new [] = true
is_legal connecting [] = true
is_legal connected (told_connected ∷ []) = true
is_legal closed (told_closed ∷ told_connected ∷ []) = true
is_legal failed (told_failed ∷ []) = true
is_legal failed (told_error ∷ told_connected ∷ []) = true
is_legal _ _ = false

pub record Inv (c : Client) : Type 0 where
  pub once : connected_calls c ≤ 1
  pub fresh : 0 < connect_code c.next_connect_state → connected_calls c ≡ 0
  pub started : 0 < connect_code c.next_connect_state → 0 < state_code c.state
  pub told : 0 < connected_calls c → 0 < state_code c.state
  pub failed_error : c.state ≡ failed → is_some c.error ≡ true
  pub ready_response : c.session_ready ≡ true → c.has_http_response_info ≡ true
  pub legal : c.violations ≡ 0 → is_legal c.state (life c.visitor_calls) ≡ true

pub set_error_with-Inv :
    (e : NetError) (q : QuicErrorCode) (d : Details) (c : Client)
    → Inv c
    → Inv (set_error_with e q d c)
unfolding set_error_with
set_error_with-Inv e q d c v = ground arith

pub transition_closed-Inv : (c : Client) → Inv c → Inv (transition_to_state closed c)
unfolding transition_to_state
transition_closed-Inv c v = ground arith

pub transition_failed-Inv :
    (c : Client) → Inv c → is_some c.error ≡ true → Inv (transition_to_state failed c)
unfolding transition_to_state
transition_failed-Inv c v e = ground arith

pub dcheck-Inv : (b : Bool) (c : Client) → Inv c → Inv (dcheck b c)
dcheck-Inv b c v = ground arith
