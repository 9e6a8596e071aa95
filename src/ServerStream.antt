-- ===== src/ServerStream.antt =====
-- web_transport/sdk/impl/http3_server_stream.h and .cc: the stream of a CONNECT request.
pub mod Responses
use Prim.Native.String.{String}
use text.Mathlib.Text.{◌==◌ as str_eq, starts_with}
use owt_sdk_quic.Prelude.{
  ℕ, suc, Bool, false, not, Option, none, some, List, [], ◌∷◌, if◌then◌else◌,
}

-- What quiche has found on the stream: whether CopyAndValidateHeaders accepts the header list, the
-- headers that it copies in any case, and whether the stream carries a WebTransport session.
pub record Request : Type 0 where
  pub is_valid : Bool
  pub headers : List (String × String)
  pub has_web_transport : Bool

-- A header block that the server writes: its :status, and whether a body with FIN follows it.
pub data Response : Type 0 where
  success : ℕ → Response
  error : ℕ → Response

-- What the stream has written, newest first, and how often it has told the backend OnSessionReady
-- and quiche HeadersReceived.
pub record ServerStream : Type 0 where
  pub responses : List Response
  pub sessions_ready : ℕ
  pub headers_received : ℕ

unfoldable pub new_stream : ServerStream
new_stream = record { responses = []; sessions_ready = 0; headers_received = 0 }

unfoldable pub send_error_response : ℕ → ServerStream → ServerStream
send_error_response code s = record s { responses = error code ∷ s.responses }

unfoldable pub send_response : Request → ServerStream → ServerStream
unfolding send_error_response
send_response r s = if not r.has_web_transport then send_error_response 500 s else record s {
  responses = success 200 ∷ s.responses;
  sessions_ready = suc s.sessions_ready;
  headers_received = suc s.headers_received;
}

-- request_headers_.find
unfoldable pub find_header : String → List (String × String) → Option String
find_header name [] = none
find_header name ((n, v) ∷ hs) = if str_eq n name then some v else find_header name hs

-- The :method is there and starts with CONNECT.
unfoldable pub is_connect : Request → Bool
is_connect r = elim (find_header ":method" r.headers) [
  | none ↦ false
  | some method ↦ starts_with method "CONNECT"
]

-- OnInitialHeadersComplete
unfoldable pub on_initial_headers_complete : Request → ServerStream → ServerStream
unfolding send_response send_error_response
on_initial_headers_complete r s =
    let s' = if not r.is_valid then send_error_response 400 s else s in
    let s'' = if not (is_connect r) then send_error_response 405 s' else s' in send_response r s''

-- OnBodyAvailable only logs.
unfoldable pub on_body_available : ServerStream → ServerStream
on_body_available s = s
